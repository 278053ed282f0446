-- ===== src/Shmem/Revoke.antt =====
-- `shmem_revoke` of kernel/src/shmem.c: the process leaves the list of the region.
use mathlib.Core.Path.{subst}
use spoon_microkernel.Prelude.{
  ℕ, ◌≤◌, ◌≡◌, ◌≢◌, refl, sym, ap, ◌∙◌, false, true, Option, none, some, List, [], ◌∷◌, ◌++◌,
  length, All, All-right, update_self, if◌then◌else◌, Returns, ◌==◌, arith,
}
use spoon_microkernel.Prelude.Int.{ℤ, pos, ◌==ℤ◌, ==ℤ_iff}
use spoon_microkernel.Links.{Lists, list_remove}
use spoon_microkernel.Links.Laws.{IsList, list_remove_lem}
use spoon_microkernel.Links.Linked.{first}
use spoon_microkernel.Sched.{points_to}
use spoon_microkernel.Processes.{next_linear}
use spoon_microkernel.Processes.Find.{Walks, next_lem}
use spoon_microkernel.Shmem.{Shmem, SharedRegion}
use spoon_microkernel.Rwlock.{init_rwlock}
use spoon_microkernel.Physmem.{Memory}
use spoon_microkernel.Processes.Locks.{with_writer}
use spoon_microkernel.Shmem.{with_id, is_promiscuous}
use spoon_microkernel.Shmem.Infos.{info_of, find_info_lem}
use spoon_microkernel.Shmem.Access.{opened, with_region-eq, closed, closed_region, closed_found}
use spoon_microkernel.Shmem.Share.{
  drop_info, unlocked, find_info, is_used, shmem_revoke, shmem_request, refused, map_info,
  join_info,
}

owned_left :
    (h h' : Lists) (xs ys : List ℕ) (p : ℕ)
    → ((q : ℕ) → h'.object q ≡ h.object q)
    → All (λ q. h.object q ≡ q) (xs ++ p ∷ ys)
    → All (λ q. h'.object q ≡ q) (xs ++ ys)
owned_left h h' [] [] p same own = tt
owned_left h h' [] (y ∷ ys) p same own =
    (same y ∙ own.1.0, owned_left h h' [] ys p same (own.0, own.1.1))
owned_left h h' (x ∷ xs) ys p same own = (same x ∙ own.0, owned_left h h' xs ys p same own.1)

-- The head of the list without an entry.
head_left :
    (h : Lists) (xs ys : List ℕ) (p : ℕ) (head : Option ℕ)
    → head ≡ first (xs ++ p ∷ ys) none
    → IsList h (xs ++ p ∷ ys)
    → All (λ q. h.object q ≡ q) (xs ++ p ∷ ys)
    → (if points_to p head then next_linear h p else head) ≡ first (xs ++ ys) none
head_left h [] ys p head start (d, linked) own =
    let mine : (p == p) ≡ true = ground arith in
    rw start (rw mine (next_lem h none p ys linked own.1))
head_left h (x ∷ xs) ys p head start (d, linked) own =
    let other : (x == p) ≡ false = ground (arith, (All-right (λ z. x ≢ z) xs (p ∷ ys) d.0).0) in
    rw start (rw other refl)

-- An entry leaves the list of its region.
pub drop_info_lem :
    (s : Shmem) (sh p : ℕ) (xs ys : List ℕ)
    → Walks s.lists (s.region sh).list (xs ++ p ∷ ys)
    → Walks (drop_info sh p s).lists ((drop_info sh p s).region sh).list (xs ++ ys)
unfolding drop_info
drop_info_lem s sh p xs ys w =
    let (listed, _, _, spares) = list_remove_lem s.lists xs p ys w.listed in
    record {
      listed = listed;
      start =
          ap (λ (x : SharedRegion). x.list) (update_self s.region sh _)
          ∙ head_left s.lists xs ys p (s.region sh).list w.start w.listed w.owned;
      owned = owned_left s.lists (list_remove p s.lists) xs ys p spares.objects w.owned;
    }

-- The state behind a revocation.
abbrev revoked : (sh p : ℕ) → Shmem → Shmem
revoked sh p s = unlocked sh (drop_info sh p (opened sh s))

-- The search of an operation on the region.
search_lem :
    (s : Shmem) (sh : ℕ) (pid : ℤ) (fuel : ℕ) (l : List ℕ)
    → Walks s.lists (s.region sh).list l
    → length l ≤ fuel
    → find_info fuel pid ((opened sh s).region sh).list (opened sh s) ≡ some (info_of s.info pid l)
search_lem s sh pid fuel l w enough =
    ap (λ (o : Option ℕ). find_info fuel pid o (opened sh s))
      (ap (λ (x : SharedRegion). x.list)
          (update_self s.region sh (record (s.region sh) { lock = with_writer }))
        ∙ w.start)
    ∙ find_info_lem fuel pid (opened sh s) none l enough w.listed.1 w.owned

shmem_revoke-eq :
    (s : Shmem) (sh p : ℕ) (id pid : ℤ) (xs ys : List ℕ) (fuel : ℕ) (m : Memory)
    → s.shmem_lock ≡ init_rwlock
    → (s.region sh).lock ≡ init_rwlock
    → with_id id s ≡ some (some sh)
    → Walks s.lists (s.region sh).list (xs ++ p ∷ ys)
    → length (xs ++ p ∷ ys) ≤ fuel
    → info_of s.info pid (xs ++ p ∷ ys) ≡ some p
    → is_used (s.info p) ≡ false
    → shmem_revoke fuel (s.region sh).pid pid id m s ≡ some ((pos 0, m), revoked sh p s)
unfolding shmem_revoke
shmem_revoke-eq s sh p id pid xs ys fuel m free own found w enough listed unused =
    let same = update_self s.region sh (record (s.region sh) { lock = with_writer }) in
    let owns : ((s.region sh).pid ==ℤ ((opened sh s).region sh).pid) ≡ true =
      (==ℤ_iff _ _).1 (sym (ap (λ (x : SharedRegion). x.pid) same)) in
    let search =
      search_lem s sh pid fuel (xs ++ p ∷ ys) w enough ∙ ap (λ (o : Option ℕ). some o) listed in
    rw (with_region-eq _ id _ s sh free own found) (rw owns (rw search (rw unused refl)))

-- A process that is not in the list of a region is refused, unless the region is promiscuous.
request_refused :
    (fuel : ℕ) (allocated : Option ℕ) (provided : ℕ) (id pid : ℤ) (s : Shmem) (sh : ℕ) (l : List ℕ)
    → s.shmem_lock ≡ init_rwlock
    → (s.region sh).lock ≡ init_rwlock
    → with_id id s ≡ some (some sh)
    → Walks s.lists (s.region sh).list l
    → length l ≤ fuel
    → info_of s.info pid l ≡ none
    → is_promiscuous (s.region sh).flags ≡ false
    → Returns (shmem_request fuel allocated provided pid id s) (λ r. r.0 ≡ refused)
unfolding shmem_request
request_refused fuel allocated provided id pid s sh l free own found w enough unlisted closed =
    let search = search_lem s sh pid fuel l w enough ∙ ap (λ (o : Option ℕ). some o) unlisted in
    let same : is_promiscuous ((opened sh s).region sh).flags ≡ false =
      ap (λ (x : SharedRegion). is_promiscuous x.flags)
        (update_self s.region sh (record (s.region sh) { lock = with_writer }))
      ∙ closed in
    rw (with_region-eq _ id _ s sh free own found) (rw search (answer allocated same))
  where
    answer :
        (allocated : Option ℕ)
        → is_promiscuous ((opened sh s).region sh).flags ≡ false
        → (map_info provided sh
            (join_info allocated none pid sh (opened sh s)).0
            (join_info allocated none pid sh (opened sh s)).1).0
          ≡ refused
    answer none same = refl
    answer (some a) same = rw same refl

-- With the locks free, `shmem_revoke` by the owner of a region that is not promiscuous, from a process
-- that does not use it and stands in its list once, returns 0 and takes the process out of the list; the
-- physical memory stays as it is, and `shmem_request` then refuses the process.
pub shmem_request-shmem_revoke :
    (fuel more : ℕ) (allocated : Option ℕ) (provided : ℕ) (id pid : ℤ) (m : Memory) (s : Shmem)
    (sh p : ℕ) (xs ys : List ℕ)
    → s.shmem_lock ≡ init_rwlock
    → (s.region sh).lock ≡ init_rwlock
    → with_id id s ≡ some (some sh)
    → Walks s.lists (s.region sh).list (xs ++ p ∷ ys)
    → length (xs ++ p ∷ ys) ≤ fuel
    → length (xs ++ ys) ≤ more
    → info_of s.info pid (xs ++ p ∷ ys) ≡ some p
    → info_of s.info pid (xs ++ ys) ≡ none
    → is_used (s.info p) ≡ false
    → is_promiscuous (s.region sh).flags ≡ false
    → Returns (shmem_revoke fuel (s.region sh).pid pid id m s) (λ r.
      (r.0 ≡ (pos 0, m))
      × Walks r.1.lists (r.1.region sh).list (xs ++ ys)
      × Returns (shmem_request more allocated provided pid id r.1) (λ q. q.0 ≡ refused))
unfolding drop_info
shmem_request-shmem_revoke fuel more allocated provided id pid m s sh p xs ys free own found w
      enough much listed once unused shut =
    let began : Walks (opened sh s).lists ((opened sh s).region sh).list (xs ++ p ∷ ys) =
      subst (λ o. Walks s.lists o (xs ++ p ∷ ys))
        (sym (
          ap (λ (x : SharedRegion). x.list)
            (update_self s.region sh (record (s.region sh) { lock = with_writer }))))
        w in
    let head = ((drop_info sh p (opened sh s)).region sh).list in
    let dropped = drop_info_lem (opened sh s) sh p xs ys began in
    let left =
      if points_to p ((opened sh s).region sh).list
      then next_linear s.lists p
      else ((opened sh s).region sh).list in
    let region = closed_region s sh left in
    let same : head ≡ left =
      ap (λ (x : SharedRegion). x.list)
        (update_self (opened sh s).region sh (record ((opened sh s).region sh) { list = left })) in
    let walk : Walks (revoked sh p s).lists ((revoked sh p s).region sh).list (xs ++ ys) =
      subst (λ o. Walks (revoked sh p s).lists o (xs ++ ys))
        (same ∙ sym (ap (λ (x : SharedRegion). x.list) region)) dropped in
    rw (shmem_revoke-eq s sh p id pid xs ys fuel m free own found w enough listed unused) (
      refl,
      walk,
      request_refused more allocated provided id pid (revoked sh p s) sh (xs ++ ys) refl
          (ap (λ (x : SharedRegion). x.lock) region) (closed_found s sh left id ∙ found) walk much
          once (ap (λ (x : SharedRegion). is_promiscuous x.flags) region ∙ shut),
    )
