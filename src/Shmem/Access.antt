-- ===== src/Shmem/Access.antt =====
-- `shmem_grant` and `shmem_request` of kernel/src/shmem.c: a process that was granted a region gets it.
use native.Mathlib.Decide.{ℕ_discrete}
use mathlib.Core.Path.{subst, fun_ext}
use spoon_microkernel.Prelude.{
  ℕ, suc, ◌<◌, ◌≤◌, ◌≡◌, refl, sym, ap, ◌∙◌, true, false, Option, none, some, List, ◌∷◌, length,
  update, update_self, update_ne, ◌==◌, Returns, Fresh, ◌>>=◌, arith,
}
use spoon_microkernel.Prelude.Int.{ℤ, pos, is_neg, ◌==ℤ◌, ==ℤ_iff}
use spoon_microkernel.Rwlock.{init_rwlock}
use spoon_microkernel.Htable.{retrieve}
use spoon_microkernel.Processes.{rwlock_release}
use spoon_microkernel.Processes.Locks.{with_reader, with_writer, try_read_free, try_write_free}
use spoon_microkernel.Processes.Find.{Walks}
use spoon_microkernel.Shmem.{Shmem, SharedRegion, ShmemInfo, shmem_key, shmem_mask, with_id}
use spoon_microkernel.Shmem.Share.{
  mapped, find_info, push_info, map_info, new_info, locked, unlocked, with_region, shmem_grant,
  shmem_request,
}
use spoon_microkernel.Shmem.Infos.{info_of, find_info_lem, head_lem}

-- The region is locked for the body of an operation.
abbrev pub opened : (sh : ℕ) → Shmem → Shmem
opened sh s = locked with_reader with_writer sh s

pub with_region-eq :
    {R : Type 0} (missing : R) (id : ℤ) (body : ℕ → Shmem → Option (R × Shmem)) (s : Shmem) (sh : ℕ)
    → s.shmem_lock ≡ init_rwlock
    → (s.region sh).lock ≡ init_rwlock
    → with_id id s ≡ some (some sh)
    → with_region missing id body s ≡ (body sh (opened sh s) >>= λ r. some (r.0, unlocked sh r.1))
unfolding with_region
with_region-eq missing id body s sh free own found =
    rw (try_read_free s.shmem_lock free) (rw (found, try_write_free (s.region sh).lock own) refl)

-- The mapping of a process that has no pages yet.
map_info_new :
    (provided sh a : ℕ) (i : ShmemInfo) (s : Shmem)
    → s.info a ≡ i
    → is_neg i.virtual_pages ≡ true
    → 0 < provided
    → (map_info provided sh (some a) s).0 ≡ mapped provided (s.region sh).physical_pages i.flags
map_info_new provided sh a i s at unmapped positive =
    let somewhere : (provided == 0) ≡ false = ground (arith, positive) in
    let yet : is_neg (s.info a).virtual_pages ≡ true =
      ap (λ (j : ShmemInfo). is_neg j.virtual_pages) at ∙ unmapped in
    rw (yet, somewhere)
      (ap (λ (j : ShmemInfo). mapped j.virtual_location j.virtual_pages j.flags)
          (update_self s.info a (record (s.info a) {
            virtual_location = provided;
            virtual_pages = (s.region sh).physical_pages;
          }))
        ∙ ap (λ (j : ShmemInfo). mapped provided (s.region sh).physical_pages j.flags) at)

find_front :
    (fuel : ℕ) (s : Shmem) (a : ℕ) (pid : ℤ) (head : Option ℕ)
    → head ≡ some a
    → (s.info a).pid ≡ pid
    → find_info (suc fuel) pid head s ≡ some (some a)
unfolding find_info
find_front fuel s a pid head front same =
    let mine : ((s.info a).pid ==ℤ pid) ≡ true = (==ℤ_iff (s.info a).pid pid).1 same in
    rw front (rw mine refl)

-- A process that has a region, with no pages mapped yet, asks for it.
request_lem :
    (fuel : ℕ) (allocated : Option ℕ) (provided : ℕ) (id : ℤ) (s : Shmem) (sh a : ℕ) (i : ShmemInfo)
    → s.shmem_lock ≡ init_rwlock
    → (s.region sh).lock ≡ init_rwlock
    → with_id id s ≡ some (some sh)
    → (s.region sh).list ≡ some a
    → s.info a ≡ i
    → is_neg i.virtual_pages ≡ true
    → 0 < provided
    → Returns
        (shmem_request (suc fuel) allocated provided i.pid id s)
        (λ r. r.0 ≡ mapped provided (s.region sh).physical_pages i.flags)
unfolding shmem_request
request_lem fuel allocated provided id s sh a i free own found front at unmapped positive =
    let same = update_self s.region sh (record (s.region sh) { lock = with_writer }) in
    let search =
      find_front fuel (opened sh s) a i.pid ((opened sh s).region sh).list
        (ap (λ (x : SharedRegion). x.list) same ∙ front) (ap (λ (j : ShmemInfo). j.pid) at) in
    rw (with_region-eq _ id _ s sh free own found) (
      rw search (
        map_info_new provided sh a i (opened sh s) at unmapped positive
        ∙ ap (λ (x : SharedRegion). mapped provided x.physical_pages i.flags) same))

-- The state behind a grant.
abbrev granted : (sh a : ℕ) → ShmemInfo → Shmem → Shmem
granted sh a new s = unlocked sh (push_info sh a new (opened sh s))

shmem_grant-eq :
    (fuel a : ℕ) (owner id pid : ℤ) (flags : ℕ) (s : Shmem) (sh : ℕ) (l : List ℕ)
    → s.shmem_lock ≡ init_rwlock
    → (s.region sh).lock ≡ init_rwlock
    → with_id id s ≡ some (some sh)
    → Walks s.lists (s.region sh).list l
    → length l ≤ fuel
    → owner ≡ (s.region sh).pid
    → info_of s.info pid l ≡ none
    → shmem_grant fuel (some a) owner id pid flags s
      ≡ some (pos 0, granted sh a (new_info pid flags) s)
unfolding shmem_grant
shmem_grant-eq fuel a owner id pid flags s sh l free own found w enough mine unlisted =
    let same = update_self s.region sh (record (s.region sh) { lock = with_writer }) in
    let owns : (owner ==ℤ ((opened sh s).region sh).pid) ≡ true =
      (==ℤ_iff owner _).1 (mine ∙ sym (ap (λ (x : SharedRegion). x.pid) same)) in
    let search : find_info fuel pid ((opened sh s).region sh).list (opened sh s) ≡ some none =
      ap (λ (o : Option ℕ). find_info fuel pid o (opened sh s))
        (ap (λ (x : SharedRegion). x.list) same ∙ w.start)
      ∙ find_info_lem fuel pid (opened sh s) none l enough w.listed.1 w.owned
      ∙ ap (λ (o : Option ℕ). some o) unlisted in
    rw (with_region-eq _ id _ s sh free own found) (rw (owns, search) refl)

-- `rwlock_release` on the lock of a region.
abbrev released : SharedRegion → SharedRegion
released x = record x { lock = rwlock_release x.lock }

-- A region keeps its id where it is written.
id_kept :
    (region : ℕ → SharedRegion) (sh : ℕ) (new : SharedRegion)
    → new.id ≡ (region sh).id
    → (p : ℕ) → (update region sh new p).id ≡ (region p).id
id_kept region sh new same p = elim (ℕ_discrete sh p) [
  | yes e ↦
      subst (λ q. (update region sh new q).id ≡ (region q).id) e
        (ap (λ (x : SharedRegion). x.id) (update_self region sh new) ∙ same)
  | no apart ↦ ap (λ (x : SharedRegion). x.id) (update_ne region new apart)
]

-- The regions after an operation that changes the head of the list of one.
module _ (s : Shmem) (sh : ℕ) (head : Option ℕ) where
  abbrev headed : ℕ → SharedRegion
  headed = update (opened sh s).region sh (record ((opened sh s).region sh) { list = head })

  abbrev pub closed : ℕ → SharedRegion
  closed = update headed sh (released (headed sh))

  -- The region itself, when it is unlocked.
  pub closed_region : closed sh ≡ record (s.region sh) { lock = init_rwlock; list = head }
  closed_region =
      update_self headed sh (released (headed sh))
      ∙ ap released (
          update_self (opened sh s).region sh (record ((opened sh s).region sh) { list = head })
          ∙ ap (λ (x : SharedRegion). record x { list = head })
              (update_self s.region sh (record (s.region sh) { lock = with_writer })))

  pub closed_found :
      (id : ℤ) → retrieve (λ p. (closed p).id ==ℤ id) (shmem_key id) s.table ≡ with_id id s
  closed_found id =
      ap (λ (f : ℕ → ℤ). retrieve (λ p. f p ==ℤ id) (shmem_key id) s.table)
        (fun_ext (λ p.
          id_kept headed sh (released (headed sh)) refl p
          ∙ id_kept (opened sh s).region sh (record ((opened sh s).region sh) { list = head }) refl
              p
          ∙ id_kept s.region sh (record (s.region sh) { lock = with_writer }) refl p))

module _ (s : Shmem) (sh a : ℕ) (new : ShmemInfo) where
  granted_walk :
      (l : List ℕ)
      → Walks s.lists (s.region sh).list l
      → Fresh a l
      → Walks (granted sh a new s).lists (some a) (a ∷ l)
  unfolding push_info
  granted_walk l w out =
      head_lem s.lists a ((opened sh s).region sh).list l
        (ap (λ (x : SharedRegion). x.list)
            (update_self s.region sh (record (s.region sh) { lock = with_writer }))
          ∙ w.start)
        w.listed w.owned out

-- With the locks free, and memory for the struct at an address that is not in the list of the region,
-- `shmem_grant` by the owner of a region to a process that has no access returns 0, and the process then
-- stands first in the list. The `shmem_request` of the process that follows returns the place that
-- `page_provide` gives, the pages of the region, and the flags of the grant, masked.
pub shmem_request-shmem_grant :
    (fuel more a : ℕ) (id pid : ℤ) (flags provided : ℕ) (allocated : Option ℕ) (s : Shmem) (sh : ℕ)
    (l : List ℕ)
    → s.shmem_lock ≡ init_rwlock
    → (s.region sh).lock ≡ init_rwlock
    → with_id id s ≡ some (some sh)
    → Walks s.lists (s.region sh).list l
    → length l ≤ fuel
    → Fresh a l
    → info_of s.info pid l ≡ none
    → 0 < provided
    → Returns (shmem_grant fuel (some a) (s.region sh).pid id pid flags s) (λ g.
      (g.0 ≡ pos 0)
      × Walks g.1.lists (g.1.region sh).list (a ∷ l)
      × Returns
          (shmem_request (suc more) allocated provided pid id g.1)
          (λ r. r.0 ≡ mapped provided (s.region sh).physical_pages (shmem_mask flags)))
unfolding push_info
shmem_request-shmem_grant fuel more a id pid flags provided allocated s sh l free own found w enough
      new unlisted positive =
    let info = new_info pid flags in
    let g = granted sh a info s in
    let region = closed_region s sh (some a) in
    let listed : (g.region sh).list ≡ some a = ap (λ (x : SharedRegion). x.list) region in
    let request =
      request_lem more allocated provided id g sh a info refl
        (ap (λ (x : SharedRegion). x.lock) region) (closed_found s sh (some a) id ∙ found) listed
        (update_self s.info a info) refl positive in
    let pages : (g.region sh).physical_pages ≡ (s.region sh).physical_pages =
      ap (λ (x : SharedRegion). x.physical_pages) region in
    rw (shmem_grant-eq fuel a _ id pid flags s sh l free own found w enough refl unlisted) (
      refl,
      subst (λ o. Walks g.lists o (a ∷ l)) (sym listed) (granted_walk s sh a info l w new),
      subst
          (λ n.
            Returns (shmem_request (suc more) allocated provided pid id g)
              (λ r. r.0 ≡ mapped provided n (shmem_mask flags)))
          pages request,
    )
