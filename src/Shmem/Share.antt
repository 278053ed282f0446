-- ===== src/Shmem/Share.antt =====
-- kernel/src/shmem.c: the processes that may use a region of shared memory, and the places where they
-- have it.
use spoon_microkernel.Prelude.{
  ℕ, zero, suc, Bool, ◌&&◌, not, Option, none, some, update, ◌==◌, if◌then◌else◌, ◌>>=◌,
}
use spoon_microkernel.Prelude.Int.{ℤ, pos, minus_one, is_neg, ◌==ℤ◌, decrement}
use spoon_microkernel.Rwlock.{Rwlock}
use spoon_microkernel.Links.{Lists, list_init, list_insert_before, list_remove}
use spoon_microkernel.Physmem.{Memory, memory_alloc}
use spoon_microkernel.Sched.{points_to}
use spoon_microkernel.Processes.{
  increment32, read_access, write_access, rwlock_release, next_linear,
}
use spoon_microkernel.Shmem.{Shmem, ShmemInfo, with_id, shmem_mask, is_promiscuous, page_count}

-- The search for what a region keeps of a process.
unfoldable pub find_info : (fuel : ℕ) (pid : ℤ) (info : Option ℕ) → Shmem → Option (Option ℕ)
find_info fuel pid none s = some none
find_info zero pid (some p) s = none
find_info (suc fuel) pid (some p) s =
    let rest = find_info fuel pid (next_linear s.lists p) s in
    if (s.info p).pid ==ℤ pid then some (some p) else rest

-- `LIST_INIT`, and the new first link of a list.
abbrev pub before_head : (head : Option ℕ) (a : ℕ) → Lists → Lists
before_head none a h = h
before_head (some p) a h = list_insert_before p a h

unfoldable pub push_info : (sh a : ℕ) → ShmemInfo → Shmem → Shmem
push_info sh a new s = record s {
  info = update s.info a new;
  lists = before_head (s.region sh).list a (list_init a a s.lists);
  region = update s.region sh (record (s.region sh) { list = some a });
}

-- What a process starts with.
abbrev pub new_info : (pid : ℤ) (flags : ℕ) → ShmemInfo
new_info pid flags = record {
  pid = pid;
  virtual_location = 0;
  virtual_pages = minus_one;
  flags = shmem_mask flags;
  usage = pos 0;
}

abbrev pub locked : (list own : Rwlock) (sh : ℕ) → Shmem → Shmem
locked list own sh s = record s {
  shmem_lock = list;
  region = update s.region sh (record (s.region sh) { lock = own });
}

abbrev pub unlocked : (sh : ℕ) → Shmem → Shmem
unlocked sh s = locked (rwlock_release s.shmem_lock) (rwlock_release (s.region sh).lock) sh s

-- What the operations on one region share: its locks, and the answer where there is none.
unfoldable pub with_region :
    {R : Type 0} (missing : R) (id : ℤ) (body : ℕ → Shmem → Option (R × Shmem))
    → Shmem
    → Option (R × Shmem)
with_region missing id body s = do
  list ← read_access s.shmem_lock
  found ← with_id id s
  elim found [
    | none ↦ some (missing, record s { shmem_lock = rwlock_release list })
    | some sh ↦ (do
      own ← write_access (s.region sh).lock
      (r, s') ← body sh (locked list own sh s)
      some (r, unlocked sh s'))
  ]

-- The end of `shmem_grant`, where the search found `found`.
abbrev pub grant_new : (allocated found : Option ℕ) (pid : ℤ) (flags sh : ℕ) → Shmem → ℤ × Shmem
grant_new allocated (some p) pid flags sh s = (minus_one, s)
grant_new none none pid flags sh s = (minus_one, s)
grant_new (some a) none pid flags sh s = (pos 0, push_info sh a (new_info pid flags) s)

-- `shmem_grant`
unfoldable pub shmem_grant :
    (fuel : ℕ) (allocated : Option ℕ) (owner id pid : ℤ) (flags : ℕ) → Shmem → Option (ℤ × Shmem)
unfolding with_region
shmem_grant fuel allocated owner id pid flags s =
    with_region minus_one id
      (λ sh s1.
        let rest = (do
          found ← find_info fuel pid (s1.region sh).list s1
          some (grant_new allocated found pid flags sh s1)) in
        if owner ==ℤ (s1.region sh).pid then rest else some (minus_one, s1))
      s

-- What `shmem_request` returns: -1, or the place, the pages and the flags.
pub data Answer : Type 0 where
  refused : Answer
  mapped : (location : ℕ) (pages : ℤ) (flags : ℕ) → Answer

-- The info of `shmem_request`, new for a promiscuous region.
abbrev pub join_info : (allocated found : Option ℕ) (pid : ℤ) (sh : ℕ) → Shmem → Option ℕ × Shmem
join_info allocated (some p) pid sh s = (some p, s)
join_info none none pid sh s = (none, s)
join_info (some a) none pid sh s =
    if is_promiscuous (s.region sh).flags
    then (some a, push_info sh a (new_info pid (s.region sh).flags) s)
    else (none, s)

-- Its end, behind the mapping.
abbrev pub use_info : (p : ℕ) → Shmem → Answer × Shmem
use_info p s =
    let i = s.info p in
    (
      mapped i.virtual_location i.virtual_pages i.flags,
      record s { info = update s.info p (record i { usage = increment32 i.usage }) },
    )

-- The mapping, where `page_provide` returns `provided`.
abbrev pub map_info : (provided sh : ℕ) (info : Option ℕ) → Shmem → Answer × Shmem
map_info provided sh none s = (refused, s)
map_info provided sh (some p) s =
    let i = record (s.info p) { virtual_location = provided } in
    let pages = (s.region sh).physical_pages in
    if is_neg (s.info p).virtual_pages
    then (if provided == 0
        then (refused, record s { info = update s.info p i })
        else use_info p (record s { info = update s.info p (record i { virtual_pages = pages }) }))
    else use_info p s

-- `shmem_request`, for the process with number `pid`
unfoldable pub shmem_request :
    (fuel : ℕ) (allocated : Option ℕ) (provided : ℕ) (pid id : ℤ) → Shmem → Option (Answer × Shmem)
unfolding with_region
shmem_request fuel allocated provided pid id s =
    with_region refused id
      (λ sh s1. do
        found ← find_info fuel pid (s1.region sh).list s1
        let (info, s2) = join_info allocated found pid sh s1
        some (map_info provided sh info s2))
      s

-- The end of `shmem_release`: the result, and the pages that `page_release` unmaps, if any.
abbrev pub leave_info : (info : Option ℕ) → Shmem → (ℤ × Option (ℕ × ℤ)) × Shmem
leave_info none s = ((minus_one, none), s)
leave_info (some p) s =
    let i = s.info p in
    let less = record i { usage = decrement i.usage } in
    if less.usage ==ℤ pos 0
    then (
      (pos 0, some (i.virtual_location, i.virtual_pages)),
      record s {
        info = update s.info p (record less { virtual_location = 0; virtual_pages = minus_one });
      },
    )
    else ((pos 0, none), record s { info = update s.info p less })

-- `shmem_release`
unfoldable pub shmem_release :
    (fuel : ℕ) (pid id : ℤ) → Shmem → Option ((ℤ × Option (ℕ × ℤ)) × Shmem)
unfolding with_region
shmem_release fuel pid id s =
    with_region (minus_one, none) id
      (λ sh s1. do found ← find_info fuel pid (s1.region sh).list s1; some (leave_info found s1)) s

-- `info->usage > 0`
abbrev pub is_used : ShmemInfo → Bool
is_used i = not (is_neg i.usage) && not (i.usage ==ℤ pos 0)

-- The unlinking of `shmem_revoke`.
unfoldable pub drop_info : (sh p : ℕ) → Shmem → Shmem
drop_info sh p s =
    let x = s.region sh in
    let head = if points_to p x.list then next_linear s.lists p else x.list in
    record s {
      region = update s.region sh (record x { list = head });
      lists = list_remove p s.lists;
    }

-- The end of `shmem_revoke`, where the search found `found`: the result, and the physical memory, from
-- which a region in use takes the pages that the process keeps.
unfoldable pub revoke_found :
    (found : Option ℕ) (sh : ℕ) → Memory → Shmem → Option ((ℤ × Memory) × Shmem)
unfolding drop_info
revoke_found none sh m s = some ((minus_one, m), s)
revoke_found (some p) sh m s =
    let scratch = (do
      (fresh, m1) ← memory_alloc (page_count (s.region sh).physical_pages) m
      some (if fresh == 0 then ((minus_one, m1), s) else ((pos 0, m1), drop_info sh p s))) in
    if is_used (s.info p) then scratch else some ((pos 0, m), drop_info sh p s)

-- `shmem_revoke`, from the process with number `pid`
unfoldable pub shmem_revoke :
    (fuel : ℕ) (owner pid id : ℤ) → Memory → Shmem → Option ((ℤ × Memory) × Shmem)
unfolding revoke_found with_region
shmem_revoke fuel owner pid id m s =
    with_region (minus_one, m) id
      (λ sh s1.
        let rest = (do
          found ← find_info fuel pid (s1.region sh).list s1
          revoke_found found sh m s1) in
        if owner ==ℤ (s1.region sh).pid then rest else some ((minus_one, m), s1))
      s
