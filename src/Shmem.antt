-- ===== src/Shmem.antt =====
-- kernel/src/shmem.c: regions of memory that processes share. The table of the regions, the list of the
-- processes that may use each, and their locks. A lock is taken at once, or the code waits, which is
-- `none`. What `malloc` and `page_provide` return are arguments; the page tables are left out.
pub mod Share
pub mod Ids
pub mod Create
pub mod Infos
pub mod Access
pub mod Revoke
mod Tests
use spoon_microkernel.Prelude.{
  ℕ, zero, suc, ◌+◌, ◌-◌, ◌*◌, ◌/◌, ◌%◌, ◌^◌, Bool, ◌||◌, ◌&&◌, not, Option, none, some, List,
  update, ltb, ◌==◌, if◌then◌else◌, ◌>>=◌,
}
use spoon_microkernel.Prelude.Int.{
  ℤ, pos, negsuc, minus_one, is_neg, ◌==ℤ◌, increment, decrement, to_int32,
}
use spoon_microkernel.Strings.{c_string, strlen, strncpy, strncmp}
use spoon_microkernel.Htable.{HashTable, retrieve, insert, get_nth}
use spoon_microkernel.Rwlock.{Rwlock, init_rwlock}
use spoon_microkernel.Links.{Lists, list_init, list_insert_before}
use spoon_microkernel.Physmem.{Memory, memory_alloc, memory_free}
use spoon_microkernel.Processes.{
  process_name_length, increment32, read_access, write_access, rwlock_release, next_linear,
}

-- `struct shmem_info`, without what only `shmem_delete` uses
pub record ShmemInfo : Type 0 where
  pub pid : ℤ
  pub virtual_location : ℕ
  pub virtual_pages : ℤ
  pub flags : ℕ
  pub usage : ℤ

-- `struct shmem`
pub record SharedRegion : Type 0 where
  pub id : ℤ
  pub name : List ℕ
  pub lock : Rwlock
  pub pid : ℤ
  pub flags : ℕ
  pub internal : ℕ
  pub physical_location : ℕ
  pub physical_pages : ℤ
  pub list : Option ℕ

-- `shmem_table`, `shmem_id` and `shmem_lock`, with the structs in heaps.
pub record Shmem : Type 0 where
  pub region : ℕ → SharedRegion
  pub info : ℕ → ShmemInfo
  pub lists : Lists
  pub table : HashTable ℕ
  pub next_id : ℤ
  pub shmem_lock : Rwlock

-- `shmem_key`, whose product wraps.
abbrev pub shmem_key : (id : ℤ) → ℤ
shmem_key (pos n) = to_int32 (n * 100 % 2 ^ 32)
shmem_key (negsuc n) = to_int32 ((2 ^ 32 - (n + 1) * 100 % 2 ^ 32) % 2 ^ 32)

-- The region with an id, the inner `none` if there is none; `shmem_cmp` says 0 where the ids are equal.
abbrev pub with_id : (id : ℤ) → Shmem → Option (Option ℕ)
with_id id s = retrieve (λ p. (s.region p).id ==ℤ id) (shmem_key id) s.table

-- `flags & SHMEM_MASK`
abbrev pub shmem_mask : (flags : ℕ) → ℕ
shmem_mask flags = flags % 8

-- `(flags & SHMEM_PROMISCUOUS) == SHMEM_PROMISCUOUS`
abbrev pub is_promiscuous : (flags : ℕ) → Bool
is_promiscuous flags = flags / 4 % 2 == 1

-- `shmem_id++`, and the test for a roll over.
abbrev pub roll_id : ℤ → ℤ
roll_id id = let next = increment32 id in if is_neg next then pos 0 else next

-- The loop of `shmem_create_direct`.
unfoldable pub id_loop : (fuel : ℕ) → Shmem → Option (ℤ × Shmem)
id_loop zero s = none
id_loop (suc fuel) s =
    let id = s.next_id in
    let s1 = record s { next_id = roll_id id } in
    let rest = id_loop fuel s1 in
    with_id id s1 >>= λ found. elim found [ none ↦ some (id, s1) | some _ ↦ rest ]

-- `shmem_create_direct` from the lock on, for a struct at address `a`.
unfoldable pub add_region :
    (memory : ℕ → Bool) (depth fuel a : ℕ) → SharedRegion → Shmem → Option (ℤ × Shmem)
unfolding id_loop
add_region memory depth fuel a new s = do
  lock ← write_access s.shmem_lock
  (id, s1) ← id_loop fuel (record s { shmem_lock = lock; region = update s.region a new })
  let region = update s1.region a (record (s1.region a) { id = id })
  (_, table) ← insert (λ p. shmem_key (region p).id) memory depth a s1.table
  some (id, record s1 { region = region; table = table; shmem_lock = rwlock_release lock })

-- The struct that `shmem_create_direct` fills, but for its id.
abbrev pub filled :
    SharedRegion → (name : List ℕ) (pid pages : ℤ) (flags location internal : ℕ) → SharedRegion
filled old name pid pages flags location internal = record old {
  name = strncpy old.name name process_name_length;
  lock = init_rwlock;
  pid = pid;
  flags = shmem_mask flags;
  internal = internal;
  physical_location = location;
  physical_pages = pages;
  list = none;
}

-- `shmem_create_direct`; `allocated` is the answer of `malloc`.
unfoldable pub shmem_create_direct :
    (memory : ℕ → Bool) (depth fuel : ℕ) (allocated : Option ℕ) (name : List ℕ) (pid pages : ℤ)
    (flags location internal : ℕ)
    → Shmem
    → Option (ℤ × Shmem)
unfolding add_region
shmem_create_direct memory depth fuel none name pid pages flags location internal s =
    some (minus_one, s)
shmem_create_direct memory depth fuel (some a) name pid pages flags location internal s =
    if is_neg pages || pages ==ℤ pos 0 || strlen name == 0
    then some (minus_one, s)
    else add_region memory depth fuel a (filled (s.region a) name pid pages flags location internal)
        s

-- A number of pages for `memory_alloc`, which fails its assertion for 0 and less.
abbrev pub page_count : ℤ → ℕ
page_count (pos n) = n
page_count (negsuc n) = 0

-- `shmem_create`, on the physical memory too.
unfoldable pub shmem_create :
    (memory : ℕ → Bool) (depth fuel : ℕ) (allocated : Option ℕ) (name : List ℕ) (pid pages : ℤ)
    (flags : ℕ)
    → Shmem × Memory
    → Option (ℤ × Shmem × Memory)
unfolding shmem_create_direct
shmem_create memory depth fuel allocated name pid pages flags (s, m) = do
  (location, m1) ← memory_alloc (page_count pages) m
  (id, s1) ←
      if location == 0
      then some (minus_one, s)
      else shmem_create_direct memory depth fuel allocated name pid pages flags location 1 s
  m2 ←
      if is_neg id && not (location == 0)
      then memory_free (page_count pages) location m1
      else some m1
  some (id, s1, m2)

-- The loop of `shmem_find`, from the `i`-th region of the table on.
unfoldable pub find_region : (fuel i : ℕ) (name : List ℕ) → Shmem → Option (ℤ × Option ℤ)
find_region zero i name s = none
find_region (suc fuel) i name s =
    let rest = find_region fuel (i + 1) name s in
    elim (get_nth i s.table) [
      | none ↦ some (minus_one, none)
      | some sh ↦
          if strncmp name (c_string (s.region sh).name) process_name_length == 0
          then some ((s.region sh).id, some (s.region sh).pid)
          else rest
    ]

-- `shmem_find`: the id, and the process if it writes one.
unfoldable pub shmem_find : (fuel : ℕ) (name : List ℕ) → Shmem → Option ((ℤ × Option ℤ) × Shmem)
unfolding find_region
shmem_find fuel name s = do
  lock ← read_access s.shmem_lock
  r ← find_region fuel 0 name s
  some (r, record s { shmem_lock = rwlock_release lock })

-- The loop of `shmem_get`, from the `i`-th region of the table on.
unfoldable pub nth_region : (fuel i num : ℕ) → Shmem → Option (Option SharedRegion)
nth_region zero i num s = none
nth_region (suc fuel) i num s =
    let rest = nth_region fuel (i + 1) num s in
    elim (get_nth i s.table) [
      | none ↦ some none
      | some sh ↦ if ltb num (i + 1) then some (some (s.region sh)) else rest
    ]

-- `shmem_get`, for a number that is not negative: the result, with the name written into `name`, the process, the pages and the flags.
unfoldable pub shmem_get :
    (fuel num : ℕ) (name : List ℕ) → Shmem → Option (Option (List ℕ × ℤ × ℤ × ℕ) × Shmem)
unfolding nth_region
shmem_get fuel num name s = do
  lock ← read_access s.shmem_lock
  r ← nth_region fuel 0 num s
  some (
    elim r [
      | none ↦ none
      | some x ↦
          some
            (strncpy name (c_string x.name) process_name_length, x.pid, x.physical_pages, x.flags)
    ],
    record s { shmem_lock = rwlock_release lock },
  )
