-- ===== src/Processes.antt =====
-- kernel/src/process.c: the list, the tree and the table of all processes, the numbers given to them,
-- and the locks of the list and of each process. A lock is taken at once, or the code waits for
-- other threads, which is `none` here.
pub mod Pids
pub mod Find
pub mod Locks
pub mod Checkout
pub mod Tree
pub mod Insert
pub mod Remove
mod Tests
use spoon_microkernel.Prelude.{
  ℕ, zero, suc, ◌+◌, ◌-◌, ◌*◌, ◌%◌, ◌^◌, Bool, ◌&&◌, not, Option, none, some, List, update, ltb,
  ◌==◌, if◌then◌else◌, ◌>>=◌, ◌>>◌, assert,
}
use spoon_microkernel.Prelude.Int.{ℤ, pos, negsuc, minus_one, is_neg, ◌==ℤ◌, increment}
use spoon_microkernel.Strings.{strncmp}
use spoon_microkernel.Htable.{HashTable, magnitude, retrieve, insert, remove}
use spoon_microkernel.Rwlock.{
  Rwlock, try_read, try_write, has_writer, clear_request, clear_writer, drop_reader,
}
use spoon_microkernel.Links.{Lists, list_insert_after, list_remove}
use spoon_microkernel.Family.{Family, family_add_child, family_adopt, family_remove}
use spoon_microkernel.Threads.{is_empty}

-- `NAME_LENGTH` of smk/limits.h
abbrev pub process_name_length : ℕ
process_name_length = 64

-- `struct process`, as far as finding it goes. A name is its bytes up to the first 0.
pub record ProcessEntry : Type 0 where
  pub name : List ℕ
  pub pid : ℤ

-- `l_processTable`, `l_rootProcess`, `l_processLock` and `l_PID`, and the fields of the processes.
pub record Processes : Type 0 where
  pub entry : ℕ → ProcessEntry
  pub lists : Lists
  pub family : Family
  pub locks : ℕ → Rwlock
  pub table : HashTable ℕ
  pub root : Option ℕ
  pub process_lock : Rwlock
  pub last_pid : ℤ

-- `ptable_key`, whose product wraps. The `int` -2 ^ 31 is its own negation, and stands as its word,
-- 2 ^ 31.
abbrev pub ptable_key : ℤ → ℤ
ptable_key pid =
    let ans = magnitude pid * 100 % 2 ^ 32 in pos (if ltb ans (2 ^ 31) then ans else 2 ^ 32 - ans)

-- Whether `ptable_compare` says 0 of a process and a sample with this number and no name.
abbrev pub ptable_match : ℤ → ProcessEntry → Bool
ptable_match pid e = if pid ==ℤ minus_one then is_empty e.name else e.pid ==ℤ pid

-- The process with a number in the table, the inner `none` if there is none.
abbrev pub with_pid : ℤ → Processes → Option (Option ℕ)
with_pid pid s = retrieve (λ p. ptable_match pid (s.entry p)) (ptable_key pid) s.table

-- `a + 1` on an `int`
abbrev pub increment32 : ℤ → ℤ
increment32 (pos n) = if n + 1 == 2 ^ 31 then negsuc (2 ^ 31 - 1) else pos (n + 1)
increment32 (negsuc n) = increment (negsuc n)

-- The number that a round of `next_pid` tries; `temp` is that of the last round, or -1.
abbrev pub try_pid : (temp last : ℤ) → ℤ
try_pid temp last =
    let l = increment32 last in if temp ==ℤ minus_one then last else if is_neg l then pos 2 else l

-- The loop of `next_pid`.
unfoldable pub pid_loop : (fuel : ℕ) (temp : ℤ) → Processes → Option Processes
pid_loop zero temp s = none
pid_loop (suc fuel) temp s =
    let last = try_pid temp s.last_pid in
    let s1 = record s { last_pid = last } in
    let rest = pid_loop fuel last s1 in
    with_pid last s1 >>= λ found. elim found [ none ↦ some s1 | some _ ↦ rest ]

-- `next_pid`
unfoldable pub next_pid : (fuel : ℕ) → Processes → Option (ℤ × Processes)
unfolding pid_loop
next_pid fuel s = do
  s1 ← pid_loop fuel minus_one s
  some (s1.last_pid, record s1 { last_pid = increment32 s1.last_pid })

-- `rwlock_get_read_access`, `rwlock_get_write_access` and `rwlock_release`, by one thread alone.
abbrev pub read_access : Rwlock → Option Rwlock
read_access rw = if (try_read rw).0 then some (try_read rw).1 else none

abbrev pub write_access : Rwlock → Option Rwlock
write_access rw = if (try_write rw).0 then some (try_write rw).1 else none

abbrev pub rwlock_release : Rwlock → Rwlock
rwlock_release rw = if has_writer rw then clear_writer (clear_request rw) else drop_reader rw

-- `NEXT_LINEAR`
abbrev pub next_linear : Lists → ℕ → Option ℕ
next_linear h p = elim (h.next p) [ none ↦ none | some l ↦ some (h.object l) ]

-- `PARENT`
abbrev pub parent_of : Family → ℕ → Option ℕ
parent_of f p = elim (f.parent p) [ none ↦ none | some q ↦ some (f.object q) ]

-- The loop of `find_process`.
unfoldable pub find_loop : (fuel : ℕ) (name : List ℕ) (tmp : Option ℕ) → Processes → Option ℤ
find_loop fuel name none s = some minus_one
find_loop zero name (some p) s = none
find_loop (suc fuel) name (some p) s =
    let rest = find_loop fuel name (next_linear s.lists p) s in
    if strncmp name (s.entry p).name process_name_length == 0 then some (s.entry p).pid else rest

-- `find_process`
unfoldable pub find_process : (fuel : ℕ) (name : List ℕ) → Processes → Option (ℤ × Processes)
unfolding find_loop
find_process fuel name s = do
  lock ← read_access s.process_lock
  pid ← find_loop fuel name s.root s
  some (pid, record s { process_lock = rwlock_release lock })

-- The call of `htable_insert` in `insert_process`.
abbrev pub add_to_table : (memory : ℕ → Bool) (depth proc : ℕ) → Processes → Option Processes
add_to_table memory depth proc s = do
  (_, table) ← insert (λ p. ptable_key (s.entry p).pid) memory depth proc s.table
  some (record s { table = table })

-- `insert_process` where the root is known; `depth` bounds the calls in each other of the table's
-- functions.
unfoldable pub insert_at :
    (memory : ℕ → Bool) (depth : ℕ) (pid : ℤ) (proc : ℕ)
    → Processes
    → (root : Option ℕ) → Option (ℤ × Processes)
insert_at memory depth pid proc s none = do
  s' ← add_to_table memory depth proc (record s { root = some proc })
  some ((s'.entry proc).pid, s')
insert_at memory depth pid proc s (some root) = do
  assert (not (is_neg pid) && not (pid ==ℤ pos 0))
  lock ← write_access s.process_lock
  found ← with_pid pid s
  parent ← found
  s' ← add_to_table memory depth proc (record s {
    family = family_add_child parent proc s.family;
    lists = list_insert_after root proc s.lists;
    process_lock = lock;
  })
  some ((s'.entry proc).pid, record s' { process_lock = rwlock_release lock })

-- `insert_process`
unfoldable pub insert_process :
    (memory : ℕ → Bool) (depth : ℕ) (pid : ℤ) (proc : ℕ) → Processes → Option (ℤ × Processes)
unfolding insert_at
insert_process memory depth pid proc s = insert_at memory depth pid proc s s.root

-- `remove_process`
unfoldable pub remove_process :
    (memory : ℕ → Bool) (depth fuel proc : ℕ) → Processes → Option Processes
remove_process memory depth fuel proc s = do
  lock ← write_access s.process_lock
  parent ← parent_of s.family proc
  family ← family_adopt fuel parent proc s.family
  (_, table) ← remove (λ p. ptable_key (s.entry p).pid) ◌==◌ memory depth proc s.table
  some (record s {
    family = family_remove proc family;
    lists = list_remove proc s.lists;
    table = table;
    process_lock = rwlock_release lock;
  })

-- `checkout_process`, for a reader or a writer.
unfoldable pub checkout_process :
    (pid : ℤ) (reader : Bool) → Processes → Option (Option ℕ × Processes)
checkout_process pid reader s = do
  lock ← read_access s.process_lock
  found ← with_pid pid s
  elim found [
    | none ↦ some (none, record s { process_lock = rwlock_release lock })
    | some p ↦ (do
      own ← if reader then read_access (s.locks p) else write_access (s.locks p)
      some (some p, record s { process_lock = lock; locks = update s.locks p own }))
  ]

-- `release_processes`
unfoldable pub release_processes : Processes → Processes
release_processes s = record s { process_lock = rwlock_release s.process_lock }

-- `commit_process`
unfoldable pub commit_process : (p : ℕ) → Processes → Processes
unfolding release_processes
commit_process p s =
    release_processes (record s { locks = update s.locks p (rwlock_release (s.locks p)) })

-- The loop of `process_foreach`; the callback has a state of its own.
unfoldable pub foreach_loop :
    {S : Type 0} (fuel : ℕ) (callback : ℕ → S → ℤ × S) (p : Option ℕ)
    → Lists
    → ℤ
    → S
    → Option (ℤ × S)
foreach_loop fuel callback none h ans state = some (ans, state)
foreach_loop zero callback (some p) h ans state = none
foreach_loop (suc fuel) callback (some p) h ans state =
    let r = callback p state in
    let rest = foreach_loop fuel callback (next_linear h p) h r.0 r.1 in
    if r.0 ==ℤ pos 0 then rest else some r

-- `process_foreach`
unfoldable pub process_foreach :
    {S : Type 0} (fuel : ℕ) (callback : ℕ → S → ℤ × S) (reader : Bool)
    → Processes
    → S
    → Option (ℤ × S × Processes)
process_foreach fuel callback reader s state = do
  lock ← if reader then read_access s.process_lock else write_access s.process_lock
  (ans, state') ← foreach_loop fuel callback s.root s.lists (pos 0) state
  some (ans, state', record s { process_lock = rwlock_release lock })
