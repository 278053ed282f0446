-- ===== src/Rwlock.antt =====
-- kernel/src/rwlock.c and kernel/src/include/rwlock.h: the read-write lock of the kernel. What
-- stands between `acquire_spinlock` and `release_spinlock` is one step, and so is each access of
-- `rwlock_release`, which takes no spinlock. Threads run in any order.
pub mod Counts
pub mod Safety
mod Tests
pub mod Waiting
use spoon_microkernel.Prelude.{
  ℕ, zero, suc, ◌+◌, ◌<◌, ◌≡◌, ◌⊎◌, Bool, true, false, ◌&&◌, not, List, [], ◌∷◌, length, get_or,
  set, replicate, ◌==◌, if◌then◌else◌, add32, sub32,
}

-- `struct rwlock`
pub record Rwlock : Type 0 where
  pub num_readers : ℕ
  pub num_writers : ℕ
  pub write_request : ℕ

-- `init_rwlock`
abbrev pub init_rwlock : Rwlock
init_rwlock = record { num_readers = 0; num_writers = 0; write_request = 0 }

-- A round of the loop of `rwlock_get_write_access`, and whether it was the last.
unfoldable pub try_write : Rwlock → Bool × Rwlock
try_write rw =
    if rw.num_readers == 0 && rw.num_writers == 0
    then (true, record rw { num_writers = add32 rw.num_writers 1 })
    else (false, record rw { write_request = 1 })

-- A round of the loop of `rwlock_get_read_access`, and whether it was the last.
unfoldable pub try_read : Rwlock → Bool × Rwlock
try_read rw =
    if rw.num_writers == 0 && rw.write_request == 0
    then (true, record rw { num_readers = add32 rw.num_readers 1 })
    else (false, rw)

-- The accesses of `rwlock_release`: its test, the two writes where it holds, and the `else`.
abbrev pub has_writer : Rwlock → Bool
has_writer rw = not (rw.num_writers == 0)

abbrev pub clear_request : Rwlock → Rwlock
clear_request rw = record rw { write_request = 0 }

abbrev pub clear_writer : Rwlock → Rwlock
clear_writer rw = record rw { num_writers = 0 }

abbrev pub drop_reader : Rwlock → Rwlock
drop_reader rw = record rw { num_readers = sub32 rw.num_readers 1 }

-- Where a thread stands: in no call and without the lock, with the lock, or in `rwlock_release`
-- between its two writes.
pub data Phase : Type 0 where
  outside reading writing leaving : Phase

abbrev pub is_reading : Phase → Bool
is_reading outside = false
is_reading reading = true
is_reading writing = false
is_reading leaving = false

abbrev pub is_writing : Phase → Bool
is_writing outside = false
is_writing reading = false
is_writing writing = true
is_writing leaving = true

-- The lock, and the phase of each thread.
pub record System : Type 0 where
  pub rw : Rwlock
  pub phases : List Phase

abbrev pub phase : System → ℕ → Phase
phase s i = get_or s.phases i outside

abbrev pub moved : System → Rwlock → (i : ℕ) → Phase → System
moved s rw i p = record { rw = rw; phases = set s.phases i p }

-- A step of thread `i`.
pub data Step (s : System) (i : ℕ) : System → Type 0 where
  write_enters :
      phase s i ≡ outside
      → (try_write s.rw).0 ≡ true
      → Step s i (moved s (try_write s.rw).1 i writing)
  write_waits :
      phase s i ≡ outside
      → (try_write s.rw).0 ≡ false
      → Step s i (record s { rw = (try_write s.rw).1 })
  read_enters :
      phase s i ≡ outside
      → (try_read s.rw).0 ≡ true
      → Step s i (moved s (try_read s.rw).1 i reading)
  read_waits :
      phase s i ≡ outside
      → (try_read s.rw).0 ≡ false
      → Step s i (record s { rw = (try_read s.rw).1 })
  release_begins :
      (phase s i ≡ reading) ⊎ (phase s i ≡ writing)
      → has_writer s.rw ≡ true
      → Step s i (moved s (clear_request s.rw) i leaving)
  release_ends : phase s i ≡ leaving → Step s i (moved s (clear_writer s.rw) i outside)
  release_reads :
      (phase s i ≡ reading) ⊎ (phase s i ≡ writing)
      → has_writer s.rw ≡ false
      → Step s i (moved s (drop_reader s.rw) i outside)

-- `n` threads without the lock.
abbrev pub start : ℕ → System
start n = record { rw = init_rwlock; phases = replicate n outside }

-- What the threads can bring about, one step of one of them after the other.
pub data Reached (n : ℕ) : System → Type 0 where
  begin : Reached n (start n)
  then_step : {s t : System} (i : ℕ) → Reached n s → i < length s.phases → Step s i t → Reached n t
