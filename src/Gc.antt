-- ===== src/Gc.antt =====
-- kernel/src/gc.c: the queue of the threads and processes to destroy, of one processor. Interrupts
-- are off in each operation, so no other code of the processor runs in between.
pub mod Fifo
mod Tests
use spoon_microkernel.Prelude.{
  ℕ, zero, suc, ◌+◌, ◌-◌, ◌%◌, Bool, true, false, not, Option, none, some, List, [], ◌∷◌, set,
  get_or, replicate, ltb, ◌==◌, if◌then◌else◌, ◌>>=◌, ◌>>◌, assert,
}
use spoon_microkernel.Prelude.Int.{ℤ, pos, minus_one}

-- `MAX_GC`
abbrev pub max_gc : ℕ
max_gc = 32

-- `struct gc_info`
pub record GcInfo : Type 0 where
  pub pid : ℤ
  pub tid : ℤ

-- An element of `qdata`. Neither number is ever negative.
pub record GcQueue : Type 0 where
  pub info : List GcInfo
  pub place : ℕ
  pub size : ℕ

abbrev pub no_info : GcInfo
no_info = record { pid = pos 0; tid = pos 0 }

-- `load_gc`
abbrev pub load_gc : GcQueue → GcQueue
load_gc q = record q { place = 0; size = 0 }

-- `gc_queue`
unfoldable pub gc_queue : GcInfo → GcQueue → ℤ × GcQueue
gc_queue o q =
    if q.size == max_gc
    then (minus_one, q)
    else (pos 0, record q { info = set q.info ((q.place + q.size) % max_gc) o; size = q.size + 1 })

-- `gc_has_work`
unfoldable pub gc_has_work : GcQueue → ℤ
gc_has_work q = if q.size == 0 then minus_one else pos 0

-- `gc_peek`: the entry it copies out.
unfoldable pub gc_peek : GcQueue → Option GcInfo
gc_peek q = if q.size == 0 then none else some (get_or q.info q.place no_info)

-- `gc_next`
unfoldable pub gc_next : GcQueue → Option GcQueue
gc_next q = do
  assert (ltb 0 q.size)
  some (record q { place = (q.place + 1) % max_gc; size = q.size - 1 })
