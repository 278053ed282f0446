-- ===== src/Sched/Fast.antt =====
-- kernel/src/scheduler.c: the fast queue of each processor, a ring of threads that run first.
pub mod Fifo
mod Tests
use spoon_microkernel.Prelude.{
  ℕ, ◌+◌, ◌%◌, Bool, true, false, not, Option, none, some, List, set, get_or, ltb, ◌==◌,
  if◌then◌else◌, ◌>>=◌, ◌>>◌, assert,
}
use spoon_microkernel.Prelude.Int.{ℤ, pos, minus_one, is_neg, ◌==ℤ◌, increment, decrement}
use spoon_microkernel.Kernel.{Kernel, Thread, SchedulerInfo}
use spoon_microkernel.Sched.{points_to, on_cpu, on_thread, cpu_index, sched_lock, sched_unlock}

-- `MAX_FAST`
abbrev pub max_fast : ℕ
max_fast = 32

-- The two writes that add an entry.
abbrev pub add_fast : ℕ → SchedulerInfo → SchedulerInfo
add_fast tr si = record si {
  fast_queue = set si.fast_queue si.fast_stop (some tr);
  fast_stop = (si.fast_stop + 1) % max_fast;
}

-- `fast_queue`, for the processor `id`.
unfoldable pub queue_fast_on : (id tr : ℕ) → Kernel → Option (ℤ × Kernel)
queue_fast_on id tr k = do
  assert (ltb id k.cpu_count)
  k1 ← sched_lock id false k
  let t = k1.thread tr
  let k2 = on_thread k1 tr (record t { cpu = pos id; fast_queued = increment t.fast_queued })
  let si = add_fast tr (k2.sched id)
  assert (not (si.fast_stop == si.fast_start))
  k3 ← sched_unlock id (on_cpu k2 id si)
  some (pos 0, k3)

unfoldable pub queue_fast : (tr : ℕ) → Kernel → Option (ℤ × Kernel)
unfolding queue_fast_on
queue_fast tr k = cpu_index (k.thread tr).cpu_affinity >>= λ id. queue_fast_on id tr k

abbrev pub drop_fast : SchedulerInfo → SchedulerInfo
drop_fast si = record si { fast_start = (si.fast_start + 1) % max_fast }

-- What `fast_dequeue` does to the thread.
abbrev pub leave_fast : Thread → Thread
leave_fast t =
    let left = decrement t.fast_queued in
    record t { fast_queued = left; cpu = if left ==ℤ pos 0 then minus_one else t.cpu }

-- `fast_dequeue`, for the processor `id`.
unfoldable pub dequeue_fast_on : (id tr : ℕ) → Kernel → Option (ℤ × Kernel)
dequeue_fast_on id tr k = do
  k1 ← sched_lock id false k
  assert ((k1.thread tr).cpu ==ℤ pos k1.cpuid)
  let si = k1.sched id
  assert (points_to tr (get_or si.fast_queue si.fast_start none))
  let k2 = on_cpu k1 id (drop_fast si)
  k3 ← sched_unlock id (on_thread k2 tr (leave_fast (k2.thread tr)))
  some (pos 0, k3)

unfoldable pub dequeue_fast : (tr : ℕ) → Kernel → Option (ℤ × Kernel)
unfolding dequeue_fast_on
dequeue_fast tr k = cpu_index (k.thread tr).cpu >>= λ id. dequeue_fast_on id tr k

-- `get_fast`
unfoldable pub get_fast : SchedulerInfo → Option ℕ
get_fast si =
    if si.fast_start == si.fast_stop then none else get_or si.fast_queue si.fast_start none
