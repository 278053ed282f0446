-- ===== src/Sched.antt =====
-- kernel/src/scheduler.c: the run queue, the pause queue and the fast queue of each processor.
-- A spinlock that is held is never given up while the holder runs, so taking it again does not
-- return; what a processor does while another waits for it (`running`, the wake-up interrupt) is
-- not part of the state.
pub mod Locked
pub mod RunQueue
pub mod Switch
pub mod Turns
pub mod Fast
mod Tests
use spoon_microkernel.Prelude.{
  ℕ, zero, suc, ◌+◌, ◌-◌, ◌%◌, Bool, true, false, ◌&&◌, ◌||◌, not, Option, none, some, List, length,
  set, get_or, drop, leb, ltb, ◌==◌, if◌then◌else◌, add32, sub32, update, find_pos, close_gap,
  open_gap, ◌>>=◌, ◌>>◌, assert,
}
use spoon_microkernel.Prelude.Int.{ℤ, pos, negsuc, minus_one, is_neg, ◌==ℤ◌, increment, decrement}
use spoon_microkernel.Kernel.{Kernel, Thread, ThreadState, Paused, SchedulerInfo}

-- Whether a queue's entry is the thread at an address.
abbrev pub points_to : ℕ → Option ℕ → Bool
points_to tr none = false
points_to tr (some p) = p == tr

abbrev pub no_thread : Paused
no_thread = record { tr = none; state = ThreadState.system; request = 0; start = 0 }

abbrev pub on_cpu : Kernel → ℕ → SchedulerInfo → Kernel
on_cpu k id si = record k { sched = update k.sched id si }

abbrev pub on_thread : Kernel → ℕ → Thread → Kernel
on_thread k tr t = record k { thread = update k.thread tr t }

-- `sched_lock`
unfoldable pub sched_lock : (id : ℕ) (complete : Bool) → Kernel → Option Kernel
sched_lock id complete k = do
  assert (ltb id k.cpu_count)
  assert (not (k.cpuid == id && complete))
  let si = k.sched id
  assert (si.nested_lock == 0)
  some (on_cpu k id (record si { idle = 0; nested_lock = 1 }))

-- `sched_unlock`
unfoldable pub sched_unlock : (id : ℕ) → Kernel → Option Kernel
sched_unlock id k = do
  let si = k.sched id
  assert (ltb id k.cpu_count)
  assert (si.nested_lock == 1)
  some (on_cpu k id (record si { nested_lock = 0 }))

-- The shape of what follows: a scheduler is changed between its lock and its unlock, and a result
-- is returned; each `return` of the source is behind an unlock.
unfoldable pub on_locked :
    (id : ℕ) (complete : Bool) (body : SchedulerInfo → Option (ℤ × SchedulerInfo))
    → Kernel
    → Option (ℤ × Kernel)
unfolding sched_lock sched_unlock
on_locked id complete body k = do
  k1 ← sched_lock id complete k
  (rc, si) ← body (k1.sched id)
  k2 ← sched_unlock id (on_cpu k1 id si)
  some (rc, k2)

-- The write of `sub_queue`, and of `remove_timers` at its "Add it back in".
abbrev pub append_entry : ℕ → SchedulerInfo → SchedulerInfo
append_entry tr si = record si {
  sched_queue = set si.sched_queue si.sched_count (some tr);
  sched_count = add32 si.sched_count 1;
}

-- `sub_queue`
abbrev pub queue_body : ℕ → SchedulerInfo → Option (ℤ × SchedulerInfo)
queue_body tr si =
    if si.sched_count == si.sched_size
    then some (minus_one, si)
    else some (pos 0, append_entry tr si)

unfoldable pub sub_queue : (id tr : ℕ) → Kernel → Option (ℤ × Kernel)
sub_queue id tr k = on_locked id false (queue_body tr) k

-- The part that `sub_dequeue` and `remove_last` share: close the gap and keep track.
unfoldable pub remove_entry : (place : ℕ) → SchedulerInfo → SchedulerInfo
remove_entry place si =
    let count = sub32 si.sched_count 1 in
    record si {
      sched_queue = close_gap place si.sched_count si.sched_queue;
      sched_count = count;
      position = if count == 0 then 0 else sub32 si.position 1 % count;
    }

abbrev pub find_thread : ℕ → SchedulerInfo → ℕ
find_thread tr si = find_pos (points_to tr) si.sched_count si.sched_queue

-- `sub_dequeue`
abbrev pub dequeue_body : ℕ → SchedulerInfo → Option (ℤ × SchedulerInfo)
dequeue_body tr si =
    if find_thread tr si == si.sched_count
    then none
    else some (pos 0, remove_entry (find_thread tr si) si)

unfoldable pub sub_dequeue : (id tr : ℕ) → Kernel → Option (ℤ × Kernel)
sub_dequeue id tr k = do
  assert (not (points_to tr (k.sched k.cpuid).current_thread))
  on_locked id (not (id == k.cpuid)) (dequeue_body tr) k

-- The remainder of C, which takes the sign of the dividend: of -(m) by `c`.
abbrev negative_remainder : ℕ → ℕ → ℤ
negative_remainder m c = if m % c == 0 then pos 0 else negsuc (m % c - 1)

-- `( tr->tid - 1 ) % cpu_count`
abbrev pub tid_home : ℤ → ℕ → ℤ
tid_home (pos zero) c = negative_remainder 1 c
tid_home (pos (suc n)) c = pos (n % c)
tid_home (negsuc n) c = negative_remainder (n + 2) c

-- The processor that `queue` and `restart` choose.
abbrev pub home_cpu : Thread → ℕ → ℤ
home_cpu t c = if is_neg t.cpu_affinity then tid_home t.tid c else t.cpu_affinity

-- An index into `cpu[]`; a negative one fails the assertion of `sched_lock`.
abbrev pub cpu_index : ℤ → Option ℕ
cpu_index (pos id) = some id
cpu_index (negsuc _) = none

-- `queue`
unfoldable pub queue : (tr : ℕ) → Kernel → Option (ℤ × Kernel)
unfolding sub_queue
queue tr k = do
  let t = k.thread tr
  let home = home_cpu t k.cpu_count
  assert (is_neg t.cpu)
  id ← cpu_index home
  sub_queue id tr (on_thread k tr (record t { cpu = home }))

-- `dequeue`
unfoldable pub dequeue : (tr : ℕ) → Kernel → Option (ℤ × Kernel)
unfolding sub_dequeue
dequeue tr k = do
  id ← cpu_index (k.thread tr).cpu
  (ans, k1) ← sub_dequeue id tr k
  some (ans, on_thread k1 tr (record (k1.thread tr) { cpu = minus_one }))

abbrev pub paused_at : ℕ → SchedulerInfo → ℕ
paused_at tr si = find_pos (λ p. points_to tr p.tr) si.pause_count si.pause_queue

-- The change that `restart` makes to the pause queue, with the entry found at `place`.
unfoldable pub to_front : (place : ℕ) → SchedulerInfo → SchedulerInfo
to_front zero si = record si {
  pause_queue = set si.pause_queue 0 (record (get_or si.pause_queue 0 no_thread) { request = 0 });
}
to_front (suc place) si =
    let ps = get_or si.pause_queue (suc place) no_thread in
    record si {
      pause_queue = set (open_gap 0 (suc place) si.pause_queue) 0 (record ps { request = 0 });
    }

-- `restart`. Both branches for the place found write the entry's `request` and return 0; a thread
-- that is not paused fails the assertion.
abbrev pub restart_body : ℕ → SchedulerInfo → Option (ℤ × SchedulerInfo)
restart_body tr si =
    if paused_at tr si == si.pause_count then none else some (pos 0, to_front (paused_at tr si) si)

unfoldable pub restart : (tr : ℕ) → Kernel → Option (ℤ × Kernel)
restart tr k = do
  id ← cpu_index (home_cpu (k.thread tr) k.cpu_count)
  on_locked id (not (id == k.cpuid)) (restart_body tr) k
