-- ===== src/Timers.antt =====
-- kernel/src/scheduler.c: the pause queue, where threads wait for a time to come.
pub mod Order
pub mod Release
pub mod Partition
pub mod Pausing
mod Tests
use spoon_microkernel.Prelude.{
  ℕ, zero, suc, ◌+◌, ◌-◌, ◌*◌, ◌%◌, ◌^◌, Bool, true, false, not, Option, none, some, List, [], ◌∷◌,
  set, get_or, get_elem?, ltb, leb, ◌==◌, if◌then◌else◌, find_pos, open_gap, copy, ◌>>=◌, ◌>>◌,
  assert,
}
use spoon_microkernel.Prelude.Int.{ℤ, pos, minus_one, ◌==ℤ◌}
use spoon_microkernel.Kernel.{Kernel, Thread, ThreadState, dormant, Paused, SchedulerInfo}
use spoon_microkernel.Sched.{on_cpu, on_thread, no_thread, sched_lock, sched_unlock, append_entry}
use spoon_microkernel.Threads.{set_thread_state}

-- The loop of `pause` that looks for the place of an entry.
abbrev pub place_for : (target : ℕ) → SchedulerInfo → ℕ
place_for target si = find_pos (λ p. ltb target p.request) si.pause_count si.pause_queue

-- "Insert the pause": the entries from its place on move up, and their number grows.
unfoldable pub insert_pause : Paused → SchedulerInfo → SchedulerInfo
insert_pause entry si =
    let place = place_for entry.request si in
    record si {
      pause_queue = set (open_gap place si.pause_count si.pause_queue) place entry;
      pause_count = si.pause_count + 1;
    }

-- The end of `pause`, under the lock of the processor `id`.
unfoldable pub pause_locked : (id tr milliseconds : ℕ) → Kernel → Option (ℤ × Kernel)
unfolding insert_pause
pause_locked id tr milliseconds k =
    let si = k.sched id in
    let now = k.usage id in
    let entry : Paused = record {
      tr = some tr;
      state = (k.thread tr).state;
      request = (milliseconds + now) % 2 ^ 64;
      start = now;
    } in
    if si.pause_count == si.pause_size
    then (do k' ← sched_unlock id k; some (minus_one, k'))
    else (do
      k1 ← set_thread_state tr dormant (on_cpu k id (insert_pause entry si))
      k2 ← sched_unlock id (on_thread k1 tr (record (k1.thread tr) { duration = milliseconds }))
      some (pos 0, k2))

-- `pause`
unfoldable pub pause : (tr milliseconds : ℕ) → Kernel → Option (ℤ × Kernel)
unfolding pause_locked
pause tr milliseconds k = do
  assert (ltb 0 milliseconds)
  assert ((k.thread tr).cpu ==ℤ pos k.cpuid)
  k1 ← sched_lock k.cpuid false k
  pause_locked k.cpuid tr milliseconds k1

-- What the loop of `remove_timers` does to the thread of an entry.
abbrev pub woken : (id time : ℕ) → Paused → Thread → Thread
woken id time entry t = record t {
  state = entry.state;
  duration = (time + 2 ^ 64 - entry.start) % 2 ^ 64;
  cpu = pos id;
}

-- A round of the loop, with the entry it wakes and the number of entries that are left.
unfoldable pub wake_entry : (id time : ℕ) → Paused → (left : ℕ) → Kernel → Option Kernel
wake_entry id time entry left k = do
  tr ← entry.tr
  let si = k.sched id
  assert (not (si.sched_count == si.sched_size))
  some (
      on_cpu (on_thread k tr (woken id time entry (k.thread tr))) id
        (record (append_entry tr si) { pause_count = left }))

-- The loop, with `left` entries in the pause queue: how many it wakes, from `count` on.
unfoldable pub wake_due : (id time left count : ℕ) → Kernel → Option (ℕ × Kernel)
wake_due id time zero count k = some (count, k)
wake_due id time (suc left) count k =
    let entry = get_or (k.sched id).pause_queue count no_thread in
    let rest = (do k' ← wake_entry id time entry left k; wake_due id time left (count + 1) k') in
    if leb entry.request time then rest else some (count, k)

-- `for (...) pause_queue[ i ] = pause_queue[ i + count ];`, from `i` on.
unfoldable pub move_down : (count rounds i : ℕ) → List Paused → List Paused
move_down count zero i q = q
move_down count (suc rounds) i q = move_down count rounds (suc i) (copy i (i + count) q)

-- `remove_timers`: the time until the next entry is due, or 0 if there is none.
unfoldable pub remove_timers : (id time : ℕ) → Kernel → Option (ℕ × Kernel)
unfolding wake_due move_down
remove_timers id time k =
    let some_wait = (do
      (count, k1) ← wake_due id time (k.sched id).pause_count 0 k
      let si = k1.sched id
      let queue = move_down count si.pause_count 0 si.pause_queue
      some (
        if si.pause_count == 0 then 0 else (get_or queue 0 no_thread).request - time,
        on_cpu k1 id (record si { pause_queue = queue }),
      )) in
    if (k.sched id).pause_count == 0 then some (0, k) else some_wait
