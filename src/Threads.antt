-- ===== src/Threads.antt =====
-- kernel/src/threads.c: finding a thread of a process, and changing a thread's state.
pub mod Frame
pub mod Wake
pub mod Tree
use spoon_microkernel.Prelude.{
  ℕ, ◌*◌, ◌-◌, ◌%◌, ◌^◌, ltb, Bool, true, false, ◌&&◌, not, Option, none, some, List, [], ◌∷◌, ◌==◌,
  if◌then◌else◌, ◌>>=◌, ◌>>◌, assert,
}
use spoon_microkernel.Prelude.Int.{ℤ, pos, negsuc, minus_one, ◌==ℤ◌}
use spoon_microkernel.Kernel.{Kernel, Thread, ThreadState, running, dormant, same_state}
use spoon_microkernel.Htable.{magnitude, retrieve}
use spoon_microkernel.Sched.{points_to, on_cpu, on_thread, queue, dequeue, restart}

-- `threads_key`, whose product wraps. The `int` -2 ^ 31 is its own negation, and stands as its word,
-- 2 ^ 31.
abbrev pub threads_key : ℤ → ℤ
threads_key tid =
    let ans = magnitude tid * 100 % 2 ^ 32 in pos (if ltb ans (2 ^ 31) then ans else 2 ^ 32 - ans)

abbrev pub is_empty : List ℕ → Bool
is_empty [] = true
is_empty (_ ∷ _) = false

-- Whether `threads_compare` says 0 of a thread and a sample with this number and no name.
abbrev pub threads_match : ℤ → Thread → Bool
threads_match tid t = if tid ==ℤ minus_one then is_empty t.name else t.tid ==ℤ tid

-- `get_thread`; the inner `none` is its NULL.
unfoldable pub get_thread : (proc : ℕ) (tid : ℤ) → Kernel → Option (Option ℕ)
get_thread proc tid k =
    retrieve (λ tr. threads_match tid (k.thread tr)) (threads_key tid) (k.proc proc).threads_htable

-- The end of `set_thread_state`, for a thread that is neither the current one nor paused.
unfoldable pub move_thread : (tr : ℕ) (state : ThreadState) → Kernel → Option Kernel
move_thread tr state k = do
  k1 ←
      if same_state (k.thread tr).state running
      then (do (_, k') ← dequeue tr k; some k')
      else some k
  let k2 = on_thread k1 tr (record (k1.thread tr) { state = state })
  if same_state state running then (do (_, k') ← queue tr k2; some k') else some k2

-- `set_thread_state`
unfoldable pub set_thread_state : (tr : ℕ) (state : ThreadState) → Kernel → Option Kernel
unfolding move_thread
set_thread_state tr state k =
    let t = k.thread tr in
    let si = k.sched k.cpuid in
    if same_state t.state state
    then some k
    else if points_to tr si.current_thread
    then (do
      assert (same_state t.state running)
      some (
          on_cpu k k.cpuid
            (record si { requesting_thread = some tr; requesting_state = some state })))
    else if same_state t.state dormant && not (t.duration == 0)
    then (do assert (same_state state running); (_, k') ← restart tr k; some k')
    else move_thread tr state k
