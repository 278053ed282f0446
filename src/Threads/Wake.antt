-- ===== src/Threads/Wake.antt =====
-- A dormant thread that is made to run.
use spoon_microkernel.Prelude.{
  ℕ, ◌≡◌, refl, ap, ◌∙◌, true, false, some, [], ◌∷◌, ◌++◌, ◌==◌, if◌then◌else◌, update_self, ◌>>=◌,
  Returns, Returns-bind,
}
use spoon_microkernel.Prelude.Int.{ℤ, pos, minus_one, is_neg}
use spoon_microkernel.Kernel.{Kernel, Thread, running, dormant}
use spoon_microkernel.Sched.{points_to, on_thread, home_cpu, queue, sub_queue}
use spoon_microkernel.Sched.Locked.{CanLock}
use spoon_microkernel.Sched.RunQueue.{entries, IsQueue, Outcome, is_full, sub_queue_lem}
use spoon_microkernel.Threads.{set_thread_state, move_thread}

-- A thread that sleeps, is neither paused nor on a processor, and whose home can be locked.
pub record CanWake (tr id : ℕ) (k : Kernel) : Type 0 where
  pub other : points_to tr (k.sched k.cpuid).current_thread ≡ false
  pub sleeps : (k.thread tr).state ≡ dormant
  pub unpaused : (k.thread tr).duration ≡ 0
  pub nowhere : is_neg (k.thread tr).cpu ≡ true
  pub home : home_cpu (k.thread tr) k.cpu_count ≡ pos id
  pub valid : IsQueue (k.sched id)
  pub lock : CanLock id false k

-- The thread after it was queued.
abbrev pub queued : Thread → ℕ → Thread
queued t id = record t { state = running; cpu = pos id }

-- A thread placed on processor `id`: it runs, and is the last of the entries there.
pub record Placed (tr id : ℕ) (k k' : Kernel) : Type 0 where
  pub runs : k'.thread tr ≡ queued (k.thread tr) id
  pub last : entries (k'.sched id) ≡ (
      if is_full (k.sched id) then entries (k.sched id) else entries (k.sched id) ++ (some tr ∷ []))
  pub valid : IsQueue (k'.sched id)
  pub free : (k'.sched id).nested_lock ≡ 0
  pub elsewhere : (j : ℕ) → (id == j) ≡ false → k'.sched j ≡ k.sched j
  pub same_proc : k'.proc ≡ k.proc

module _ {tr id : ℕ} {k : Kernel} (can : CanWake tr id k) where
  open can use {other, sleeps, unpaused, nowhere, home, valid, lock}

  -- The kernel in which `queue` calls `sub_queue`.
  moved : Kernel
  moved = on_thread k tr (record (k.thread tr) { state = running })

  placed : Kernel
  placed = on_thread moved tr (record (moved.thread tr) { cpu = pos id })

  here : moved.thread tr ≡ record (k.thread tr) { state = running }
  unfolding moved
  here = update_self k.thread tr _

  queue_reaches : queue tr moved ≡ sub_queue id tr placed
  unfolding queue placed moved
  queue_reaches =
      rw (ap (λ t. t.cpu) here, queue)
        (rw (nowhere, queue)
          (rw (ap (λ t. home_cpu t k.cpu_count) here, queue) (rw (home, queue) refl)))

  state_reaches : set_thread_state tr running k ≡ (queue tr moved >>= λ r. some r.1)
  unfolding move_thread moved set_thread_state queue
  state_reaches =
      rw (sleeps, set_thread_state)
        (rw (other, set_thread_state)
          (rw (unpaused, set_thread_state) (rw (sleeps, move_thread) refl)))

  there : placed.thread tr ≡ queued (k.thread tr) id
  unfolding placed
  there = update_self moved.thread tr _ ∙ ap {A = Thread} (λ t. record t { cpu = pos id }) here

  can_lock : CanLock id false placed
  unfolding placed moved
  can_lock = record { exists = lock.exists; free = lock.free; other = lock.other }

  outcome :
      (r : ℤ × Kernel)
      → Outcome id
          (if is_full (k.sched id) then minus_one else pos 0)
          (if is_full (k.sched id)
            then entries (k.sched id)
            else entries (k.sched id) ++ (some tr ∷ []))
          placed
          r
      → Placed tr id k r.1
  unfolding placed moved
  outcome r o = record {
    runs = ap (λ f. f tr) o.same_thread ∙ there;
    last = o.queue;
    valid = o.valid;
    free = o.free;
    elsewhere = o.elsewhere;
    same_proc = o.same_proc;
  }

  sub_queue-placed : Returns (sub_queue id tr placed >>= λ r. some r.1) (Placed tr id k)
  unfolding placed moved
  sub_queue-placed =
      Returns-bind (sub_queue id tr placed) (λ r. some r.1) _ (Placed tr id k) outcome
        (sub_queue_lem id tr {k = placed} valid can_lock)

  -- A thread that sleeps and has no pause to end runs after `set_thread_state`, and waits as the
  -- last of the run queue of its home, unless that queue is full: then it is in no queue at all.
  pub set_thread_state_wakes : Returns (set_thread_state tr running k) (Placed tr id k)
  set_thread_state_wakes = rw (state_reaches, queue_reaches) sub_queue-placed
