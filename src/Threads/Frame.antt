-- ===== src/Threads/Frame.antt =====
-- A change of a thread's state leaves the processes, and so all ports, alone, and no thread's ports,
-- number, hints or process change.
use spoon_microkernel.Prelude.{
  ℕ, ◌≡◌, refl, ◌∙◌, Bool, false, not, Option, List, ◌==◌, ◌&&◌, ltb, arith, After, After-bind,
  After-guard, After-map, After-any, After-if, goes,
}
use spoon_microkernel.Prelude.Int.{ℤ, is_neg}
use spoon_microkernel.Kernel.{
  Kernel, Thread, ThreadState, SchedulerInfo, running, dormant, same_state,
}
use spoon_microkernel.Sched.{
  on_cpu, on_thread, points_to, sched_lock, sched_unlock, on_locked, sub_queue, sub_dequeue,
  queue_body, dequeue_body, restart_body, queue, dequeue, restart, cpu_index, home_cpu,
}
use spoon_microkernel.Threads.{set_thread_state, move_thread}

-- The fields that the ports of a thread depend on.
abbrev pub mail : Thread → List ℤ × ℤ × ℤ × ℤ × ℕ
mail t = (t.ports, t.last_port_pulse, t.last_port_message, t.tid, t.process)

pub record SameMail (k k' : Kernel) : Type 0 where
  pub procs : k'.proc ≡ k.proc
  pub threads : (p : ℕ) → mail (k'.thread p) ≡ mail (k.thread p)
  pub cpus : (k'.cpuid ≡ k.cpuid) × (k'.cpu_count ≡ k.cpu_count)

pub SameMail-trans : {k k' k'' : Kernel} → SameMail k k' → SameMail k' k'' → SameMail k k''
SameMail-trans a b = record {
  procs = b.procs ∙ a.procs;
  threads = λ p. b.threads p ∙ a.threads p;
  cpus = (b.cpus.0 ∙ a.cpus.0, b.cpus.1 ∙ a.cpus.1);
}

pub SameMail-refl : (k : Kernel) → SameMail k k
SameMail-refl k = record { procs = refl; threads = λ p. refl; cpus = (refl, refl) }

abbrev Frame : {A : Type 0} → Kernel → Option (A × Kernel) → Type 0
Frame k o = After (λ r. SameMail k r.1) o

on_cpu-SameMail : (k : Kernel) (id : ℕ) (si : SchedulerInfo) → SameMail k (on_cpu k id si)
on_cpu-SameMail k id si = record { procs = refl; threads = λ p. refl; cpus = (refl, refl) }

pub on_thread-SameMail :
    (k : Kernel) (tr : ℕ) (t : Thread) → mail t ≡ mail (k.thread tr) → SameMail k (on_thread k tr t)
on_thread-SameMail k tr t e = record {
  procs = refl;
  threads = λ p. ground arith;
  cpus = (refl, refl);
}

sched_lock-SameMail :
    (id : ℕ) (complete : Bool) (k : Kernel) → After (SameMail k) (sched_lock id complete k)
unfolding sched_lock
sched_lock-SameMail id complete k = After-guard (ltb id k.cpu_count) (
    After-guard (not (k.cpuid == id && complete))
      (After-guard ((k.sched id).nested_lock == 0) (goes (on_cpu-SameMail k id _))))

sched_unlock-SameMail : (id : ℕ) (k : Kernel) → After (SameMail k) (sched_unlock id k)
unfolding sched_unlock
sched_unlock-SameMail id k =
    After-guard (ltb id k.cpu_count)
      (After-guard ((k.sched id).nested_lock == 1) (goes (on_cpu-SameMail k id _)))

on_locked-SameMail :
    (id : ℕ) (complete : Bool) (body : SchedulerInfo → Option (ℤ × SchedulerInfo)) (k : Kernel)
    → Frame k (on_locked id complete body k)
unfolding on_locked
on_locked-SameMail id complete body k = After-bind (sched_lock-SameMail id complete k) λ k1 s1.
    After-bind (After-any (body (k1.sched id))) λ r u.
      After-bind (sched_unlock-SameMail id (on_cpu k1 id r.1))
        λ k2 s2. goes (SameMail-trans s1 (SameMail-trans (on_cpu-SameMail k1 id r.1) s2))

queue-SameMail : (tr : ℕ) (k : Kernel) → Frame k (queue tr k)
unfolding queue sub_queue
queue-SameMail tr k =
    let home = home_cpu (k.thread tr) k.cpu_count in
    let k1 = on_thread k tr (record (k.thread tr) { cpu = home }) in
    After-guard (is_neg (k.thread tr).cpu) (
      After-bind (After-any (cpu_index home)) λ id u.
        After-map (λ r s. SameMail-trans (on_thread-SameMail k tr _ refl) s)
          (on_locked-SameMail id false (queue_body tr) k1))

dequeue-SameMail : (tr : ℕ) (k : Kernel) → Frame k (dequeue tr k)
unfolding dequeue sub_dequeue
dequeue-SameMail tr k = After-bind (After-any (cpu_index (k.thread tr).cpu)) λ id u.
    After-bind
      (After-guard (not (points_to tr (k.sched k.cpuid).current_thread))
        (on_locked-SameMail id (not (id == k.cpuid)) (dequeue_body tr) k))
      λ r s. goes (SameMail-trans s (on_thread-SameMail r.1 tr _ refl))

restart-SameMail : (tr : ℕ) (k : Kernel) → Frame k (restart tr k)
unfolding restart
restart-SameMail tr k =
    After-bind (After-any (cpu_index (home_cpu (k.thread tr) k.cpu_count)))
      λ id u. on_locked-SameMail id (not (id == k.cpuid)) (restart_body tr) k

move_thread-SameMail :
    (tr : ℕ) (state : ThreadState) (k : Kernel) → After (SameMail k) (move_thread tr state k)
unfolding move_thread
move_thread-SameMail tr state k =
    After-bind
      (After-if (same_state (k.thread tr).state running)
        (After-bind (dequeue-SameMail tr k) λ r s. goes s) (goes (SameMail-refl k)))
      λ k1 s1.
        let moved : Thread = record (k1.thread tr) { state = state } in
        let k2 = on_thread k1 tr moved in
        let s2 : SameMail k k2 = SameMail-trans s1 (on_thread-SameMail k1 tr moved refl) in
        After-if (same_state state running)
          (After-bind (queue-SameMail tr k2) λ r s. goes (SameMail-trans s2 s)) (goes s2)

-- Whatever `set_thread_state` does, if it returns, the processes with their ports are as before, and
-- so are the ports, the hints, the number and the process of every thread.
pub set_thread_state-SameMail :
    (tr : ℕ) (state : ThreadState) (k : Kernel) → After (SameMail k) (set_thread_state tr state k)
unfolding set_thread_state
set_thread_state-SameMail tr state k =
    let t = k.thread tr in
    let si = k.sched k.cpuid in
    After-if (same_state t.state state) (goes (SameMail-refl k)) (
      After-if (points_to tr si.current_thread)
        (After-guard (same_state t.state running) (goes (on_cpu-SameMail k k.cpuid _)))
        (After-if (same_state t.state dormant && not (t.duration == 0))
          (After-guard (same_state state running)
            (After-bind (restart-SameMail tr k) λ r s. goes s))
          (move_thread-SameMail tr state k)))
