-- ===== src/Sched/Locked.antt =====
-- A change of one processor's scheduler under its lock.
use spoon_microkernel.Prelude.{ℕ, ◌<◌, ◌≡◌, Bool, false, ◌&&◌, Option, some, arith, ◌==◌, Returns}
use spoon_microkernel.Prelude.Int.{ℤ}
use spoon_microkernel.Kernel.{Kernel, SchedulerInfo}
use spoon_microkernel.Sched.{on_locked, on_cpu, sched_lock, sched_unlock}

-- One processor's scheduler is changed to `si'`, and no other part of the kernel.
pub record OnlyCpu (id : ℕ) (si' : SchedulerInfo) (k k' : Kernel) : Type 0 where
  pub here : k'.sched id ≡ si'
  pub elsewhere : (j : ℕ) → (id == j) ≡ false → k'.sched j ≡ k.sched j
  pub same_proc : k'.proc ≡ k.proc
  pub same_thread : k'.thread ≡ k.thread
  pub same_usage : k'.usage ≡ k.usage
  pub same_cpus : (k'.cpu_count ≡ k.cpu_count) × (k'.cpuid ≡ k.cpuid)

-- A scheduler that is locked and awake.
abbrev pub locked : SchedulerInfo → SchedulerInfo
locked si = record si { idle = 0; nested_lock = 1 }

-- Whether a processor can be locked: it exists, its lock is free, and the caller does not wait for
-- itself.
pub record CanLock (id : ℕ) (complete : Bool) (k : Kernel) : Type 0 where
  pub exists : id < k.cpu_count
  pub free : (k.sched id).nested_lock ≡ 0
  pub other : (k.cpuid == id && complete) ≡ false

module _ {id : ℕ} {complete : Bool} {k : Kernel} (can : CanLock id complete k)
    (body : SchedulerInfo → Option (ℤ × SchedulerInfo)) (rc : ℤ) (si : SchedulerInfo)
    (changes : body (locked (k.sched id)) ≡ some (rc, si)) (kept : si.nested_lock ≡ 1) where
  pub on_locked_lem :
      Returns
        (on_locked id complete body k)
        (λ r. (r.0 ≡ rc) × OnlyCpu id (record si { nested_lock = 0 }) k r.1)
  unfolding on_locked
  on_locked_lem = ground arith

-- A free lock of a processor that exists is taken.
pub locks :
    (id : ℕ) (k : Kernel)
    → id < k.cpu_count
    → (k.sched id).nested_lock ≡ 0
    → sched_lock id false k ≡ some (on_cpu k id (record (k.sched id) { idle = 0; nested_lock = 1 }))
unfolding sched_lock
locks id k exists free = ground arith

-- A lock that is held is given up.
pub unlocks :
    (id : ℕ) (k : Kernel)
    → id < k.cpu_count
    → (k.sched id).nested_lock ≡ 1
    → sched_unlock id k ≡ some (on_cpu k id (record (k.sched id) { nested_lock = 0 }))
unfolding sched_unlock
unlocks id k exists taken = ground arith
