-- ===== src/Sched/Fast/Fifo.antt =====
-- The fast queue is a first-in first-out queue of at most 31 threads.
use native.Mathlib.Nat.{mod-lt}
use native.Mathlib.Decide.{ℕ_discrete}
use spoon_microkernel.Prelude.{
  ℕ, suc, ◌+◌, ◌-◌, ◌%◌, ◌<◌, ◌≡◌, refl, ap, sym, ◌∙◌, true, false, Option, none, some, List, [],
  ◌∷◌, ◌++◌, length, length-set, set, get_or, ltb, ◌==◌, update, update_self, arith, Returns, ◌>>=◌,
}
use spoon_microkernel.Prelude.Int.{ℤ, pos, increment, ◌==ℤ◌}
use mathlib.Core.Path.{subst}
use spoon_microkernel.Kernel.{Kernel, Thread, SchedulerInfo}
use spoon_microkernel.Ring.{ring, ring-set, ring-mod, length-ring}
use spoon_microkernel.Sched.{points_to, on_cpu, on_thread, cpu_index}
use spoon_microkernel.Sched.Locked.{locks, unlocks}
use spoon_microkernel.Sched.Fast.{
  max_fast, add_fast, queue_fast_on, queue_fast, drop_fast, leave_fast, dequeue_fast_on,
  dequeue_fast, get_fast,
}

-- The number of threads in the queue.
abbrev pub fast_count : SchedulerInfo → ℕ
fast_count si = (si.fast_stop + max_fast - si.fast_start) % max_fast

-- The threads in the queue, the first in front.
abbrev pub fast : SchedulerInfo → List (Option ℕ)
fast si = ring none si.fast_queue si.fast_start (fast_count si)

pub record IsFast (si : SchedulerInfo) : Type 0 where
  pub sized : length si.fast_queue ≡ max_fast
  pub start : si.fast_start < max_fast
  pub stop : si.fast_stop < max_fast

head_eq : {a b : Option ℕ} {l r : List (Option ℕ)} → (a ∷ l) ≡ (b ∷ r) → a ≡ b
head_eq e = cc

tail_eq : {a b : Option ℕ} {l r : List (Option ℕ)} → (a ∷ l) ≡ (b ∷ r) → l ≡ r
tail_eq e = cc

module _ {si : SchedulerInfo} (v : IsFast si) where
  -- An entry behind the others.
  fast-add_fast :
      (tr : ℕ)
      → length (fast si) < max_fast - 1
      → (fast (add_fast tr si) ≡ fast si ++ (some tr ∷ []))
        × IsFast (add_fast tr si)
        × (((si.fast_stop + 1) % max_fast == si.fast_start) ≡ false)
  fast-add_fast tr room =
      let count : fast_count si < max_fast - 1 =
        omega (arith, length-ring none si.fast_queue si.fast_start (fast_count si)) in
      let more : ((si.fast_stop + 1) % max_fast + max_fast - si.fast_start) % max_fast
          ≡ suc (fast_count si) =
        omega (arith, v.start, v.stop) in
      let last : si.fast_stop ≡ (si.fast_start + fast_count si) % max_fast =
        omega (arith, v.start, v.stop) in
      (
        ap (ring none (set si.fast_queue si.fast_stop (some tr)) si.fast_start) more
            ∙ ap
                (λ (i : ℕ).
                  ring none (set si.fast_queue i (some tr)) si.fast_start (suc (fast_count si)))
                last
            ∙ ring-set none si.fast_queue si.fast_start (fast_count si) (some tr) v.sized
                (omega arith),
        record {
          sized = length-set si.fast_queue si.fast_stop (some tr) ∙ v.sized;
          start = v.start;
          stop = mod-lt (si.fast_stop + 1) (omega arith);
        },
        ground (arith, v.start, v.stop),
      )

  -- The first entry.
  fast-drop_fast :
      (tr : Option ℕ) (l : List (Option ℕ))
      → fast si ≡ tr ∷ l
      → (get_or si.fast_queue si.fast_start none ≡ tr)
        × (fast (drop_fast si) ≡ l)
        × IsFast (drop_fast si)
  unfolding ring
  fast-drop_fast tr l e =
      split (fast_count si - 1)
        (omega (arith, ap length e, length-ring none si.fast_queue si.fast_start (fast_count si)))
    where
      split :
          (n : ℕ)
          → fast_count si ≡ suc n
          → (get_or si.fast_queue si.fast_start none ≡ tr)
            × (fast (drop_fast si) ≡ l)
            × IsFast (drop_fast si)
      split n some_left =
          let e' : ring none si.fast_queue si.fast_start (suc n) ≡ tr ∷ l =
            ap (ring none si.fast_queue si.fast_start) (sym some_left) ∙ e in
          let first : si.fast_start ≡ si.fast_start % max_fast = omega (arith, v.start) in
          let fewer : (si.fast_stop + max_fast - (si.fast_start + 1) % max_fast) % max_fast ≡ n =
            omega (arith, v.start, v.stop) in
          (
            ap (λ (i : ℕ). get_or si.fast_queue i none) first ∙ head_eq e',
            ap (ring none si.fast_queue ((si.fast_start + 1) % max_fast)) fewer
                ∙ ring-mod none si.fast_queue (si.fast_start + 1) n
                ∙ tail_eq e',
            record {
              sized = v.sized;
              start = mod-lt (si.fast_start + 1) (omega arith);
              stop = v.stop;
            },
          )

  -- `get_fast` returns the first thread in the queue, and NULL if there is none.
  pub get_fast_lem : get_fast si ≡ get_or (fast si) 0 none
  unfolding get_fast ring
  get_fast_lem = elim (ℕ_discrete si.fast_start si.fast_stop) [
    | yes same ↦
        let stop : (si.fast_start == si.fast_stop) ≡ true = ground arith in
        let none_left : fast_count si ≡ 0 = omega (arith, same, v.start) in
        rw (stop, get_fast) (rw none_left refl)
    | no other ↦
        let goes : (si.fast_start == si.fast_stop) ≡ false = ground arith in
        let some_left : fast_count si ≡ suc (fast_count si - 1) = omega (arith, v.start, v.stop) in
        let first : si.fast_start ≡ si.fast_start % max_fast = omega (arith, v.start) in
        rw (goes, get_fast)
          (ap (λ (i : ℕ). get_or si.fast_queue i none) first
            ∙ sym
                (ap (λ (c : ℕ). get_or (ring none si.fast_queue si.fast_start c) 0 none) some_left))
  ]

-- What a queue of a processor is afterwards, with the lock free.
pub record Fast (id : ℕ) (after : List (Option ℕ)) (r : ℤ × Kernel) : Type 0 where
  pub result : r.0 ≡ pos 0
  pub queue : fast (r.1.sched id) ≡ after
  pub valid : IsFast (r.1.sched id)
  pub unlocked : (r.1.sched id).nested_lock ≡ 0

module _ (tr id : ℕ) (k : Kernel) (exists : id < k.cpu_count) (free : (k.sched id).nested_lock ≡ 0)
    (v : IsFast (k.sched id)) where
  abbrev held : SchedulerInfo
  held = record (k.sched id) { idle = 0; nested_lock = 1 }

  here : (f : ℕ → SchedulerInfo) (si : SchedulerInfo) → update f id si id ≡ si
  here f si = update_self f id si

  abbrev k1 : Kernel
  k1 = on_cpu k id held

  here1 : k1.sched id ≡ held
  here1 = update_self k.sched id held

  abbrev joined : Thread
  joined = record (k.thread tr) { cpu = pos id; fast_queued = increment (k.thread tr).fast_queued }

  abbrev k2 : Kernel
  k2 = on_thread k1 tr joined

  abbrev k3 : Kernel
  k3 = on_cpu k2 id (add_fast tr (k2.sched id))

  here3 : k3.sched id ≡ add_fast tr held
  here3 = update_self k2.sched id (add_fast tr (k2.sched id)) ∙ ap (add_fast tr) here1

  abbrev k4 : Kernel
  k4 = on_cpu k3 id (record (k3.sched id) { nested_lock = 0 })

  here4 : k4.sched id ≡ record (add_fast tr held) { nested_lock = 0 }
  here4 =
      update_self k3.sched id (record (k3.sched id) { nested_lock = 0 })
      ∙ ap (λ (s : SchedulerInfo). record s { nested_lock = 0 }) here3

  queue_fast_returns :
      (((k.sched id).fast_stop + 1) % max_fast == (k.sched id).fast_start) ≡ false
      → queue_fast_on id tr k ≡ some (pos 0, k4)
  unfolding queue_fast_on
  queue_fast_returns room =
      let is_cpu : ltb id k.cpu_count ≡ true = ground arith in
      let full : ((add_fast tr (k2.sched id)).fast_stop == (add_fast tr (k2.sched id)).fast_start)
          ≡ false =
        ap (λ (s : SchedulerInfo). (s.fast_stop + 1) % max_fast == s.fast_start) here1 ∙ room in
      let freed = unlocks id k3 exists (ap (λ s. s.nested_lock) here3) in
      rw (is_cpu, queue_fast_on)
        (rw (locks id k exists free, queue_fast_on)
          (rw (full, queue_fast_on) (rw (freed, queue_fast_on) refl)))

  -- `fast_queue` of a thread tied to a processor whose fast queue holds fewer than 31 threads puts it
  -- behind them, counts it and makes it that processor's.
  pub queue_fast_lem :
      (k.thread tr).cpu_affinity ≡ pos id
      → length (fast (k.sched id)) < max_fast - 1
      → Returns (queue_fast tr k) (λ r.
        Fast id (fast (k.sched id) ++ (some tr ∷ [])) r
        × (r.1.thread tr ≡ record (k.thread tr) {
          cpu = pos id;
          fast_queued = increment (k.thread tr).fast_queued;
        }))
  unfolding queue_fast
  queue_fast_lem tied room =
      let (after, w, other) = fast-add_fast v tr room in
      rw
        (
          ap (λ (c : ℤ). cpu_index c >>= λ i. queue_fast_on i tr k) tied ∙ queue_fast_returns other,
          queue_fast,
        )
        (
          record {
            result = refl;
            queue = ap fast here4 ∙ after;
            valid =
                subst IsFast (sym here4)
                  (record { sized = w.sized; start = w.start; stop = w.stop });
            unlocked = ap (λ s. s.nested_lock) here4;
          },
          update_self k.thread tr joined,
        )

  abbrev d2 : Kernel
  d2 = on_cpu k1 id (drop_fast (k1.sched id))

  abbrev d3 : Kernel
  d3 = on_thread d2 tr (leave_fast (d2.thread tr))

  there3 : d3.sched id ≡ drop_fast held
  there3 = update_self k1.sched id (drop_fast (k1.sched id)) ∙ ap drop_fast here1

  abbrev d4 : Kernel
  d4 = on_cpu d3 id (record (d3.sched id) { nested_lock = 0 })

  there4 : d4.sched id ≡ record (drop_fast held) { nested_lock = 0 }
  there4 =
      update_self d3.sched id (record (d3.sched id) { nested_lock = 0 })
      ∙ ap (λ (s : SchedulerInfo). record s { nested_lock = 0 }) there3

  dequeue_fast_returns :
      (k.thread tr).cpu ≡ pos id
      → id ≡ k.cpuid
      → get_or (k.sched id).fast_queue (k.sched id).fast_start none ≡ some tr
      → dequeue_fast_on id tr k ≡ some (pos 0, d4)
  unfolding dequeue_fast_on
  dequeue_fast_returns at home first =
      let mine : ((k.thread tr).cpu ==ℤ pos k.cpuid) ≡ true = ground arith in
      let is_first : points_to tr (get_or (k1.sched id).fast_queue (k1.sched id).fast_start none)
          ≡ true =
        ap (λ (s : SchedulerInfo). points_to tr (get_or s.fast_queue s.fast_start none)) here1
        ∙ ap (points_to tr) first
        ∙ ground arith in
      let freed = unlocks id d3 exists (ap (λ s. s.nested_lock) there3) in
      rw (locks id k exists free, dequeue_fast_on)
        (rw (mine, dequeue_fast_on)
          (rw (is_first, dequeue_fast_on) (rw (freed, dequeue_fast_on) refl)))

  -- `fast_dequeue` of the first thread in the fast queue of the processor that runs it takes it out
  -- and counts it off; a thread that is no longer queued belongs to no processor.
  pub dequeue_fast_lem :
      (l : List (Option ℕ))
      → (k.thread tr).cpu ≡ pos id
      → id ≡ k.cpuid
      → fast (k.sched id) ≡ some tr ∷ l
      → Returns (dequeue_fast tr k) (λ r. Fast id l r × (r.1.thread tr ≡ leave_fast (k.thread tr)))
  unfolding dequeue_fast
  dequeue_fast_lem l at home waits =
      let (first, after, w) = fast-drop_fast v (some tr) l waits in
      rw
        (
          ap (λ (c : ℤ). cpu_index c >>= λ i. dequeue_fast_on i tr k) at
              ∙ dequeue_fast_returns at home first,
          dequeue_fast,
        )
        (
          record {
            result = refl;
            queue = ap fast there4 ∙ after;
            valid =
                subst IsFast (sym there4)
                  (record { sized = w.sized; start = w.start; stop = w.stop });
            unlocked = ap (λ s. s.nested_lock) there4;
          },
          update_self k.thread tr (leave_fast (k.thread tr)),
        )
