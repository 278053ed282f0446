-- ===== src/Timers/Partition.antt =====
-- `remove_timers` parts the pause queue into the entries that are due and the others.
use spoon_microkernel.Prelude.{
  ℕ, zero, suc, ◌+◌, ◌-◌, ◌≤◌, ◌<◌, ◌≡◌, refl, ap, sym, ◌∙◌, inl, inr, Bool, false, not, Bool-cases,
  List, [], ◌∷◌, ◌++◌, map, length, take, drop, get_or, length-take, length-drop, leb, ◌==◌,
  if◌then◌else◌, window, update, update_self, arith, Returns, Returns-bind,
}
use mathlib.Core.Path.{subst}
use mathlib.Core.List.{append-nil}
use spoon_microkernel.Kernel.{Kernel, Paused, SchedulerInfo}
use spoon_microkernel.Sched.{no_thread, on_cpu}
use spoon_microkernel.Sched.RunQueue.{entries, IsQueue}
use spoon_microkernel.Timers.{wake_due, move_down, remove_timers}
use spoon_microkernel.Timers.Order.{paused, AreFrom}
use spoon_microkernel.Timers.Release.{
  due, not_due, wake_all, AreReal, Woken, wake_due_lem, move_down_lem,
}

-- The entries with a property.
unfoldable pub filter : (Paused → Bool) → List Paused → List Paused
filter test [] = []
filter test (e ∷ l) = let rest = filter test l in if test e then e ∷ rest else rest

abbrev pub is_due : ℕ → Paused → Bool
is_due time e = leb e.request time

none_due :
    (time from : ℕ) (l : List Paused)
    → time < from
    → AreFrom from l
    → (filter (is_due time) l ≡ []) × (filter (λ e. not (is_due time e)) l ≡ l)
unfolding filter AreFrom
none_due time from [] lt h = (refl, refl)
none_due time from (e ∷ l) lt (later, h) =
    let behind : leb e.request time ≡ false = ground arith in
    let (a, b) = none_due time e.request l (omega arith) h in
    rw behind (a, ap (λ (r : List Paused). e ∷ r) b)

-- In the order of their times, the entries that are due are at the front.
due_lem :
    (time from : ℕ) (l : List Paused)
    → AreFrom from l
    → (due time l ≡ filter (is_due time) l) × (not_due time l ≡ filter (λ e. not (is_due time e)) l)
unfolding due not_due filter AreFrom
due_lem time from [] h = (refl, refl)
due_lem time from (e ∷ l) (later, h) = elim (Bool-cases (leb e.request time)) [
  | inl comes ↦
      let (a, b) = due_lem time e.request l h in rw comes (ap (λ (r : List Paused). e ∷ r) a, b)
  | inr waits ↦
      let (a, b) = none_due time e.request l (ground arith) h in
      rw waits (sym a, ap (λ (r : List Paused). e ∷ r) (sym b))
]

-- What is left behind the entries that are due.
behind_due :
    (time n : ℕ) (q : List Paused)
    → n ≤ length q
    → (window (length (due time (take n q))) (n - length (due time (take n q))) q
        ≡ not_due time (take n q))
      × (length (due time (take n q)) ≤ n)
unfolding due not_due
behind_due time zero q fits = (refl, omega arith)
behind_due time (suc n) [] fits = absurd (omega arith)
behind_due time (suc n) (e ∷ q) fits = elim (Bool-cases (leb e.request time)) [
  | inl comes ↦
      let (a, b) = behind_due time n q (omega arith) in
      let fewer : suc n - suc (length (due time (take n q))) ≡ n - length (due time (take n q)) =
        omega arith in
      rw comes (rw fewer (a, omega arith))
  | inr waits ↦ rw waits (let all : suc n - 0 ≡ suc n = omega arith in rw all (refl, omega arith))
]

-- The time from `time` until the first entry is due, or 0 if there is none.
abbrev pub until_next : (time : ℕ) → List Paused → ℕ
until_next time [] = 0
until_next time (e ∷ l) = e.request - time

-- The outcome of `remove_timers`.
pub record Released (id time : ℕ) (k : Kernel) (r : ℕ × Kernel) : Type 0 where
  pub next : r.0 ≡ until_next time (filter (λ e. not (is_due time e)) (paused (k.sched id)))
  pub left : paused (r.1.sched id) ≡ filter (λ e. not (is_due time e)) (paused (k.sched id))
  pub queue :
      entries (r.1.sched id)
      ≡ entries (k.sched id) ++ map (λ e. e.tr) (filter (is_due time) (paused (k.sched id)))
  pub valid : IsQueue (r.1.sched id)
  pub threads :
      (p : ℕ)
      → r.1.thread p ≡ wake_all id time p (filter (is_due time) (paused (k.sched id))) (k.thread p)
  pub others : (j : ℕ) → (id == j) ≡ false → r.1.sched j ≡ k.sched j

until_next_lem :
    (time n : ℕ) (q q' : List Paused)
    → take n q ≡ q'
    → length q' ≡ n
    → (if n == 0 then 0 else (get_or q 0 no_thread).request - time) ≡ until_next time q'
until_next_lem time zero q [] e h = refl
until_next_lem time zero q (x ∷ q') e h = absurd (omega arith)
until_next_lem time (suc n) q [] e h = absurd (omega arith)
until_next_lem time (suc n) [] (x ∷ q') e h = cc
until_next_lem time (suc n) (y ∷ q) (x ∷ q') e h =
    let some_left : (suc n == 0) ≡ false = ground arith in
    rw some_left (ap (λ l. until_next time l) e)

module _ (id time : ℕ) (k : Kernel) where
  abbrev si : SchedulerInfo
  si = k.sched id

  -- With the loop's result put in.
  abbrev after_loop : ℕ → Kernel → ℕ × Kernel
  after_loop count k1 =
      let si1 = k1.sched id in
      let queue = move_down count si1.pause_count 0 si1.pause_queue in
      (
        if si1.pause_count == 0 then 0 else (get_or queue 0 no_thread).request - time,
        on_cpu k1 id (record si1 { pause_queue = queue }),
      )

  module _ (ordered : AreFrom 0 (paused si)) (fits : si.pause_count ≤ length si.pause_queue)
      (v : IsQueue si) where
    front :
        (count m : ℕ) (q : List Paused)
        → count ≡ length (due time (paused si))
        → m ≡ si.pause_count - length (due time (paused si))
        → q ≡ si.pause_queue
        → (take m (move_down count m 0 q) ≡ filter (λ e. not (is_due time e)) (paused si))
          × (length (filter (λ e. not (is_due time e)) (paused si)) ≡ m)
    front count m q counted left same =
        let (rest, some_due) = behind_due time si.pause_count si.pause_queue fits in
        let sized : count + m ≤ length q = omega (arith, ap length same) in
        let moved : take m (move_down count m 0 q) ≡ window count m q =
          move_down_lem count m q sized in
        let stays : window count m q ≡ filter (λ e. not (is_due time e)) (paused si) =
          rw (counted, left, same) (rest ∙ (due_lem time 0 (paused si) ordered).1) in
        (
          moved ∙ stays,
          sym (ap length stays) ∙ omega (arith, length-take m (drop count q), length-drop count q),
        )

    after_loop_lem :
        (count : ℕ) (k1 : Kernel)
        → count ≡ length (due time (paused si))
        → Woken id time (due time (paused si)) (si.pause_count - length (due time (paused si))) k k1
        → Released id time k (after_loop count k1)
    after_loop_lem count k1 counted w =
        let next : SchedulerInfo = record (k1.sched id) {
          pause_queue = move_down count (k1.sched id).pause_count 0 (k1.sched id).pause_queue;
        } in
        let here : update k1.sched id next id ≡ next = update_self k1.sched id next in
        let (kept, whole) =
          front count (k1.sched id).pause_count (k1.sched id).pause_queue counted w.pause_count
            w.pause_queue in
        let wakes = (due_lem time 0 (paused si) ordered).0 in
        record {
          next = until_next_lem time (k1.sched id).pause_count next.pause_queue _ kept whole;
          left = ap paused here ∙ kept;
          queue =
              ap entries here
              ∙ w.queue
              ∙ ap (λ (l : List Paused). entries si ++ map (λ e. e.tr) l) wakes;
          valid = subst IsQueue (sym here) (record {
            sized = w.valid.sized;
            within = w.valid.within;
            small = w.valid.small;
            turn = w.valid.turn;
          });
          threads =
              λ p. w.threads p ∙ ap (λ (l : List Paused). wake_all id time p l (k.thread p)) wakes;
          others = λ j other. ground (arith, w.others j other);
        }

    nothing_waits : si.pause_count ≡ 0 → Released id time k (0, k)
    unfolding filter wake_all
    nothing_waits none_left =
        let empty : paused si ≡ [] = ap (λ (n : ℕ). take n si.pause_queue) none_left in
        record {
          next = rw empty refl;
          left = empty ∙ rw empty refl;
          queue = sym (append-nil (entries si)) ∙ rw empty refl;
          valid = v;
          threads = λ p. rw empty refl;
          others = λ j other. refl;
        }

    -- `remove_timers` where the pause queue is in the order of its times and the run queue has room for
    -- the threads that are due: these join the run queue in their order, each with the state of its
    -- entry, the time since the start of the entry modulo 2 ^ 64, and the number of the processor. The
    -- entries that are not due stay, the other threads and processors are as before, and the result is
    -- the time until the first entry that stays, or 0.
    pub remove_timers_lem :
        AreReal (due time (paused si))
        → si.sched_count + length (due time (paused si)) ≤ si.sched_size
        → Returns (remove_timers id time k) (Released id time k)
    unfolding remove_timers
    remove_timers_lem real room = elim (Bool-cases (si.pause_count == 0)) [
      | inl nothing ↦ rw (nothing, remove_timers) (nothing_waits (ground arith))
      | inr waits ↦
          rw (waits, remove_timers)
            (Returns-bind (wake_due id time si.pause_count 0 k) _ _ (Released id time k)
              (λ r h. after_loop_lem r.0 r.1 (h.0 ∙ omega arith) h.1)
              (wake_due_lem id time si.pause_queue si.pause_count 0 k refl v refl (omega arith) real
                room))
    ]
