-- ===== src/Timers/Release.antt =====
-- `remove_timers` moves the threads whose time has come to the run queue.
use spoon_microkernel.Prelude.{
  ℕ, zero, suc, ◌+◌, ◌-◌, ◌%◌, ◌^◌, ◌≤◌, ◌<◌, ◌≡◌, ◌≢◌, refl, ap, sym, ◌∙◌, inl, inr, true, false,
  Bool-cases, Option, none, some, List, [], ◌∷◌, ◌++◌, map, length, take, get_or, get_elem?, leb,
  ◌==◌, if◌then◌else◌, copy, window, window-suc, update, update_self, arith, Returns, Returns-map,
  Returns-bind, ◌>>=◌,
}
use spoon_microkernel.Prelude.Int.{pos}
use mathlib.Core.Path.{subst}
use mathlib.Core.List.{append-nil, append_assoc}
use spoon_microkernel.Kernel.{Kernel, Thread, Paused}
use spoon_microkernel.Sched.{points_to, no_thread, append_entry}
use spoon_microkernel.Sched.RunQueue.{entries, IsQueue, append_entry-IsQueue, entries-append_entry}
use spoon_microkernel.Timers.{wake_entry, wake_due, move_down}

-- The entries at the front that are due, and those behind.
unfoldable pub due : (time : ℕ) → List Paused → List Paused
due time [] = []
due time (e ∷ l) = let rest = due time l in if leb e.request time then e ∷ rest else []

unfoldable pub not_due : (time : ℕ) → List Paused → List Paused
not_due time [] = []
not_due time (e ∷ l) = let rest = not_due time l in if leb e.request time then rest else e ∷ l

-- A thread that waited as the entry says: it has the state from before, the time that it waited, and
-- the number of its processor.
abbrev pub resumed : (id time : ℕ) → Paused → Thread → Thread
resumed id time e t = record t {
  state = e.state;
  duration = (time + 2 ^ 64 - e.start) % 2 ^ 64;
  cpu = pos id;
}

-- What the entries of a list do to the thread at `p`, in their order.
unfoldable pub wake_all : (id time p : ℕ) → List Paused → Thread → Thread
wake_all id time p [] t = t
wake_all id time p (e ∷ l) t =
    wake_all id time p l (if points_to p e.tr then resumed id time e t else t)

-- Each entry has a thread.
unfoldable pub AreReal : List Paused → Type 0
AreReal [] = Unit {0}
AreReal (e ∷ l) = (e.tr ≢ none) × AreReal l

-- The threads of `l` are woken, and `left` entries are still to be looked at.
pub record Woken (id time : ℕ) (l : List Paused) (left : ℕ) (k k' : Kernel) : Type 0 where
  pub pause_queue : (k'.sched id).pause_queue ≡ (k.sched id).pause_queue
  pub pause_count : (k'.sched id).pause_count ≡ left
  pub queue : entries (k'.sched id) ≡ entries (k.sched id) ++ map (λ e. e.tr) l
  pub valid : IsQueue (k'.sched id)
  pub count : (k'.sched id).sched_count ≡ (k.sched id).sched_count + length l
  pub size : (k'.sched id).sched_size ≡ (k.sched id).sched_size
  pub threads : (p : ℕ) → k'.thread p ≡ wake_all id time p l (k.thread p)
  pub others : (j : ℕ) → (id == j) ≡ false → k'.sched j ≡ k.sched j

module _ (id time : ℕ) where
  wake_entry_lem :
      (e : Paused) (left : ℕ) (k : Kernel) (o : Option ℕ)
      → e.tr ≡ o
      → o ≢ none
      → IsQueue (k.sched id)
      → (k.sched id).sched_count < (k.sched id).sched_size
      → Returns (wake_entry id time e left k) (Woken id time (e ∷ []) left k)
  unfolding wake_entry wake_all
  wake_entry_lem e left k none at real v room = absurd (real refl)
  wake_entry_lem e left k (some tr) at real v room =
      let si = k.sched id in
      let free : (si.sched_count == si.sched_size) ≡ false = ground arith in
      let w = append_entry-IsQueue v tr room in
      let next = record (append_entry tr si) { pause_count = left } in
      let here : update k.sched id next id ≡ next = update_self k.sched id next in
      rw (at, wake_entry)
        (rw (free, wake_entry)
          (record {
            pause_queue = ap (λ s. s.pause_queue) here;
            pause_count = ap (λ s. s.pause_count) here;
            queue = ap entries here ∙ entries-append_entry v tr room ∙ refl;
            valid =
                subst IsQueue (sym here)
                  (record { sized = w.sized; within = w.within; small = w.small; turn = w.turn });
            count = ap (λ s. s.sched_count) here ∙ omega (arith, v.small, v.within);
            size = ap (λ s. s.sched_size) here;
            threads = λ p. ground arith;
            others = λ j other. ground arith;
          }))

  Woken-trans :
      (e : Paused) (l : List Paused) (left left' : ℕ) (k k1 k2 : Kernel)
      → Woken id time (e ∷ []) left k k1
      → Woken id time l left' k1 k2
      → Woken id time (e ∷ l) left' k k2
  unfolding wake_all
  Woken-trans e l left left' k k1 k2 a b = record {
    pause_queue = b.pause_queue ∙ a.pause_queue;
    pause_count = b.pause_count;
    queue =
        b.queue
        ∙ ap (λ (r : List (Option ℕ)). r ++ map (λ x. x.tr) l) a.queue
        ∙ append_assoc (entries (k.sched id)) (e.tr ∷ []) (map (λ x. x.tr) l);
    valid = b.valid;
    count = omega (arith, a.count, b.count);
    size = b.size ∙ a.size;
    threads = λ p. b.threads p ∙ ap (wake_all id time p l) (a.threads p);
    others = λ j other. b.others j other ∙ a.others j other;
  }

  module _ (q : List Paused) where
    abbrev pub Loops : (left count : ℕ) → Kernel → List Paused → Type 0
    Loops left count k l =
        AreReal (due time l)
        → (k.sched id).sched_count + length (due time l) ≤ (k.sched id).sched_size
        → Returns (wake_due id time left count k) (λ r.
          (r.0 ≡ count + length (due time l))
          × Woken id time (due time l) (left - length (due time l)) k r.1)

    none-Woken :
        (left : ℕ) (k : Kernel)
        → IsQueue (k.sched id)
        → (k.sched id).pause_count ≡ left
        → Woken id time [] left k k
    unfolding wake_all
    none-Woken left k v counted = record {
      pause_queue = refl;
      pause_count = counted;
      queue = sym (append-nil (entries (k.sched id)));
      valid = v;
      count = omega arith;
      size = refl;
      threads = λ p. refl;
      others = λ j other. refl;
    }

    module _ (left count : ℕ) (k : Kernel) (e : Paused)
        (at : get_or (k.sched id).pause_queue count no_thread ≡ e) where
      stops : leb e.request time ≡ false → wake_due id time (suc left) count k ≡ some (count, k)
      unfolding wake_due
      stops waits = rw (at, wake_due) (rw (waits, wake_due) refl)

      goes_on :
          leb e.request time ≡ true
          → wake_due id time (suc left) count k
            ≡ (wake_entry id time e left k >>= λ k'. wake_due id time left (suc count) k')
      unfolding wake_due
      goes_on comes =
          let next : count + 1 ≡ suc count = omega arith in
          rw (at, wake_due) (rw (comes, wake_due) (rw next refl))

      round :
          (l : List Paused)
          → (k.sched id).pause_queue ≡ q
          → IsQueue (k.sched id)
          → (k.sched id).pause_count ≡ suc left
          → ((k' : Kernel)
              → (k'.sched id).pause_queue ≡ q
              → IsQueue (k'.sched id)
              → (k'.sched id).pause_count ≡ left
              → Loops left (suc count) k' l)
          → Loops (suc left) count k (e ∷ l)
      unfolding due AreReal
      round l same v counted later real room = elim (Bool-cases (leb e.request time)) [
        | inr waits ↦
            rw (stops waits) (
              rw (waits, due) (omega arith, none-Woken (suc left - 0) k v (omega (arith, counted))))
        | inl comes ↦
            rw (goes_on comes)
              (rw (comes, due) (go (rw (comes, due) at real) (rw (comes, due) at room)))
      ]
        where
          go :
              (e.tr ≢ none) × AreReal (due time l)
              → (k.sched id).sched_count + suc (length (due time l)) ≤ (k.sched id).sched_size
              → Returns
                  (wake_entry id time e left k >>= λ k'. wake_due id time left (suc count) k')
                  (λ r.
                    (r.0 ≡ count + suc (length (due time l)))
                    × Woken id time (e ∷ due time l) (suc left - suc (length (due time l))) k r.1)
          go (some_thread, others) free =
              let fewer : suc left - suc (length (due time l)) ≡ left - length (due time l) =
                omega arith in
              Returns-bind (wake_entry id time e left k) _ (Woken id time (e ∷ []) left k) _
                (λ k1 w.
                  Returns-map (wake_due id time left (suc count) k1) _ _
                    (λ r h. (
                      omega (arith, h.0),
                      rw fewer (
                          Woken-trans e (due time l) left (left - length (due time l)) k k1 r.1 w
                            h.1),
                    ))
                    (later k1 (w.pause_queue ∙ same) w.valid w.pause_count others
                      (omega (arith, w.count, w.size))))
                (wake_entry_lem e left k e.tr refl some_thread v (omega arith))

    -- The loop wakes the entries at the front of those left that are due.
    pub wake_due_lem :
        (left count : ℕ) (k : Kernel)
        → (k.sched id).pause_queue ≡ q
        → IsQueue (k.sched id)
        → (k.sched id).pause_count ≡ left
        → count + left ≤ length q
        → Loops left count k (window count left q)
    unfolding wake_due due
    wake_due_lem zero count k same v counted fits =
        λ real room. (omega arith, none-Woken zero k v counted)
    wake_due_lem (suc left) count k same v counted fits =
        rw (window-suc count left q no_thread (omega arith)) (
          round left count k (get_or q count no_thread) (ap (λ r. get_or r count no_thread) same)
            (window (suc count) left q) same v counted
            (λ k' same' v' counted'.
              wake_due_lem left (suc count) k' same' v' counted' (omega arith)))

copy_front :
    (count : ℕ) (x : Paused) (q : List Paused)
    → count ≤ length q
    → copy 0 count (x ∷ q) ≡ get_or (x ∷ q) count no_thread ∷ q
copy_front zero x q fits = refl
copy_front (suc count) x q fits = rw (get_elem?-get_or count q (omega arith), copy) refl
  where
    get_elem?-get_or :
        (i : ℕ) (l : List Paused) → i < length l → get_elem? l i ≡ some (get_or l i no_thread)
    get_elem?-get_or i [] lt = absurd (omega arith)
    get_elem?-get_or zero (y ∷ l) lt = refl
    get_elem?-get_or (suc i) (y ∷ l) lt = get_elem?-get_or i l (omega arith)

module _ (count : ℕ) where
  copy-cons :
      (i : ℕ) (x : Paused) (q : List Paused)
      → copy (suc i) (suc i + count) (x ∷ q) ≡ x ∷ copy i (i + count) q
  copy-cons i x q = ground arith

  move_down-cons :
      (rounds i : ℕ) (x : Paused) (q : List Paused)
      → move_down count rounds (suc i) (x ∷ q) ≡ x ∷ move_down count rounds i q
  unfolding move_down
  move_down-cons zero i x q = refl
  move_down-cons (suc rounds) i x q =
      rw (copy-cons i x q) (move_down-cons rounds (suc i) x (copy i (i + count) q))

  -- The entries behind `count` move to the front.
  pub move_down_lem :
      (rounds : ℕ) (q : List Paused)
      → count + rounds ≤ length q
      → take rounds (move_down count rounds 0 q) ≡ window count rounds q
  unfolding move_down
  move_down_lem zero q fits = refl
  move_down_lem (suc rounds) [] fits = absurd (omega arith)
  move_down_lem (suc rounds) (x ∷ q) fits =
      let first : 0 + count ≡ count = omega arith in
      rw
        (
          first,
          copy_front count x q (omega arith),
          move_down-cons rounds 0 (get_or (x ∷ q) count no_thread) q,
        )
        (ap (λ (l : List Paused). get_or (x ∷ q) count no_thread ∷ l)
            (move_down_lem rounds q (omega arith))
          ∙ sym (window-suc count rounds (x ∷ q) no_thread (omega arith)))
