-- ===== src/Sched/Switch.antt =====
-- kernel/src/scheduler.c: what the loop of `scheduler` does to the run queue between two threads.
use native.Mathlib.Nat.{mod-eq_of_lt}
use mathlib.Core.Path.{subst}
use spoon_microkernel.Prelude.{
  ℕ, zero, suc, ◌-◌, ◌%◌, ◌<◌, ◌≡◌, refl, sym, ap, ◌∙◌, false, Option, none, some, List, [], ◌∷◌,
  take, get_or, ◌==◌, if◌then◌else◌, arith, word_max, add32, sub32, remove_at, update, update_self,
  Returns, close_gap, close_gap_lem, ◌>>=◌, ◌≢◌, true, find_pos, Bool-cases, inl, inr, ==_iff, ◌++◌,
  All, length, length-append, length-take,
}
use spoon_microkernel.Prelude.Int.{minus_one}
use spoon_microkernel.Kernel.{Kernel, ThreadState, SchedulerInfo}
use spoon_microkernel.Sched.{on_cpu, on_thread, points_to, find_thread, remove_entry}
use spoon_microkernel.Sched.RunQueue.{entries, IsQueue, entries-remove_entry, remove_entry-IsQueue}

-- The thread whose turn is next.
abbrev pub next_entry : SchedulerInfo → Option ℕ
next_entry si = get_or si.sched_queue si.position none

-- The choice of the thread to run; `none` stands for the idle thread.
unfoldable pub pick : SchedulerInfo → Option ℕ × SchedulerInfo
pick si =
    if si.sched_count == 0
    then (none, si)
    else (next_entry si, record si { position = add32 si.position 1 % si.sched_count })

abbrev pub no_request : SchedulerInfo → SchedulerInfo
no_request si = record si { requesting_thread = none; requesting_state = none }

-- `remove_last`, for the scheduler of processor `id`.
unfoldable pub remove_last : (id : ℕ) → Kernel → Option Kernel
remove_last id k =
    let si = k.sched id in
    elim si.requesting_thread [
      | none ↦ elim si.requesting_state [ none ↦ some k | some _ ↦ none ]
      | some tr ↦ elim si.requesting_state [
        | none ↦ none
        | some state ↦
            if find_thread tr si == si.sched_count
            then some (on_cpu k id (no_request si))
            else some (
                on_thread (on_cpu k id (no_request (remove_entry (find_thread tr si) si))) tr
                  (record (k.thread tr) { state = state; cpu = minus_one }))
      ]
    ]

-- The end of a round of the loop of `scheduler`, from the run queue on: the choice, and `remove_last` when
-- the thread chosen is back. What the thread itself does is left out.
unfoldable pub turn : (id : ℕ) → Kernel → Option (Option ℕ × Kernel)
unfolding pick remove_last
turn id k = do
  let (next, si) = pick (k.sched id)
  k1 ← remove_last id (on_cpu k id si)
  some (next, k1)

get_or-take : (l : List (Option ℕ)) (n i : ℕ) → i < n → get_or (take n l) i none ≡ get_or l i none
get_or-take l zero i lt = absurd (omega arith)
get_or-take [] (suc n) i lt = refl
get_or-take (x ∷ l) (suc n) zero lt = refl
get_or-take (x ∷ l) (suc n) (suc i) lt = get_or-take l n i (omega arith)

get_or-remove_at :
    (l : List (Option ℕ)) (place : ℕ)
    → get_or (remove_at place l) place none ≡ get_or l (suc place) none
get_or-remove_at [] place = refl
get_or-remove_at (x ∷ l) zero = refl
get_or-remove_at (x ∷ l) (suc place) = get_or-remove_at l place

module _ {si : SchedulerInfo} (v : IsQueue si) where
  open v use {sized, within, small}

  -- Where the entry before the next turn goes, as it does when the thread that ran last goes, the
  -- turn stays with the same thread.
  pub next_entry-remove_entry :
      (place : ℕ)
      → suc place ≡ si.position
      → si.position < si.sched_count
      → next_entry (remove_entry place si) ≡ next_entry si
  unfolding remove_entry
  next_entry-remove_entry place before used =
      let left : sub32 si.sched_count 1 ≡ si.sched_count - 1 = omega arith in
      let some_left : (si.sched_count - 1 == 0) ≡ false = ground arith in
      let turn : sub32 si.position 1 ≡ place = omega arith in
      let stays : place % (si.sched_count - 1) ≡ place = mod-eq_of_lt (omega arith) in
      rw (left, some_left, turn, stays)
        (sym (
            get_or-take (close_gap place si.sched_count si.sched_queue) (si.sched_count - 1) place
              (omega arith))
          ∙ ap (λ l. get_or l place none)
              (close_gap_lem place si.sched_count si.sched_queue (omega arith) (omega arith))
          ∙ get_or-remove_at (entries si) place
          ∙ get_or-take si.sched_queue si.sched_count (suc place) (omega arith)
          ∙ ap (λ x. get_or si.sched_queue x none) before)

  -- Where the turn is at the start and an entry goes that is not the only one, the turn moves to the
  -- remainder of 2 ^ 32 - 1 by the number of entries left.
  pub position-remove_entry :
      (place : ℕ)
      → si.position ≡ 0
      → 1 < si.sched_count
      → (remove_entry place si).position ≡ (word_max - 1) % (si.sched_count - 1)
  unfolding remove_entry
  position-remove_entry place first more =
      let left : sub32 si.sched_count 1 ≡ si.sched_count - 1 = omega arith in
      let some_left : (si.sched_count - 1 == 0) ≡ false = ground arith in
      let wrapped : sub32 si.position 1 ≡ word_max - 1 = omega arith in
      rw (left, some_left, wrapped) refl

-- The entry of a thread is found behind those of others.
found_at :
    (tr count : ℕ) (queue front back : List (Option ℕ))
    → take count queue ≡ front ++ some tr ∷ back
    → All (λ e. e ≢ some tr) front
    → find_pos (points_to tr) count queue ≡ length front
unfolding find_pos
found_at tr zero queue [] back e h = cc
found_at tr zero queue (f ∷ front) back e h = cc
found_at tr (suc count) [] [] back e h = cc
found_at tr (suc count) [] (f ∷ front) back e h = cc
found_at tr (suc count) (x ∷ queue) [] back e h =
    let same : x ≡ some tr = cc in
    let hit : (tr == tr) ≡ true = ground arith in rw same (rw hit refl)
found_at tr (suc count) (x ∷ queue) (f ∷ front) back e (other, h) =
    let same : x ≡ f = cc in
    let rest : take count queue ≡ front ++ some tr ∷ back = cc in
    rw (missed x (λ own. other (sym same ∙ own)))
      (ap suc (found_at tr count queue front back rest h))
  where
    missed : (o : Option ℕ) → o ≢ some tr → points_to tr o ≡ false
    missed none out = refl
    missed (some p) out = elim (Bool-cases (p == tr)) [
      | inl hit ↦ absurd (out (ap (λ (q : ℕ). some q) ((==_iff p tr).0 hit)))
      | inr miss ↦ miss
    ]

remove_at-between :
    (front back : List (Option ℕ)) (x : Option ℕ)
    → remove_at (length front) (front ++ x ∷ back) ≡ front ++ back
remove_at-between [] back x = refl
remove_at-between (f ∷ front) back x =
    ap (λ (l : List (Option ℕ)). f ∷ l) (remove_at-between front back x)

-- A request to change the state of a queued thread is carried out: the thread leaves the run queue
-- at its first entry, the other entries stay in their order, it takes the state, its processor is -1,
-- the thread and the state of the request are cleared, and the queue stays valid.
pub remove_last_lem :
    (k : Kernel) (id tr : ℕ) (state : ThreadState) (front back : List (Option ℕ))
    → IsQueue (k.sched id)
    → (k.sched id).requesting_thread ≡ some tr
    → (k.sched id).requesting_state ≡ some state
    → entries (k.sched id) ≡ front ++ some tr ∷ back
    → All (λ e. e ≢ some tr) front
    → Returns (remove_last id k) (λ k'.
      (k'.thread tr ≡ record (k.thread tr) { state = state; cpu = minus_one })
      × (entries (k'.sched id) ≡ front ++ back)
      × IsQueue (k'.sched id)
      × ((k'.sched id).requesting_thread ≡ none)
      × ((k'.sched id).requesting_state ≡ none))
unfolding remove_last
remove_last_lem k id tr state front back v thread asked queued first =
    let at : place ≡ length front =
      found_at tr (k.sched id).sched_count (k.sched id).sched_queue front back queued first in
    let there : place < (k.sched id).sched_count = omega (
      arith,
      at,
      ap length queued,
      length-append front (some tr ∷ back),
      length-take (k.sched id).sched_count (k.sched id).sched_queue,
    ) in
    let found : (place == (k.sched id).sched_count) ≡ false = ground arith in
    rw (thread, remove_last)
      (rw (asked, remove_last)
        (rw (found, remove_last)
          (
            update_self k.thread tr _,
            ap entries here
                ∙ entries-remove_entry v place there
                ∙ ap (λ (i : ℕ). remove_at i (entries (k.sched id))) at
                ∙ ap (λ (l : List (Option ℕ)). remove_at (length front) l) queued
                ∙ remove_at-between front back (some tr),
            subst IsQueue (sym here) (no_request-IsQueue (remove_entry-IsQueue v place there)),
            ap (λ s. s.requesting_thread) here,
            ap (λ s. s.requesting_state) here,
          )))
  where
    place : ℕ
    place = find_thread tr (k.sched id)

    here :
        update k.sched id (no_request (remove_entry place (k.sched id))) id
        ≡ no_request (remove_entry place (k.sched id))
    here = update_self k.sched id _

    no_request-IsQueue : {si : SchedulerInfo} → IsQueue si → IsQueue (no_request si)
    no_request-IsQueue w = record {
      sized = w.sized;
      within = w.within;
      small = w.small;
      turn = w.turn;
    }
