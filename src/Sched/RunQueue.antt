-- ===== src/Sched/RunQueue.antt =====
-- `sub_queue`, `sub_dequeue` and `restart` on the entries in use.
use spoon_microkernel.Prelude.{
  ℕ, suc, ◌-◌, ◌≤◌, ◌<◌, ◌≡◌, refl, sym, ap, ◌∙◌, ◌⊎◌, inl, inr, Bool, false, not, Option, some,
  List, [], ◌∷◌, ◌++◌, length, take, length-set, window-set, arith, ◌==◌, word_max, add32, sub32,
  close_gap_lem, length-close_gap, remove_at, Returns, Returns-map, if◌then◌else◌, Bool-cases,
}
use spoon_microkernel.Prelude.Int.{ℤ, pos, minus_one}
use spoon_microkernel.Kernel.{Kernel, SchedulerInfo}
use mathlib.Core.Path.{subst}
use spoon_microkernel.Sched.Locked.{OnlyCpu, CanLock, locked, on_locked_lem}
use spoon_microkernel.Sched.{
  points_to, append_entry, remove_entry, find_thread, on_locked, sub_queue, sub_dequeue, queue_body,
  dequeue_body,
}

-- The entries of the run queue in use.
abbrev pub entries : SchedulerInfo → List (Option ℕ)
entries si = take si.sched_count si.sched_queue

-- The run queue fits its array, and the next entry to run is one of those in use.
pub record IsQueue (si : SchedulerInfo) : Type 0 where
  pub sized : length si.sched_queue ≡ si.sched_size
  pub within : si.sched_count ≤ si.sched_size
  pub small : si.sched_size < word_max
  pub turn : (si.position < si.sched_count) ⊎ (si.position ≡ 0)

module _ {si : SchedulerInfo} (v : IsQueue si) where
  open v use {sized, within, small, turn}

  pub entries-append_entry :
      (tr : ℕ)
      → si.sched_count < si.sched_size
      → entries (append_entry tr si) ≡ entries si ++ (some tr ∷ [])
  entries-append_entry tr room =
      let next : add32 si.sched_count 1 ≡ suc si.sched_count = omega arith in
      rw next (
        window-set 0 si.sched_count si.sched_count si.sched_queue (some tr) (omega arith)
          (omega arith))

  pub append_entry-IsQueue :
      (tr : ℕ) → si.sched_count < si.sched_size → IsQueue (append_entry tr si)
  append_entry-IsQueue tr room =
      let next : add32 si.sched_count 1 ≡ suc si.sched_count = omega arith in
      record {
        sized = length-set si.sched_queue si.sched_count (some tr) ∙ sized;
        within = omega arith;
        small = small;
        turn = omega (arith, next, turn);
      }

  pub entries-remove_entry :
      (place : ℕ)
      → place < si.sched_count
      → entries (remove_entry place si) ≡ remove_at place (entries si)
  unfolding remove_entry
  entries-remove_entry place used =
      let fewer : sub32 si.sched_count 1 ≡ si.sched_count - 1 = omega arith in
      rw fewer (close_gap_lem place si.sched_count si.sched_queue used (omega arith))

  pub remove_entry-IsQueue : (place : ℕ) → place < si.sched_count → IsQueue (remove_entry place si)
  unfolding remove_entry
  remove_entry-IsQueue place used = record {
    sized = length-close_gap place si.sched_count si.sched_queue ∙ sized;
    within = omega arith;
    small = small;
    turn = ground arith;
  }

-- The scheduler's queue, apart from its lock.
abbrev pub released : SchedulerInfo → SchedulerInfo
released si = record si { idle = 0; nested_lock = 0 }

pub released-IsQueue : {si : SchedulerInfo} → IsQueue si → IsQueue (released si)
released-IsQueue v = record { sized = v.sized; within = v.within; small = v.small; turn = v.turn }

-- The outcome of a call on processor `id`, whose entries in use become `after`.
pub record Outcome (id : ℕ) (rc : ℤ) (after : List (Option ℕ)) (k : Kernel) (r : ℤ × Kernel)
    : Type 0 where
  pub result : r.0 ≡ rc
  pub queue : entries (r.1.sched id) ≡ after
  pub valid : IsQueue (r.1.sched id)
  pub free : (r.1.sched id).nested_lock ≡ 0
  pub pauses :
      ((r.1.sched id).pause_queue ≡ (k.sched id).pause_queue)
      × ((r.1.sched id).pause_count ≡ (k.sched id).pause_count)
  pub elsewhere : (j : ℕ) → (id == j) ≡ false → r.1.sched j ≡ k.sched j
  pub same_proc : r.1.proc ≡ k.proc
  pub same_thread : r.1.thread ≡ k.thread

OnlyCpu-Outcome :
    {id : ℕ} {rc : ℤ} {si' : SchedulerInfo} {k : Kernel} {r : ℤ × Kernel}
    → (r.0 ≡ rc) × OnlyCpu id (record si' { nested_lock = 0 }) k r.1
    → IsQueue si'
    → (si'.pause_queue ≡ (k.sched id).pause_queue) × (si'.pause_count ≡ (k.sched id).pause_count)
    → Outcome id rc (entries si') k r
OnlyCpu-Outcome {id} {si' = si'} (e, only) v same = record {
  result = e;
  queue = ap entries only.here;
  valid =
      subst IsQueue (sym only.here)
        (record { sized = v.sized; within = v.within; small = v.small; turn = v.turn });
  free = ap (λ s. s.nested_lock) only.here;
  pauses = (ap (λ s. s.pause_queue) only.here ∙ same.0, ap (λ s. s.pause_count) only.here ∙ same.1);
  elsewhere = only.elsewhere;
  same_proc = only.same_proc;
  same_thread = only.same_thread;
}

abbrev pub is_full : SchedulerInfo → Bool
is_full si = si.sched_count == si.sched_size

locked-IsQueue : {si : SchedulerInfo} → IsQueue si → IsQueue (locked si)
locked-IsQueue v = record { sized = v.sized; within = v.within; small = v.small; turn = v.turn }

remove_entry_fields :
    (place : ℕ) (si : SchedulerInfo)
    → ((remove_entry place si).nested_lock ≡ si.nested_lock)
      × ((remove_entry place si).pause_queue ≡ si.pause_queue)
      × ((remove_entry place si).pause_count ≡ si.pause_count)
unfolding remove_entry
remove_entry_fields place si = (refl, refl, refl)

-- What the body changes between lock and unlock is what the whole call changes.
pub locked-Outcome :
    {id : ℕ} {complete : Bool} {k : Kernel} (can : CanLock id complete k)
    (body : SchedulerInfo → Option (ℤ × SchedulerInfo)) (rc : ℤ) (si' : SchedulerInfo)
    (after : List (Option ℕ))
    → body (locked (k.sched id)) ≡ some (rc, si')
    → si'.nested_lock ≡ 1
    → IsQueue si'
    → (si'.pause_queue ≡ (k.sched id).pause_queue) × (si'.pause_count ≡ (k.sched id).pause_count)
    → entries si' ≡ after
    → Returns (on_locked id complete body k) (Outcome id rc after k)
locked-Outcome {id} {complete} {k} can body rc si' after runs kept v same e =
    Returns-map (on_locked id complete body k) _ _
      (λ r h. subst (λ l. Outcome id rc l k r) e (OnlyCpu-Outcome h v same))
      (on_locked_lem can body rc si' runs kept)

module _ (id tr : ℕ) {k : Kernel} where
  -- `sub_queue` refuses the thread where the queue is full, and otherwise puts it behind the entries
  -- in use; it gives the lock back and leaves the other processors alone.
  pub sub_queue_lem :
      IsQueue (k.sched id)
      → CanLock id false k
      → Returns (sub_queue id tr k) (
          Outcome id
            (if is_full (k.sched id) then minus_one else pos 0)
            (if is_full (k.sched id)
              then entries (k.sched id)
              else entries (k.sched id) ++ (some tr ∷ []))
            k)
  unfolding sub_queue
  sub_queue_lem v can = elim (Bool-cases (is_full (k.sched id))) [
    | inl full ↦ rw full (
        locked-Outcome can (queue_body tr) minus_one (locked (k.sched id)) _ (rw full refl) refl lv
          (refl, refl) refl)
    | inr room ↦
        let below : (k.sched id).sched_count < (k.sched id).sched_size = ground (arith, v.within) in
        rw room (
          locked-Outcome can (queue_body tr) (pos 0) (append_entry tr (locked (k.sched id))) _
            (rw room refl) refl (append_entry-IsQueue lv tr below) (refl, refl)
            (entries-append_entry lv tr below))
  ]
    where
      lv : IsQueue (locked (k.sched id))
      lv = locked-IsQueue v

  -- `sub_dequeue` takes the first entry of a thread that is queued and does not run out of the
  -- entries in use, and keeps the order of the rest.
  pub sub_dequeue_lem :
      IsQueue (k.sched id)
      → CanLock id (not (id == k.cpuid)) k
      → points_to tr (k.sched k.cpuid).current_thread ≡ false
      → find_thread tr (k.sched id) < (k.sched id).sched_count
      → Returns
          (sub_dequeue id tr k)
          (Outcome id (pos 0) (remove_at (find_thread tr (k.sched id)) (entries (k.sched id))) k)
  unfolding sub_dequeue
  sub_dequeue_lem v can idle used = rw idle (
      locked-Outcome can (dequeue_body tr) (pos 0) (remove_entry place (locked (k.sched id))) _
        (rw there refl) (fields.0) (remove_entry-IsQueue lv place used) (fields.1, fields.2)
        (entries-remove_entry lv place used))
    where
      lv : IsQueue (locked (k.sched id))
      lv = locked-IsQueue v

      place : ℕ
      place = find_thread tr (k.sched id)

      there : (place == (k.sched id).sched_count) ≡ false
      there = ground arith

      fields :
          ((remove_entry place (locked (k.sched id))).nested_lock ≡ 1)
          × ((remove_entry place (locked (k.sched id))).pause_queue ≡ (k.sched id).pause_queue)
          × ((remove_entry place (locked (k.sched id))).pause_count ≡ (k.sched id).pause_count)
      fields = remove_entry_fields place (locked (k.sched id))
