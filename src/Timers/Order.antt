-- ===== src/Timers/Order.antt =====
-- The pause queue is in the order of the times that its entries wait for.
use spoon_microkernel.Prelude.{
  ℕ, zero, suc, ◌+◌, ◌≤◌, ◌<◌, ◌≡◌, refl, ap, inl, inr, Bool-cases, List, [], ◌∷◌, length, take,
  ltb, if◌then◌else◌, find_pos, find_pos-le, insert_at, open_gap_lem, arith,
}
use spoon_microkernel.Kernel.{Paused, SchedulerInfo}
use spoon_microkernel.Timers.{place_for, insert_pause}

-- The entries of the pause queue in use.
abbrev pub paused : SchedulerInfo → List Paused
paused si = take si.pause_count si.pause_queue

-- No entry waits for a time before `time`, and each for none before that of the one in front.
unfoldable pub AreFrom : (time : ℕ) → List Paused → Type 0
AreFrom time [] = Unit {0}
AreFrom time (e ∷ l) = (time ≤ e.request) × AreFrom e.request l

pub AreFrom-le : (s t : ℕ) (l : List Paused) → s ≤ t → AreFrom t l → AreFrom s l
unfolding AreFrom
AreFrom-le s t [] le h = tt
AreFrom-le s t (e ∷ l) le (h, rest) = (omega arith, rest)

-- The place found, in the entries in use.
abbrev later_than : ℕ → List Paused → ℕ
later_than target l = find_pos (λ (p : Paused). ltb target p.request) (length l) l

find_pos-take :
    (target count : ℕ) (l : List Paused)
    → count ≤ length l
    → find_pos (λ (p : Paused). ltb target p.request) count l ≡ later_than target (take count l)
unfolding find_pos
find_pos-take target zero l h = refl
find_pos-take target (suc count) [] h = absurd (omega arith)
find_pos-take target (suc count) (e ∷ l) h =
    ap (λ (i : ℕ). if ltb target e.request then 0 else suc i)
      (find_pos-take target count l (omega arith))

AreFrom-insert_at :
    (entry : Paused) (time : ℕ) (l : List Paused)
    → time ≤ entry.request
    → AreFrom time l
    → AreFrom time (insert_at (later_than entry.request l) entry l)
unfolding AreFrom find_pos
AreFrom-insert_at entry time [] le h = (le, tt)
AreFrom-insert_at entry time (e ∷ l) le (first, h) =
    elim (Bool-cases (ltb entry.request e.request)) [
      | inl before ↦ rw (before, find_pos) (le, (ground arith, h))
      | inr behind ↦
          rw (behind, find_pos) (first, AreFrom-insert_at entry e.request l (ground arith) h)
    ]

-- Inserting an entry where there is room puts it in front of those that wait for a later time, and
-- the order is kept.
pub insert_pause_lem :
    (entry : Paused) (si : SchedulerInfo)
    → si.pause_count < length si.pause_queue
    → AreFrom 0 (paused si)
    → (paused (insert_pause entry si) ≡ insert_at (place_for entry.request si) entry (paused si))
      × AreFrom 0 (paused (insert_pause entry si))
unfolding insert_pause
insert_pause_lem entry si room ordered =
    let count : si.pause_count + 1 ≡ suc si.pause_count = omega arith in
    let inserted =
      open_gap_lem (place_for entry.request si) si.pause_count entry si.pause_queue
        (find_pos-le (λ (p : Paused). ltb entry.request p.request) si.pause_count si.pause_queue)
        room in
    rw count (
      rw inserted (
        refl,
        rw (find_pos-take entry.request si.pause_count si.pause_queue (omega arith))
            (AreFrom-insert_at entry 0 (paused si) (omega arith) ordered),
      ))
