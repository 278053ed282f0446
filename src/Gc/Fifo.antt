-- ===== src/Gc/Fifo.antt =====
-- The queue is a first-in first-out queue of at most `max_gc` entries.
use native.Mathlib.Nat.{mod-lt}
use native.Mathlib.Decide.{ℕ_discrete}
use spoon_microkernel.Prelude.{
  ℕ, zero, suc, ◌+◌, ◌-◌, ◌%◌, ◌<◌, ◌≤◌, ◌≡◌, ◌⊎◌, refl, ap, ◌∙◌, inl, inr, true, false, none, some,
  List, [], ◌∷◌, ◌++◌, length, length-set, set, get_or, ltb, ◌==◌, arith, Returns,
}
use spoon_microkernel.Prelude.Int.{ℤ, pos, minus_one}
use spoon_microkernel.Ring.{ring, ring-set, ring-mod, length-ring}
use spoon_microkernel.Gc.{GcInfo, GcQueue, max_gc, no_info, gc_queue, gc_has_work, gc_peek, gc_next}

-- The entries that wait, the first in front.
abbrev pub waiting : GcQueue → List GcInfo
waiting q = ring no_info q.info q.place q.size

pub record IsGcQueue (q : GcQueue) : Type 0 where
  pub sized : length q.info ≡ max_gc
  pub inside : q.place < max_gc
  pub within : q.size ≤ max_gc

-- What `gc_has_work`, `gc_peek` and `gc_next` do with the entries that wait.
abbrev pub Shows : (q : GcQueue) → List GcInfo → Type 0
Shows q [] = (gc_has_work q ≡ minus_one) × (gc_peek q ≡ none) × (gc_next q ≡ none)
Shows q (o ∷ l) =
    (gc_has_work q ≡ pos 0)
    × (gc_peek q ≡ some o)
    × Returns (gc_next q) (λ q'. (waiting q' ≡ l) × IsGcQueue q')

-- What `gc_queue` does to them.
abbrev pub Queued : (o : GcInfo) (q : GcQueue) → ℤ × GcQueue → Type 0
Queued o q r =
    ((length (waiting q) < max_gc)
      × (r.0 ≡ pos 0)
      × (waiting r.1 ≡ waiting q ++ (o ∷ []))
      × IsGcQueue r.1)
    ⊎ ((length (waiting q) ≡ max_gc) × (r ≡ (minus_one, q)))

module _ {q : GcQueue} (v : IsGcQueue q) where
  -- `gc_queue` adds an entry behind the others, or fails and changes nothing where 32 of them wait.
  pub gc_queue_refines : (o : GcInfo) → Queued o q (gc_queue o q)
  unfolding gc_queue
  gc_queue_refines o = elim (ℕ_discrete q.size max_gc) [
    | yes full ↦
        let stop : (q.size == max_gc) ≡ true = ground arith in
        rw (stop, gc_queue) (inr (length-ring no_info q.info q.place q.size ∙ full, refl))
    | no room ↦
        let goes : (q.size == max_gc) ≡ false = ground arith in
        let more : q.size + 1 ≡ suc q.size = omega arith in
        rw (goes, gc_queue)
          (inl (
            omega (arith, length-ring no_info q.info q.place q.size, v.within),
            refl,
            ap (ring no_info (set q.info ((q.place + q.size) % max_gc) o) q.place) more
                ∙ ring-set no_info q.info q.place q.size o v.sized (omega (arith, v.within)),
            record {
              sized = length-set q.info ((q.place + q.size) % max_gc) o ∙ v.sized;
              inside = v.inside;
              within = omega (arith, v.within);
            },
          ))
  ]

  empty_queue : q.size ≡ 0 → (gc_has_work q ≡ minus_one) × (gc_peek q ≡ none) × (gc_next q ≡ none)
  unfolding gc_has_work gc_peek gc_next
  empty_queue e =
      let none_waits : (q.size == 0) ≡ true = ground arith in
      let fails : ltb 0 q.size ≡ false = ground arith in
      (rw (none_waits, gc_has_work) refl, rw (none_waits, gc_peek) refl, rw (fails, gc_next) refl)

  some_queue :
      0 < q.size
      → (gc_has_work q ≡ pos 0)
        × (gc_peek q ≡ some (get_or q.info q.place no_info))
        × (gc_next q ≡ some (record q { place = (q.place + 1) % max_gc; size = q.size - 1 }))
  unfolding gc_has_work gc_peek gc_next
  some_queue lt =
      let waits : (q.size == 0) ≡ false = ground arith in
      let holds : ltb 0 q.size ≡ true = ground arith in
      (rw (waits, gc_has_work) refl, rw (waits, gc_peek) refl, rw (holds, gc_next) refl)

  -- `gc_has_work` tells whether an entry waits, `gc_peek` shows the first, and `gc_next` removes it; where none waits, `gc_peek` finds
  -- nothing and the assertion of `gc_next` fails.
  pub gc_next_refines : Shows q (waiting q)
  unfolding ring
  gc_next_refines = shows q.size refl
    where
      shows : (n : ℕ) → q.size ≡ n → Shows q (ring no_info q.info q.place n)
      shows zero e = empty_queue e
      shows (suc n) e =
          let (work, peek, next) = some_queue (omega arith) in
          let first : q.place ≡ q.place % max_gc = omega (arith, v.inside) in
          let fewer : q.size - 1 ≡ n = omega arith in
          (
            work,
            peek ∙ ap (λ (j : ℕ). some (get_or q.info j no_info)) first,
            rw next (
              ap (ring no_info q.info ((q.place + 1) % max_gc)) fewer
                  ∙ ring-mod no_info q.info (q.place + 1) n,
              record {
                sized = v.sized;
                inside = mod-lt (q.place + 1) (omega arith);
                within = omega (arith, v.within);
              },
            ),
          )
