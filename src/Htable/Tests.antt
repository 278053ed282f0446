-- ===== src/Htable/Tests.antt =====
-- A table of four slots.
use mathlib.Core.Option.{some-injective}
use spoon_microkernel.Prelude.{
  ℕ, zero, suc, ◌-◌, ◌^◌, ◌≡◌, refl, true, none, some, [], ◌∷◌, ◌==◌, Returns, arith,
}
use spoon_microkernel.Prelude.Int.{pos, negsuc}
use spoon_microkernel.Htable.{HashTable, insert, remove, get_nth, retrieve}
use spoon_microkernel.Htable.Lookup.{IsTable, Lookup, retrieve_lem}
use spoon_microkernel.Htable.Stores.{IsSound, KeysFit, Inserted}
use spoon_microkernel.Htable.Grow.{insert_total}

-- Pointers 5 and 9, with the keys 5 and 9, which both want slot 1.
abbrev two : HashTable ℕ
two = record { total = 2; size = 4; percent = 80; table = none ∷ some 5 ∷ some 9 ∷ none ∷ [] }

two-IsTable : IsTable two
two-IsTable = record { slots = omega arith; counted = refl }

retrieve_lem_example : Returns (retrieve (λ a. a == 9) (pos 9) two) (Lookup (λ a. a == 9) two)
retrieve_lem_example = retrieve_lem (λ a. a == 9) (pos 9) two two-IsTable (omega arith)

-- The pointers of the table have small keys.
two_fit : KeysFit pos 8 two
two_fit b (zero, lt, e) = cc
two_fit b (suc zero, lt, e) = let same = some-injective 5 b e in omega (arith, same)
two_fit b (suc (suc zero), lt, e) = let same = some-injective 9 b e in omega (arith, same)
two_fit b (suc (suc (suc zero)), lt, e) = cc
two_fit b (suc (suc (suc (suc p))), lt, e) = absurd (omega arith)

-- The key -2 ^ 31 has no positive counterpart: its first position is 0, and the next one halts a search
-- and is before the slots for `htable_remove`.
least_key :
    (retrieve (λ a. a == 6) (negsuc (2 ^ 31 - 1)) two ≡ none)
    × (remove (λ _. negsuc (2 ^ 31 - 1)) ◌==◌ (λ _. true) 1 9 two ≡ none)
unfolding retrieve remove
least_key = (refl, refl)

-- With a limit of 50 percent the table grows.
full-IsSound : IsSound (record two { percent = 50 })
full-IsSound = record {
  table = record { slots = omega arith; counted = refl };
  sized = refl;
  half = omega arith;
}

insert_total_example :
    Returns
      (insert pos (λ n. true) 2 13 (record two { percent = 50 }))
      (Inserted 13 (record two { percent = 50 }))
insert_total_example =
    insert_total pos (λ n. true) 0 13 (record two { percent = 50 }) full-IsSound (omega arith)
      (omega arith) two_fit

-- With a limit of 50 percent the table doubles first, and 13 then stands behind 5 in slot 6.
grows : Returns (insert pos (λ n. true) 2 13 (record two { percent = 50 })) (λ r.
    (r.1.size ≡ 8) × (r.1.total ≡ 3) × (retrieve (λ a. a == 13) (pos 13) r.1 ≡ some (some 13)))
unfolding insert retrieve
grows = (refl, refl, refl)

shrinks : Returns (remove pos (λ a b. a == b) (λ n. true) 1 9 two) (λ r.
    (r.1.total ≡ 1) × (retrieve (λ a. a == 9) (pos 9) r.1 ≡ some none) × (get_nth 0 r.1 ≡ some 5))
unfolding remove retrieve get_nth
shrinks = (refl, refl, refl)
