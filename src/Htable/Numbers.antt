-- ===== src/Htable/Numbers.antt =====
-- Numbers of the pointers in a hash table (kernel/src/ds/htable.c): a search for one that is not in use
-- passes each pointer once.
use mathlib.Core.Option.{some-injective}
use spoon_microkernel.Prelude.{
  ℕ, zero, suc, ◌<◌, ◌≤◌, ◌≡◌, ap, ◌∙◌, Bool, true, false, Option, none, some, List, [], ◌∷◌,
  get_or, leb, if◌then◌else◌, arith,
}
use spoon_microkernel.Prelude.Int.{ℤ, pos, negsuc}
use spoon_microkernel.Htable.Lookup.{occupied}

module _ (number : ℕ → ℤ) where
  -- Whether a number is at least `m`.
  abbrev reaches : ℕ → ℤ → Bool
  reaches m (pos n) = leb m n
  reaches m (negsuc n) = false

  -- How many of the stored pointers have a number from `m` on.
  abbrev pub above : ℕ → List (Option ℕ) → ℕ
  above m [] = 0
  above m (none ∷ slots) = above m slots
  above m (some p ∷ slots) =
      let rest = above m slots in if reaches m (number p) then suc rest else rest

  pub above-occupied : (m : ℕ) (slots : List (Option ℕ)) → above m slots ≤ occupied slots
  above-occupied m [] = omega arith
  above-occupied m (none ∷ slots) = above-occupied m slots
  above-occupied m (some p ∷ slots) = ground (arith, above-occupied m slots)

  reaches_less : (m : ℕ) (z : ℤ) → reaches (suc m) z ≡ true → reaches m z ≡ true
  reaches_less m (pos n) h = ground arith
  reaches_less m (negsuc n) h = cc

  above_mono : (m : ℕ) (slots : List (Option ℕ)) → above (suc m) slots ≤ above m slots
  above_mono m [] = omega arith
  above_mono m (none ∷ slots) = above_mono m slots
  above_mono m (some p ∷ slots) = ground (arith, above_mono m slots, reaches_less m (number p))

  reaches_self : (m : ℕ) (z : ℤ) → z ≡ pos m → (reaches m z ≡ true) × (reaches (suc m) z ≡ false)
  reaches_self m z e = rw e (ground arith, ground arith)

  -- A number that is in use is passed once.
  pub above-drops :
      (m : ℕ) (slots : List (Option ℕ)) (p a : ℕ)
      → get_or slots p none ≡ some a
      → number a ≡ pos m
      → above (suc m) slots < above m slots
  above-drops m [] p a at e = cc
  above-drops m (none ∷ slots) zero a at e = cc
  above-drops m (none ∷ slots) (suc p) a at e = above-drops m slots p a at e
  above-drops m (some b ∷ slots) zero a at e =
      let own : number b ≡ pos m = ap (λ (x : ℕ). number x) (some-injective b a at) ∙ e in
      let (here, next) = reaches_self m (number b) own in
      rw (here, next) (omega (arith, above_mono m slots))
  above-drops m (some b ∷ slots) (suc p) a at e =
      ground (arith, above-drops m slots p a at e, reaches_less m (number b))
