-- ===== src/Rwlock/Counts.antt =====
-- Counting the threads in a phase.
use mathlib.Core.Bool.{true≢false}
use spoon_microkernel.Prelude.{
  ℕ, zero, suc, ◌+◌, ◌<◌, ◌≤◌, ◌≡◌, ◌≢◌, refl, ap, sym, ◌∙◌, Bool, true, false, List, [], ◌∷◌,
  length, get_or, set, replicate, arith,
}
use spoon_microkernel.Rwlock.{Phase, outside}

abbrev pub mark : Bool → ℕ
mark true = 1
mark false = 0

mark-le : (b : Bool) → mark b ≤ 1
mark-le true = omega arith
mark-le false = omega arith

abbrev pub count : (Phase → Bool) → List Phase → ℕ
count p [] = 0
count p (x ∷ xs) = mark (p x) + count p xs

-- A thread that changes its phase leaves its old count and joins the new.
pub count-set :
    (p : Phase → Bool) (xs : List Phase) (i : ℕ) (x : Phase)
    → i < length xs
    → count p (set xs i x) + mark (p (get_or xs i outside)) ≡ count p xs + mark (p x)
count-set p [] i x lt = absurd (omega arith)
count-set p (y ∷ xs) zero x lt = omega arith
count-set p (y ∷ xs) (suc i) x lt = omega (arith, count-set p xs i x (omega arith))

pub count-replicate :
    (p : Phase → Bool) (n : ℕ) → p outside ≡ false → count p (replicate n outside) ≡ 0
count-replicate p zero e = refl
count-replicate p (suc n) e = rw e (omega (arith, count-replicate p n e))

pub count_one :
    (p : Phase → Bool) (xs : List Phase) (i : ℕ)
    → p outside ≡ false
    → p (get_or xs i outside) ≡ true
    → 1 ≤ count p xs
count_one p [] i none_out e = absurd (true≢false (sym e ∙ none_out))
count_one p (x ∷ xs) zero none_out e = rw e (omega arith)
count_one p (x ∷ xs) (suc i) none_out e = omega (arith, count_one p xs i none_out e)

pub count_two :
    (p : Phase → Bool) (xs : List Phase) (i j : ℕ)
    → p outside ≡ false
    → i ≢ j
    → p (get_or xs i outside) ≡ true
    → p (get_or xs j outside) ≡ true
    → 2 ≤ count p xs
count_two p [] i j none_out ne e f = absurd (true≢false (sym e ∙ none_out))
count_two p (x ∷ xs) zero zero none_out ne e f = absurd (ne refl)
count_two p (x ∷ xs) zero (suc j) none_out ne e f =
    rw e (omega (arith, count_one p xs j none_out f))
count_two p (x ∷ xs) (suc i) zero none_out ne e f =
    rw f (omega (arith, count_one p xs i none_out e))
count_two p (x ∷ xs) (suc i) (suc j) none_out ne e f =
    omega (arith, count_two p xs i j none_out (λ h. ne (ap suc h)) e f)

pub count-le : (p : Phase → Bool) (xs : List Phase) → count p xs ≤ length xs
count-le p [] = omega arith
count-le p (x ∷ xs) = omega (arith, mark-le (p x), count-le p xs)
