-- ===== src/Prelude/Members.antt =====
-- Lists whose elements all have a property, or are all different.
use Prim.Native.Nat.{ℕ}
use mathlib.Core.Path.{sym}
use mathlib.Core.Logic.{◌≢◌}
use mathlib.Core.List.{List, [], ◌∷◌, ◌++◌}

module _ {ℓ κ} {A : Type ℓ} where
  abbrev pub All : (A → Type κ) → List A → Type κ
  All P [] = Unit
  All P (x ∷ xs) = P x × All P xs

  pub All-append : (P : A → Type κ) (xs ys : List A) → All P xs → All P ys → All P (xs ++ ys)
  All-append P [] ys hx hy = hy
  All-append P (x ∷ xs) ys hx hy = (hx.0, All-append P xs ys hx.1 hy)

  pub All-left : (P : A → Type κ) (xs ys : List A) → All P (xs ++ ys) → All P xs
  All-left P [] ys h = tt
  All-left P (x ∷ xs) ys h = (h.0, All-left P xs ys h.1)

  pub All-right : (P : A → Type κ) (xs ys : List A) → All P (xs ++ ys) → All P ys
  All-right P [] ys h = h
  All-right P (x ∷ xs) ys h = All-right P xs ys h.1

  pub All-map : (P Q : A → Type κ) (xs : List A) → ((x : A) → P x → Q x) → All P xs → All Q xs
  All-map P Q [] f h = tt
  All-map P Q (x ∷ xs) f h = (f x h.0, All-map P Q xs f h.1)

-- A pointer that is none of the list's.
abbrev pub Fresh : ℕ → List ℕ → Type 0
Fresh p l = All (λ q. p ≢ q) l

abbrev pub Distinct : List ℕ → Type 0
Distinct [] = Unit
Distinct (p ∷ l) = Fresh p l × Distinct l

pub Distinct-left : (xs ys : List ℕ) → Distinct (xs ++ ys) → Distinct xs
Distinct-left [] ys d = tt
Distinct-left (x ∷ xs) ys d = (All-left (λ q. x ≢ q) xs ys d.0, Distinct-left xs ys d.1)

pub Distinct-right : (xs ys : List ℕ) → Distinct (xs ++ ys) → Distinct ys
Distinct-right [] ys d = d
Distinct-right (x ∷ xs) ys d = Distinct-right xs ys d.1

-- A pointer of the second list is none of the first.
pub Distinct-middle : (xs : List ℕ) (y : ℕ) (ys : List ℕ) → Distinct (xs ++ y ∷ ys) → Fresh y xs
Distinct-middle [] y ys d = tt
Distinct-middle (x ∷ xs) y ys d =
    let apart = All-right (λ q. x ≢ q) xs (y ∷ ys) d.0 in
    (λ e. apart.0 (sym e), Distinct-middle xs y ys d.1)

pub Distinct-append :
    (xs ys : List ℕ) → Distinct xs → Distinct ys → All (λ x. Fresh x ys) xs → Distinct (xs ++ ys)
Distinct-append [] ys d e a = e
Distinct-append (x ∷ xs) ys d e a =
    (All-append (λ q. x ≢ q) xs ys d.0 a.0, Distinct-append xs ys d.1 e a.1)

pub Distinct-apart : (xs ys : List ℕ) → Distinct (xs ++ ys) → All (λ x. Fresh x ys) xs
Distinct-apart [] ys d = tt
Distinct-apart (x ∷ xs) ys d = (All-right (λ q. x ≢ q) xs ys d.0, Distinct-apart xs ys d.1)
