-- ===== src/Prelude/Windows.antt =====
-- A stretch of a list: `k` elements from place `a` on.
use Prim.Native.Nat.{ℕ, zero, suc, ◌+◌, ◌≤◌, ◌<◌}
use mathlib.Core.Path.{◌≡◌, refl, ap}
use mathlib.Core.List.{List, [], ◌∷◌, ◌++◌}
use native.Mathlib.Omega.{arith}
use spoon_microkernel.Prelude.Lists.{length, get_or, set, take, drop}

module _ {ℓ} {A : Type ℓ} where
  abbrev pub window : ℕ → ℕ → List A → List A
  window a k xs = take k (drop a xs)

  pub window-nil : (a k : ℕ) → window a k [] ≡ []
  window-nil zero zero = refl
  window-nil zero (suc k) = refl
  window-nil (suc a) zero = refl
  window-nil (suc a) (suc k) = refl

  -- A write just past the stretch extends it.
  pub window-set :
      (a k i : ℕ) (xs : List A) (v : A)
      → i ≡ a + k
      → i < length xs
      → window a (suc k) (set xs i v) ≡ window a k xs ++ (v ∷ [])
  window-set a k i [] v e h = absurd (omega arith)
  window-set zero zero zero (x ∷ xs) v e h = refl
  window-set zero zero (suc i) (x ∷ xs) v e h = absurd (omega arith)
  window-set zero (suc k) zero (x ∷ xs) v e h = absurd (omega arith)
  window-set zero (suc k) (suc i) (x ∷ xs) v e h =
      ap (λ l. x ∷ l) (window-set zero k i xs v (omega arith) (omega arith))
  window-set (suc a) k zero (x ∷ xs) v e h = absurd (omega arith)
  window-set (suc a) k (suc i) (x ∷ xs) v e h = window-set a k i xs v (omega arith) (omega arith)

  -- What is appended past the stretch does not show in it.
  pub window-append :
      (a k : ℕ) (xs ys : List A) → a + k ≤ length xs → window a k (xs ++ ys) ≡ window a k xs
  window-append zero zero xs ys h = refl
  window-append zero (suc k) [] ys h = absurd (omega arith)
  window-append zero (suc k) (x ∷ xs) ys h =
      ap (λ l. x ∷ l) (window-append zero k xs ys (omega arith))
  window-append (suc a) k [] ys h = absurd (omega arith)
  window-append (suc a) k (x ∷ xs) ys h = window-append a k xs ys (omega arith)

  -- A stretch that is not empty begins with the element at its place.
  pub window-suc :
      (a k : ℕ) (xs : List A) (d : A)
      → a < length xs
      → window a (suc k) xs ≡ get_or xs a d ∷ window (suc a) k xs
  window-suc a k [] d h = absurd (omega arith)
  window-suc zero k (x ∷ xs) d h = refl
  window-suc (suc a) k (x ∷ xs) d h = window-suc a k xs d (omega arith)

  -- A stretch behind a prefix.
  pub window-append_right :
      (a b k : ℕ) (xs ys : List A) → b ≡ length xs + a → window b k (xs ++ ys) ≡ window a k ys
  window-append_right a b k [] ys e = let e' : b ≡ a = omega arith in rw e'
  window-append_right a zero k (x ∷ xs) ys e = absurd (omega arith)
  window-append_right a (suc b) k (x ∷ xs) ys e = window-append_right a b k xs ys (omega arith)

  pub get_or-append_right :
      (i j : ℕ) (xs ys : List A) (d : A) → j ≡ length xs + i → get_or (xs ++ ys) j d ≡ get_or ys i d
  get_or-append_right i j [] ys d e = let e' : j ≡ i = omega arith in rw e'
  get_or-append_right i zero (x ∷ xs) ys d e = absurd (omega arith)
  get_or-append_right i (suc j) (x ∷ xs) ys d e = get_or-append_right i j xs ys d (omega arith)

  pub get_or-append_left :
      (i : ℕ) (xs ys : List A) (d : A) → i < length xs → get_or (xs ++ ys) i d ≡ get_or xs i d
  get_or-append_left i [] ys d h = absurd (omega arith)
  get_or-append_left zero (x ∷ xs) ys d h = refl
  get_or-append_left (suc i) (x ∷ xs) ys d h = get_or-append_left i xs ys d (omega arith)

  pub set-append_right :
      (i j : ℕ) (xs ys : List A) (v : A) → j ≡ length xs + i → set (xs ++ ys) j v ≡ xs ++ set ys i v
  set-append_right i j [] ys v e = let e' : j ≡ i = omega arith in rw e'
  set-append_right i zero (x ∷ xs) ys v e = absurd (omega arith)
  set-append_right i (suc j) (x ∷ xs) ys v e =
      ap (λ l. x ∷ l) (set-append_right i j xs ys v (omega arith))

  pub set-append_left :
      (i : ℕ) (xs ys : List A) (v : A) → i < length xs → set (xs ++ ys) i v ≡ set xs i v ++ ys
  set-append_left i [] ys v h = absurd (omega arith)
  set-append_left zero (x ∷ xs) ys v h = refl
  set-append_left (suc i) (x ∷ xs) ys v h =
      ap (λ l. x ∷ l) (set-append_left i xs ys v (omega arith))
