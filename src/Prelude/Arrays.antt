-- ===== src/Prelude/Arrays.antt =====
-- The loops that open and close a gap in an array, and what they do to its used part.
use Prim.Native.Nat.{ℕ, zero, suc, ◌+◌, ◌-◌, ◌≤◌, ◌<◌}
use mathlib.Core.Path.{◌≡◌, refl, ap, ◌∙◌}
use mathlib.Core.Bool.{Bool}
use mathlib.Core.List.{List, [], ◌∷◌}
use mathlib.Core.Option.{none, some}
use native.Mathlib.Omega.{arith}
use spoon_microkernel.Prelude.Tests.{if◌then◌else◌}
use spoon_microkernel.Prelude.Lists.{length, get_elem?, set, take, length-set}

module _ {ℓ} {A : Type ℓ} where
  -- `for (pos = 0; pos < count; pos++) if (test(a[pos])) break;`: the final `pos`.
  unfoldable pub find_pos : (A → Bool) → (count : ℕ) → List A → ℕ
  find_pos test zero a = 0
  find_pos test (suc count) [] = 0
  find_pos test (suc count) (x ∷ a) = if test x then 0 else suc (find_pos test count a)

  -- `a[i] = a[j]`
  abbrev pub copy : (i j : ℕ) → List A → List A
  copy i j a = elim (get_elem? a j) [ none ↦ a | some x ↦ set a i x ]

  -- `for (...; i++) a[i] = a[i + 1];` for a number of rounds from `i` on.
  pub shift_down : (rounds i : ℕ) → List A → List A
  shift_down zero i a = a
  shift_down (suc rounds) i a = shift_down rounds (suc i) (copy i (suc i) a)

  -- `for (...; i--) a[i] = a[i - 1];` for a number of rounds from `i` down.
  pub shift_up : (rounds i : ℕ) → List A → List A
  shift_up zero i a = a
  shift_up (suc rounds) zero a = a
  shift_up (suc rounds) (suc i) a = shift_up rounds i (copy (suc i) i a)

  -- `for (i = pos; i < count - 1; i++) a[i] = a[i + 1];`
  unfoldable pub close_gap : (pos count : ℕ) → List A → List A
  unfolding shift_down
  close_gap pos count a = shift_down (count - 1 - pos) pos a

  -- `for (i = count; i > pos; i--) a[i] = a[i - 1];`
  unfoldable pub open_gap : (pos count : ℕ) → List A → List A
  unfolding shift_up
  open_gap pos count a = shift_up (count - pos) count a

  -- The specifications.
  abbrev pub remove_at : ℕ → List A → List A
  remove_at i [] = []
  remove_at zero (x ∷ xs) = xs
  remove_at (suc i) (x ∷ xs) = x ∷ remove_at i xs

  abbrev pub insert_at : ℕ → A → List A → List A
  insert_at zero v xs = v ∷ xs
  insert_at (suc i) v [] = v ∷ []
  insert_at (suc i) v (x ∷ xs) = x ∷ insert_at i v xs

module _ {ℓ} {A : Type ℓ} where
  copy-cons : (i j : ℕ) (x : A) (a : List A) → copy (suc i) (suc j) (x ∷ a) ≡ x ∷ copy i j a
  copy-cons i j x a = ground arith

  shift_down-cons :
      (n i : ℕ) (x : A) (a : List A) → shift_down n (suc i) (x ∷ a) ≡ x ∷ shift_down n i a
  unfolding shift_down
  shift_down-cons zero i x a = refl
  shift_down-cons (suc n) i x a =
      rw (copy-cons i (suc i) x a) (shift_down-cons n (suc i) x (copy i (suc i) a))

  shift_down_front :
      (n : ℕ) (x : A) (a : List A) → n ≤ length a → take n (shift_down n 0 (x ∷ a)) ≡ take n a
  unfolding shift_down
  shift_down_front zero x a h = refl
  shift_down_front (suc n) x [] h = absurd (omega arith)
  shift_down_front (suc n) x (y ∷ a) h =
      rw (shift_down-cons n 0 y (y ∷ a)) (ap (λ l. y ∷ l) (shift_down_front n y a (omega arith)))

  -- Closing the gap at `pos` removes that element from the part in use.
  pub close_gap_lem :
      (pos count : ℕ) (a : List A)
      → pos < count
      → count ≤ length a
      → take (count - 1) (close_gap pos count a) ≡ remove_at pos (take count a)
  unfolding close_gap
  close_gap_lem pos zero a lt h = absurd (omega arith)
  close_gap_lem pos (suc c) [] lt h = absurd (omega arith)
  close_gap_lem zero (suc c) (x ∷ a) lt h =
      let e : suc c - 1 ≡ c = omega arith in
      let f : c - 0 ≡ c = omega arith in rw (e, f) (shift_down_front c x a (omega arith))
  close_gap_lem (suc pos) (suc zero) (x ∷ a) lt h = absurd (omega arith)
  close_gap_lem (suc pos) (suc (suc c)) (x ∷ a) lt h =
      let e : suc (suc c) - 1 ≡ suc c = omega arith in
      let f : suc c - suc pos ≡ c - pos = omega arith in
      let g : suc c - 1 ≡ c = omega arith in
      rw (e, f, shift_down-cons (c - pos) pos x a)
        (ap (λ l. x ∷ l) (rw g at (close_gap_lem pos (suc c) a (omega arith) (omega arith))))

  shift_up-cons :
      (n i : ℕ) (x : A) (a : List A) → n ≤ i → shift_up n (suc i) (x ∷ a) ≡ x ∷ shift_up n i a
  unfolding shift_up
  shift_up-cons zero i x a h = refl
  shift_up-cons (suc n) zero x a h = absurd (omega arith)
  shift_up-cons (suc n) (suc i) x a h =
      rw (copy-cons (suc i) i x a) (shift_up-cons n i x (copy (suc i) i a) (omega arith))

  shift_up_last :
      (n i k : ℕ) (a : List A)
      → i ≡ suc (n + k)
      → shift_up (suc n) i a ≡ copy (suc k) k (shift_up n i a)
  unfolding shift_up
  shift_up_last n zero k a e = absurd (omega arith)
  shift_up_last zero (suc i) k a e = let e' : i ≡ k = omega arith in rw e'
  shift_up_last (suc n) (suc i) k a e = shift_up_last n i k (copy (suc i) i a) (omega arith)

  open_gap_front :
      (c : ℕ) (v : A) (a : List A)
      → c < length a
      → take (suc c) (set (shift_up c c a) 0 v) ≡ v ∷ take c a
  unfolding shift_up
  open_gap_front c v [] h = absurd (omega arith)
  open_gap_front zero v (x ∷ a) h = refl
  open_gap_front (suc c) v (x ∷ a) h =
      rw (shift_up_last c (suc c) 0 (x ∷ a) (omega arith), shift_up-cons c c x a (omega arith))
        (ap (λ l. v ∷ l) (open_gap_front c x a (omega arith)))

  -- Opening a gap at `pos` and writing there inserts into the part in use.
  pub open_gap_lem :
      (pos count : ℕ) (v : A) (a : List A)
      → pos ≤ count
      → count < length a
      → take (suc count) (set (open_gap pos count a) pos v) ≡ insert_at pos v (take count a)
  unfolding open_gap
  open_gap_lem pos c v [] le h = absurd (omega arith)
  open_gap_lem zero c v (x ∷ a) le h =
      let e : c - 0 ≡ c = omega arith in rw e (open_gap_front c v (x ∷ a) h)
  open_gap_lem (suc pos) zero v (x ∷ a) le h = absurd (omega arith)
  open_gap_lem (suc pos) (suc c) v (x ∷ a) le h =
      let e : suc c - suc pos ≡ c - pos = omega arith in
      rw (e, shift_up-cons (c - pos) c x a (omega arith))
        (ap (λ l. x ∷ l) (open_gap_lem pos c v a (omega arith) (omega arith)))

  length-copy : (i j : ℕ) (a : List A) → length (copy i j a) ≡ length a
  length-copy i j a =
      elim (get_elem? a j) as (λ o. length (elim o [ none ↦ a | some x ↦ set a i x ]) ≡ length a) [
        | none ↦ refl
        | some x ↦ length-set a i x
      ]

  length-shift_down : (n i : ℕ) (a : List A) → length (shift_down n i a) ≡ length a
  unfolding shift_down
  length-shift_down zero i a = refl
  length-shift_down (suc n) i a =
      length-shift_down n (suc i) (copy i (suc i) a) ∙ length-copy i (suc i) a

  pub length-close_gap : (pos count : ℕ) (a : List A) → length (close_gap pos count a) ≡ length a
  unfolding close_gap
  length-close_gap pos count a = length-shift_down (count - 1 - pos) pos a

  length-shift_up : (n i : ℕ) (a : List A) → length (shift_up n i a) ≡ length a
  unfolding shift_up
  length-shift_up zero i a = refl
  length-shift_up (suc n) zero a = refl
  length-shift_up (suc n) (suc i) a =
      length-shift_up n i (copy (suc i) i a) ∙ length-copy (suc i) i a

  pub length-open_gap : (pos count : ℕ) (a : List A) → length (open_gap pos count a) ≡ length a
  unfolding open_gap
  length-open_gap pos count a = length-shift_up (count - pos) count a

  pub find_pos-le : (test : A → Bool) (count : ℕ) (a : List A) → find_pos test count a ≤ count
  unfolding find_pos
  find_pos-le test zero a = omega arith
  find_pos-le test (suc count) [] = omega arith
  find_pos-le test (suc count) (x ∷ a) = ground (arith, find_pos-le test count a)
