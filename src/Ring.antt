-- ===== src/Ring.antt =====
-- An array of 32 elements used as a ring, as the queues of the garbage collector and of the fast
-- threads are.
use native.Mathlib.Nat.{mod-lt}
use spoon_microkernel.Prelude.{
  ℕ, zero, suc, ◌+◌, ◌%◌, ◌<◌, ◌≡◌, refl, ap, sym, ◌∙◌, Bool, false, List, [], ◌∷◌, ◌++◌, length,
  set, get_or, ◌==◌, if◌then◌else◌, arith,
}

abbrev pub ring_size : ℕ
ring_size = 32

module _ {A : Type 0} (nothing : A) where
  -- `n` entries of the ring from place `i` on.
  unfoldable pub ring : (slots : List A) (i n : ℕ) → List A
  ring slots i zero = []
  ring slots i (suc n) = get_or slots (i % ring_size) nothing ∷ ring slots (i + 1) n

module _ {A : Type 0} (nothing : A) where
  get_or-set :
      (l : List A) (i j : ℕ) (o : A)
      → i < length l
      → get_or (set l i o) j nothing ≡ (if i == j then o else get_or l j nothing)
  get_or-set [] i j o lt = absurd (omega arith)
  get_or-set (x ∷ l) zero zero o lt = ground arith
  get_or-set (x ∷ l) zero (suc j) o lt = ground arith
  get_or-set (x ∷ l) (suc i) zero o lt = ground arith
  get_or-set (x ∷ l) (suc i) (suc j) o lt = ground (arith, get_or-set l i j o (omega arith))

  cons_cong : {a b : A} {l r : List A} → a ≡ b → l ≡ r → (a ∷ l) ≡ (b ∷ r)
  cons_cong p q = λ i. p i ∷ q i

  -- A write at the end adds an entry.
  pub ring-set :
      (slots : List A) (i n : ℕ) (o : A)
      → length slots ≡ ring_size
      → n < ring_size
      → ring nothing (set slots ((i + n) % ring_size) o) i (suc n)
        ≡ ring nothing slots i n ++ (o ∷ [])
  unfolding ring
  ring-set slots i zero o sized lt =
      let at : (i + 0) % ring_size ≡ i % ring_size = omega arith in
      rw at (
        ap (λ (x : A). x ∷ [])
          (get_or-set slots (i % ring_size) (i % ring_size) o (omega (arith, mod-lt i))
            ∙ ground arith))
  ring-set slots i (suc n) o sized lt =
      let next : i + suc n ≡ i + 1 + n = omega arith in
      let apart : ((i + suc n) % ring_size == i % ring_size) ≡ false = ground arith in
      cons_cong
        (get_or-set slots ((i + suc n) % ring_size) (i % ring_size) o
            (omega (arith, mod-lt (i + suc n)))
          ∙ ap (λ (b : Bool). if b then o else get_or slots (i % ring_size) nothing) apart)
        (ap (λ (m : ℕ). ring nothing (set slots (m % ring_size) o) (i + 1) (suc n)) next
          ∙ ring-set slots (i + 1) n o sized (omega arith))

  pub length-ring : (slots : List A) (i n : ℕ) → length (ring nothing slots i n) ≡ n
  unfolding ring
  length-ring slots i zero = refl
  length-ring slots i (suc n) = ap suc (length-ring slots (i + 1) n)

  -- A place past the end of the array is the one it wraps to.
  pub ring-mod :
      (slots : List A) (i n : ℕ) → ring nothing slots (i % ring_size) n ≡ ring nothing slots i n
  unfolding ring
  ring-mod slots i zero = refl
  ring-mod slots i (suc n) =
      let head : i % ring_size % ring_size ≡ i % ring_size = omega arith in
      let next : (i % ring_size + 1) % ring_size ≡ (i + 1) % ring_size = omega arith in
      cons_cong (ap (λ (j : ℕ). get_or slots j nothing) head) (
        sym (ring-mod slots (i % ring_size + 1) n)
        ∙ ap (λ (j : ℕ). ring nothing slots j n) next
        ∙ ring-mod slots (i + 1) n)
