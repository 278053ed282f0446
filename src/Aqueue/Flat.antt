-- ===== src/Aqueue/Flat.antt =====
-- The pages of a queue laid end to end.
use spoon_microkernel.Prelude.{
  ℕ, zero, suc, ◌+◌, ◌*◌, ◌<◌, ◌≡◌, ap, sym, ◌∙◌, Option, none, List, [], ◌∷◌, ◌++◌, length, get_or,
  set, length-append, length-set, get_or-append_left, get_or-append_right, set-append_left,
  set-append_right, arith,
}
use mathlib.Core.List.{append-nil, append_assoc}
use spoon_microkernel.Aqueue.{Page}

module _ {A : Type 0} where
  abbrev pub flat : List (Page A) → List (Option A)
  flat [] = []
  flat (page ∷ rest) = page ++ flat rest

  -- Every page has `n` slots.
  abbrev pub Sized : ℕ → List (Page A) → Type 0
  Sized n [] = Unit
  Sized n (page ∷ rest) = (length page ≡ n) × Sized n rest

  pub length-flat : (n : ℕ) (c : List (Page A)) → Sized n c → length (flat c) ≡ length c * n
  length-flat n [] h = omega arith
  length-flat n (page ∷ rest) h =
      omega (arith, length-append page (flat rest), length-flat n rest h.1, h.0)

  pub flat-append : (c : List (Page A)) (page : Page A) → flat (c ++ (page ∷ [])) ≡ flat c ++ page
  flat-append [] page = append-nil page
  flat-append (p ∷ rest) page = rw (flat-append rest page) (sym (append_assoc p (flat rest) page))

  pub Sized-append :
      (n : ℕ) (c : List (Page A)) (page : Page A)
      → Sized n c
      → length page ≡ n
      → Sized n (c ++ (page ∷ []))
  Sized-append n [] page h e = (e, tt)
  Sized-append n (p ∷ rest) page h e = (h.0, Sized-append n rest page h.1 e)

  -- A page and a place in it are one place in the whole.
  pub get_or-flat :
      (n : ℕ) (c : List (Page A)) (p i k : ℕ)
      → Sized n c
      → i < n
      → p < length c
      → k ≡ p * n + i
      → get_or (get_or c p []) i none ≡ get_or (flat c) k none
  get_or-flat n [] p i k s hi hp e = absurd (omega arith)
  get_or-flat n (page ∷ rest) zero i k s hi hp e =
      let e' : k ≡ i = omega arith in
      rw e' (sym (get_or-append_left i page (flat rest) none (omega (arith, s.0))))
  get_or-flat n (page ∷ rest) (suc p) i k s hi hp e =
      get_or-flat n rest p i (p * n + i) s.1 hi (omega arith) (omega arith)
      ∙ sym (get_or-append_right (p * n + i) k page (flat rest) none (omega (arith, s.0)))

  pub Sized-set :
      (n : ℕ) (c : List (Page A)) (p i : ℕ) (v : Option A)
      → Sized n c
      → Sized n (set c p (set (get_or c p []) i v))
  Sized-set n [] p i v s = tt
  Sized-set n (page ∷ rest) zero i v s = (length-set page i v ∙ s.0, s.1)
  Sized-set n (page ∷ rest) (suc p) i v s = (s.0, Sized-set n rest p i v s.1)

  pub flat-set :
      (n : ℕ) (c : List (Page A)) (p i k : ℕ) (v : Option A)
      → Sized n c
      → i < n
      → p < length c
      → k ≡ p * n + i
      → flat (set c p (set (get_or c p []) i v)) ≡ set (flat c) k v
  flat-set n [] p i k v s hi hp e = absurd (omega arith)
  flat-set n (page ∷ rest) zero i k v s hi hp e =
      let e' : k ≡ i = omega arith in
      rw (e', set-append_left i page (flat rest) v (omega (arith, s.0)))
  flat-set n (page ∷ rest) (suc p) i k v s hi hp e =
      ap (λ l. page ++ l) (flat-set n rest p i (p * n + i) v s.1 hi (omega arith) (omega arith))
      ∙ sym (set-append_right (p * n + i) k page (flat rest) v (omega (arith, s.0)))
