-- ===== src/Htable/Erase.antt =====
-- `htable_remove` on any table that holds the pointer: it may shrink, and it keeps the other pointers.
use native.Mathlib.Decide.{ℕ_discrete}
use native.Mathlib.Nat.{mod-lt, div-lt_iff_lt-mul}
use mathlib.Core.Option.{some-injective}
use spoon_microkernel.Prelude.{
  ℕ, zero, suc, ◌+◌, ◌-◌, ◌*◌, ◌/◌, ◌%◌, ◌<◌, ◌≤◌, ◌≡◌, ◌≢◌, ◌⊎◌, inl, inr, refl, ap, sym, ◌∙◌,
  Bool, true, false, ◌&&◌, Bool-cases, Option, none, some, List, [], ◌∷◌, length-set, replicate,
  get_or, set, ltb, ◌==◌, if◌then◌else◌, Returns, Returns-bind, Returns-map, ◌>>=◌, ◌^◌, arith,
}
use spoon_microkernel.Prelude.Int.{ℤ, pos}
use spoon_microkernel.Ports.Blocks.{get_or-set_ne}
use spoon_microkernel.Htable.{HashTable, magnitude, rehash, insert, erase, remove}
use spoon_microkernel.Htable.Slots.{position_lem}
use spoon_microkernel.Htable.Lookup.{occupied, round_of}
use spoon_microkernel.Htable.Stores.{Holds, IsSound, KeysFit}
use spoon_microkernel.Htable.Refill.{Refills, rehash_lem}

module _ {A : Type 0} where
  occupied-clear :
      (slots : List (Option A)) (p : ℕ) (a : A)
      → get_or slots p none ≡ some a
      → suc (occupied (set slots p none)) ≡ occupied slots
  occupied-clear [] p a e = cc
  occupied-clear (none ∷ slots) zero a e = cc
  occupied-clear (some b ∷ slots) zero a e = refl
  occupied-clear (none ∷ slots) (suc p) a e = occupied-clear slots p a e
  occupied-clear (some b ∷ slots) (suc p) a e = ap suc (occupied-clear slots p a e)

  abbrev cleared : HashTable A → ℕ → HashTable A
  cleared t p = record t { table = set t.table p none; total = t.total - 1 }

  -- One slot with the pointer is cleared.
  unfoldable Erased : (t : HashTable A) → A → HashTable A → Type 0
  Erased t a t' = (p : ℕ) × (p < t.size) × (get_or t.table p none ≡ some a) × (t' ≡ cleared t p)

  -- What taking a pointer out does to the others.
  pub record Drops (a : A) (t t' : HashTable A) : Type 0 where
    pub sound : IsSound t'
    pub total : suc t'.total ≡ t.total
    pub percent : t'.percent ≡ t.percent
    pub others : (b : A) → b ≢ a → Holds t b → Holds t' b

  Erased-Drops : (t t' : HashTable A) (a : A) → IsSound t → Erased t a t' → Drops a t t'
  unfolding Erased
  Erased-Drops t t' a s (p, lt, at, e) = rw e (record {
    sound = record {
      table = record {
        slots = s.table.slots;
        counted = omega (arith, s.table.counted, occupied-clear t.table p a at);
      };
      sized = length-set t.table p none ∙ s.sized;
      half = s.half;
    };
    total = omega (arith, s.table.counted, occupied-clear t.table p a at);
    percent = refl;
    others = λ b other h. (
      h.0,
      h.1,
      get_or-set_ne t.table p h.0 none none (λ same. absurd (
            other (
              some-injective b a
                (sym h.2 ∙ ap (λ (i : ℕ). get_or t.table i none) (sym same) ∙ at))))
          ∙ h.2,
    );
  })

  -- Pointers are compared by `same`.
  pub record Compares (same : A → A → Bool) : Type 0 where
    pub equal : (a : A) → same a a ≡ true
    pub only : (a b : A) → same a b ≡ true → a ≡ b

  module _ (same : A → A → Bool) (c : Compares same) where
    erase_round :
        (position : ℕ) (a : A) (t : HashTable A) (rest : Option (HashTable A)) (o : Option A)
        → position < t.size
        → get_or t.table position none ≡ o
        → (o ≢ some a → Returns rest (Erased t a))
        → Returns
            (elim o [ none ↦ rest | some b ↦ if same a b then some (cleared t position) else rest ])
            (Erased t a)
    unfolding Erased
    erase_round position a t rest none lt e later = later (λ h. cc)
    erase_round position a t rest (some b) lt e later = elim (Bool-cases (same a b)) [
      | inl hit ↦ rw hit (position, lt, e ∙ ap some (sym (c.only a b hit)), refl)
      | inr miss ↦
          rw miss (later (λ h. differ (sym miss ∙ ap (same a) (some-injective b a h) ∙ c.equal a)))
    ]
      where
        differ : false ≢ true
        differ h = cc

    erase_lem :
        (key rounds i j : ℕ) (a : A) (t : HashTable A)
        → 0 < t.size
        → i + rounds + key ≤ 2 ^ 31
        → i ≤ j
        → j < i + rounds
        → get_or t.table ((j + key) % t.size) none ≡ some a
        → Returns (erase (same a) key rounds i t) (Erased t a)
    unfolding erase
    erase_lem key zero i j a t slots small le lt at = absurd (omega arith)
    erase_lem key (suc rounds) i j a t slots small le lt at =
        rw (position_lem (i + key) t.size (omega arith), erase)
          (erase_round ((i + key) % t.size) a t (erase (same a) key rounds (i + 1) t)
            (get_or t.table ((i + key) % t.size) none) (mod-lt (i + key) slots) refl
            (λ other. elim (ℕ_discrete i j) [
              | yes here ↦
                  absurd (other (ap (λ x. get_or t.table ((x + key) % t.size) none) here ∙ at))
              | no there ↦
                  erase_lem key rounds (i + 1) j a t slots (omega arith) (omega arith) (omega arith)
                    at
            ]))

    -- Some round meets the pointer.
    erase-Drops :
        (key : ℕ) (a : A) (t : HashTable A)
        → IsSound t
        → Holds t a
        → key + t.size ≤ 2 ^ 31
        → Returns (erase (same a) key t.size 0 t) (Drops a t)
    erase-Drops key a t s (p, lt, at) small =
        let (j, below, here) = round_of p key t.size lt in
        Returns-map (erase (same a) key t.size 0 t) (Erased t a) (Drops a t)
          (λ t' e. Erased-Drops t t' a s e)
          (erase_lem key t.size 0 j a t s.table.slots (omega arith) (omega arith) (omega arith)
            (ap (λ x. get_or t.table x none) here ∙ at))

-- A table that shrinks has few pointers.
few_enough :
    (n size percent : ℕ)
    → percent ≤ 80
    → (ltb ((n - 1) * 100 / size) (percent / 4) && ltb 32 size) ≡ true
    → (n < size / 4) × (size / 4 * 2 ≤ size / 2)
few_enough n size percent low shrinks =
    let large : 32 < size = ground (arith, shrinks) in
    let sparse : (n - 1) * 100 / size < percent / 4 = ground (arith, shrinks) in
    let below : (n - 1) * 100 / size < 20 = omega (arith, sparse) in
    let linear : (n - 1) * 100 < 20 * size =
      (div-lt_iff_lt-mul {k = size} {x = (n - 1) * 100} {y = 20} (omega (arith, large))).0 below in
    (omega (arith, linear, large), omega arith)

holds_some :
    {A : Type 0} (slots : List (Option A)) (p : ℕ) (a : A)
    → get_or slots p none ≡ some a
    → 0 < occupied slots
holds_some slots p a e = omega (arith, occupied-clear slots p a e)

-- Behind the change of size, whether there was memory for it or not.
erase_after :
    {A : Type 0} (key : A → ℤ) (same : A → A → Bool) (memory : ℕ → Bool) (fuel size : ℕ) (a : A)
    (t u : HashTable A)
    → Compares same
    → IsSound t
    → Holds t a
    → magnitude (key a) + t.size ≤ 2 ^ 31
    → size ≤ t.size
    → (u ≡ t)
      ⊎ Refills key memory fuel t.table
          (record t { size = size; total = 0; table = replicate size none })
          u
    → Returns (erase (same a) (magnitude (key a)) u.size 0 u) (Drops a t)
erase_after key same memory fuel size a t u c s held small less (inl e) =
    rw e (erase-Drops same c (magnitude (key a)) a t s held small)
erase_after key same memory fuel size a t u c s held small less (inr h) =
    Returns-map (erase (same a) (magnitude (key a)) u.size 0 u) (Drops a u) (Drops a t)
      (λ u' w. record {
        sound = w.sound;
        total = omega (arith, w.total, h.total, s.table.counted);
        percent = w.percent ∙ h.percent;
        others = λ b other there. w.others b other (h.moved there.0 b there.2);
      })
      (erase-Drops same c (magnitude (key a)) a u h.sound (h.moved held.0 a held.2)
        (omega (arith, h.size)))

-- `htable_remove` of a pointer in a table that is to be filled by 50 to 80 percent, and whose keys stay
-- below 2 ^ 31 by its size, returns 0, whether or not there is memory to shrink the table; its calls of
-- `htable_insert` go one deep. The table is then sound, holds one pointer less, and holds all the
-- others that it held.
pub remove_lem :
    {A : Type 0} (key : A → ℤ) (same : A → A → Bool) (memory : ℕ → Bool) (fuel : ℕ) (a : A)
    (t : HashTable A)
    → Compares same
    → IsSound t
    → t.percent ≤ 80
    → Holds t a
    → KeysFit key t.size t
    → Returns (remove key same memory (suc fuel) a t) (λ r. (r.0 ≡ pos 0) × Drops a t r.1)
unfolding remove
remove_lem {A} key same memory fuel a t c s low held fit =
    let some_left : 0 < t.total =
      omega (arith, s.table.counted, holds_some t.table held.0 a held.2) in
    let not_bare : (t.total == 0) ≡ false = ground (arith, some_left) in
    rw not_bare
      (elim (Bool-cases (ltb ((t.total - 1) * 100 / t.size) (t.percent / 4) && ltb 32 t.size)) [
        | inr stays ↦ rw stays (
            Returns-bind (erase (same a) (magnitude (key a)) t.size 0 t) _ (Drops a t)
              (λ r. (r.0 ≡ pos 0) × Drops a t r.1) (λ u w. (refl, w))
              (erase-Drops same c (magnitude (key a)) a t s held (fit a held)))
        | inl shrinks ↦ rw shrinks (
            let few = few_enough t.total t.size t.percent low shrinks in
            Returns-bind
              (rehash (insert key memory (suc fuel)) (memory (t.size / 2)) (t.size / 2) t >>= λ x.
                some x.1)
              (λ u. erase (same a) (magnitude (key a)) u.size 0 u >>= λ u'. some (pos 0, u'))
              (λ u.
                (u ≡ t)
                ⊎ Refills key memory fuel t.table
                    (record t { size = t.size / 2; total = 0; table = replicate (t.size / 2) none })
                    u)
              (λ r. (r.0 ≡ pos 0) × Drops a t r.1)
              (λ u h.
                Returns-bind (erase (same a) (magnitude (key a)) u.size 0 u) _ (Drops a t)
                  (λ r. (r.0 ≡ pos 0) × Drops a t r.1) (λ u' w. (refl, w))
                  (erase_after key same memory fuel (t.size / 2) a t u c s held (fit a held)
                    (omega arith) h))
              (Returns-bind
                (rehash (insert key memory (suc fuel)) (memory (t.size / 2)) (t.size / 2) t) _ _ _
                (λ r h. h)
                (rehash_lem key memory fuel (memory (t.size / 2)) (t.size / 4) (t.size / 2) t s
                  few.0 few.1 (λ b h. omega (arith, fit b h)))))
      ])
