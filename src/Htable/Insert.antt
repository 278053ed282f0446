-- ===== src/Htable/Insert.antt =====
-- The loop of `htable_insert` on a table with a free slot.
use native.Mathlib.Decide.{ℕ_discrete}
use native.Mathlib.Nat.{mod-lt}
use spoon_microkernel.Prelude.{
  ℕ, zero, suc, ◌+◌, ◌*◌, ◌/◌, ◌%◌, ◌^◌, ◌<◌, ◌≤◌, ◌≡◌, ◌≢◌, refl, ap, ◌∙◌, false, Option, none,
  some, List, [], ◌∷◌, length, get_or, set, ltb, Returns, arith,
}
use spoon_microkernel.Htable.{HashTable, place}
use spoon_microkernel.Htable.Slots.{position_lem}
use spoon_microkernel.Htable.Lookup.{occupied, IsTable, round_of}

module _ {A : Type 0} where
  free_slot :
      (slots : List (Option A))
      → occupied slots < length slots
      → (p : ℕ) × (p < length slots) × (get_or slots p none ≡ none)
  free_slot [] h = absurd (omega arith)
  free_slot (none ∷ slots) h = (0, omega arith, refl)
  free_slot (some a ∷ slots) h =
      let (p, lt, e) = free_slot slots (omega arith) in (suc p, omega arith, e)

  occupied-set :
      (slots : List (Option A)) (p : ℕ) (a : A)
      → p < length slots
      → get_or slots p none ≡ none
      → occupied (set slots p (some a)) ≡ suc (occupied slots)
  occupied-set [] p a lt e = absurd (omega arith)
  occupied-set (none ∷ slots) zero a lt e = refl
  occupied-set (some b ∷ slots) zero a lt e = cc
  occupied-set (none ∷ slots) (suc p) a lt e = occupied-set slots p a (omega arith) e
  occupied-set (some b ∷ slots) (suc p) a lt e = ap suc (occupied-set slots p a (omega arith) e)

  -- A table with room for one more pointer that need not grow for it.
  pub record HasRoom (t : HashTable A) : Type 0 where
    pub table : IsTable t
    pub sized : length t.table ≡ t.size
    pub room : t.total < t.size
    pub fits : ltb t.percent ((t.total + 1) * 100 / t.size) ≡ false

  -- A table with room for one more pointer.
  pub record HasSlot (t : HashTable A) : Type 0 where
    pub table : IsTable t
    pub sized : length t.table ≡ t.size
    pub room : t.total < t.size

  pub HasRoom-HasSlot : {t : HashTable A} → HasRoom t → HasSlot t
  HasRoom-HasSlot v = record { table = v.table; sized = v.sized; room = v.room }

  abbrev pub stored : HashTable A → (p : ℕ) → A → HashTable A
  stored t p a = record t { table = set t.table p (some a); total = t.total + 1 }

  -- The pointer is stored in a slot that was free.
  unfoldable pub Placed : (t : HashTable A) → A → HashTable A → Type 0
  Placed t a t' = (p : ℕ) × (p < t.size) × (get_or t.table p none ≡ none) × (t' ≡ stored t p a)

  -- A round of the loop, with what it finds in its slot.
  place_round :
      (position : ℕ) (a : A) (t : HashTable A) (rest : Option (HashTable A)) (o : Option A)
      → position < t.size
      → get_or t.table position none ≡ o
      → (o ≢ none → Returns rest (Placed t a))
      → Returns (elim o [ none ↦ some (stored t position a) | some _ ↦ rest ]) (Placed t a)
  unfolding Placed
  place_round position a t rest none lt e later = (position, lt, e, refl)
  place_round position a t rest (some b) lt e later = later (λ h. cc)

  place_lem :
      (key rounds i j : ℕ) (a : A) (t : HashTable A)
      → 0 < t.size
      → i + rounds + key ≤ 2 ^ 31
      → i ≤ j
      → j < i + rounds
      → get_or t.table ((j + key) % t.size) none ≡ none
      → Returns (place key a rounds i t) (Placed t a)
  unfolding place
  place_lem key zero i j a t slots small le lt free = absurd (omega arith)
  place_lem key (suc rounds) i j a t slots small le lt free =
      rw (position_lem (i + key) t.size (omega arith), place)
        (place_round ((i + key) % t.size) a t (place key a rounds (i + 1) t)
          (get_or t.table ((i + key) % t.size) none) (mod-lt (i + key) slots) refl
          (λ used. elim (ℕ_discrete i j) [
            | yes here ↦
                absurd (used (ap (λ x. get_or t.table ((x + key) % t.size) none) here ∙ free))
            | no there ↦
                place_lem key rounds (i + 1) j a t slots (omega arith) (omega arith) (omega arith)
                  free
          ]))

  pub Placed-IsTable : (t t' : HashTable A) (a : A) → HasSlot t → Placed t a t' → IsTable t'
  unfolding Placed
  Placed-IsTable t t' a v (p, lt, free, e) = rw e (record {
    slots = v.table.slots;
    counted =
        omega (arith, v.table.counted, occupied-set t.table p a (omega (arith, v.sized)) free);
  })

  -- Some round meets a free slot.
  pub place_free :
      (key : ℕ) (a : A) (t : HashTable A)
      → HasSlot t
      → key + t.size ≤ 2 ^ 31
      → Returns (place key a t.size 0 t) (Placed t a)
  place_free key a t v small =
      let (p, lt, free) = free_slot t.table (omega (arith, v.sized, v.room, v.table.counted)) in
      let (j, below, here) = round_of p key t.size (omega (arith, v.sized)) in
      place_lem key t.size 0 j a t v.table.slots (omega arith) (omega arith) (omega arith)
        (ap (λ x. get_or t.table x none) here ∙ free)
