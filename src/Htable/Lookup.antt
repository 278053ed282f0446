-- ===== src/Htable/Lookup.antt =====
-- `htable_retrieve` finds a stored pointer that matches the sample, if there is one in any slot.
use native.Mathlib.Nat.{add-mod-mod, add-mod_right, mod-eq_of_lt, mod-lt}
use native.Mathlib.Decide.{dec_le, ℕ_discrete}
use mathlib.Core.Path.{subst}
use mathlib.Core.Option.{some-injective}
use spoon_microkernel.Prelude.{
  ℕ, zero, suc, ◌+◌, ◌-◌, ◌%◌, ◌<◌, ◌≤◌, ◌≡◌, ◌⊎◌, refl, ap, sym, ◌∙◌, inl, inr, Bool, true, false,
  Bool-cases, Option, none, some, List, [], ◌∷◌, get_or, ◌==◌, ◌^◌, if◌then◌else◌, Returns,
  Returns-some, arith,
}
use spoon_microkernel.Prelude.Int.{ℤ}
use spoon_microkernel.Htable.{HashTable, magnitude, probe, retrieve}
use spoon_microkernel.Htable.Slots.{position_lem}

-- Every slot is met: slot `p` by the round that `round_of` gives.
pub round_of : (p key size : ℕ) → p < size → (i : ℕ) × (i < size) × ((i + key) % size ≡ p)
round_of p key size lt = elim (dec_le (key % size) p) [
  | yes le ↦ (
    p - key % size,
    omega arith,
    sym (add-mod-mod (p - key % size) key size) ∙ ap (λ x. x % size) (back le) ∙ mod-eq_of_lt lt,
  )
  | no gt ↦ (
    p + size - key % size,
    omega (arith, mod-lt key slots),
    sym (add-mod-mod (p + size - key % size) key size)
        ∙ ap (λ x. x % size) around
        ∙ add-mod_right p size
        ∙ mod-eq_of_lt lt,
  )
]
  where
    slots : 0 < size
    slots = omega arith

    back : key % size ≤ p → p - key % size + key % size ≡ p
    back le = omega arith

    around : p + size - key % size + key % size ≡ p + size
    around = omega (arith, mod-lt key slots)

module _ {A : Type 0} where
  -- The number of slots in use.
  abbrev pub occupied : List (Option A) → ℕ
  occupied [] = 0
  occupied (none ∷ slots) = occupied slots
  occupied (some a ∷ slots) = suc (occupied slots)

  -- A table has slots, and counts those in use.
  pub record IsTable (t : HashTable A) : Type 0 where
    pub slots : 0 < t.size
    pub counted : t.total ≡ occupied t.table

  -- What a lookup returns, of the slots below `bound` that `at` gives.
  abbrev Searched : (matches : A → Bool) (at : ℕ → Option A) (first bound : ℕ) → Option A → Type 0
  Searched matches at first bound none =
      (p : ℕ) (a : A) → first ≤ p → p < bound → at p ≡ some a → matches a ≡ false
  Searched matches at first bound (some a) =
      (matches a ≡ true) × ((p : ℕ) × (p < bound) × (at p ≡ some a))

  -- Of all slots of a table: a stored pointer that matches, or nothing where no stored one matches.
  abbrev pub Lookup : (matches : A → Bool) → HashTable A → Option A → Type 0
  Lookup matches t none =
      (p : ℕ) (a : A) → p < t.size → get_or t.table p none ≡ some a → matches a ≡ false
  Lookup matches t (some a) =
      (matches a ≡ true) × ((p : ℕ) × (p < t.size) × (get_or t.table p none ≡ some a))

  module _ (matches : A → Bool) (key size : ℕ) (table : List (Option A)) where
    abbrev at_round : ℕ → Option A
    at_round i = get_or table ((i + key) % size) none

    -- One more slot, which holds no match, before those of a lookup.
    skips :
        (i rounds : ℕ) (out : Option A)
        → ((a : A) → at_round i ≡ some a → matches a ≡ false)
        → Searched matches at_round (i + 1) (i + 1 + rounds) out
        → Searched matches at_round i (i + suc rounds) out
    skips i rounds none no_match h = λ p a le lt e. elim (ℕ_discrete i p) [
      | yes here ↦ no_match a (ap at_round here ∙ e)
      | no there ↦ h p a (omega arith) (omega arith) e
    ]
    skips i rounds (some a) no_match (good, (p, lt, e)) = (good, (p, omega arith, e))

    -- What a round makes of its slot.
    abbrev round : (rest : Option A) → Option A → Option A
    round rest o = elim o [ none ↦ rest | some a ↦ if matches a then some a else rest ]

    round_lem :
        (rounds i : ℕ) (rest o : Option A)
        → at_round i ≡ o
        → Searched matches at_round (i + 1) (i + 1 + rounds) rest
        → Searched matches at_round i (i + suc rounds) (round rest o)
    round_lem rounds i rest none e h = skips i rounds rest (λ a f. cc) h
    round_lem rounds i rest (some a) e h = elim (Bool-cases (matches a)) [
      | inl good ↦ rw good (good, (i, omega arith, e))
      | inr bad ↦ rw bad (
          skips i rounds rest
            (λ b f. subst (λ c. matches c ≡ false) (some-injective a b (sym e ∙ f)) bad) h)
    ]

    -- The loop without wrap-around.
    first_match : (rounds i : ℕ) → Option A
    first_match zero i = none
    first_match (suc rounds) i = round (first_match rounds (i + 1)) (at_round i)

    first_match_lem :
        (rounds i : ℕ) → Searched matches at_round i (i + rounds) (first_match rounds i)
    unfolding first_match
    first_match_lem zero i = λ p a le lt e. absurd (omega arith)
    first_match_lem (suc rounds) i =
        round_lem rounds i (first_match rounds (i + 1)) (at_round i) refl
          (first_match_lem rounds (i + 1))

    probe_step :
        (later : Option (Option A)) (rest o : Option A)
        → later ≡ some rest
        → elim o [ none ↦ later | some a ↦ if matches a then some (some a) else later ]
          ≡ some (round rest o)
    probe_step later rest none e = e
    probe_step later rest (some a) e = elim (Bool-cases (matches a)) [
      | inl good ↦ rw good refl
      | inr bad ↦ rw bad e
    ]

    probe-eq :
        (rounds i : ℕ)
        → i + rounds + key ≤ 2 ^ 31
        → probe matches key size table rounds i ≡ some (first_match rounds i)
    unfolding probe first_match
    probe-eq zero i small = refl
    probe-eq (suc rounds) i small =
        rw (position_lem (i + key) size (omega arith), probe)
          (probe_step (probe matches key size table rounds (i + 1)) (first_match rounds (i + 1))
            (at_round i) (probe-eq rounds (i + 1) (omega arith)))

  nothing :
      (slots : List (Option A)) (p : ℕ) (a : A)
      → occupied slots ≡ 0
      → get_or slots p none ≡ some a
      → ⊥
  nothing [] p a z e = cc
  nothing (none ∷ slots) zero a z e = cc
  nothing (none ∷ slots) (suc p) a z e = nothing slots p a z e
  nothing (some b ∷ slots) p a z e = absurd (omega arith)

  Searched-Lookup :
      (matches : A → Bool) (key : ℕ) (t : HashTable A) (out : Option A)
      → 0 < t.size
      → Searched matches (at_round matches key t.size t.table) 0 (0 + t.size) out
      → Lookup matches t out
  Searched-Lookup matches key t none slots h = λ p a lt e.
      let (i, below, here) = round_of p key t.size lt in
      h i a (omega arith) (omega arith) (ap (λ x. get_or t.table x none) here ∙ e)
  Searched-Lookup matches key t (some a) slots (good, (i, lt, e)) =
      (good, ((i + key) % t.size, mod-lt (i + key) slots, e))

  -- On a table with its count right, and for a key that stays below 2 ^ 31 by the size of the table,
  -- `htable_retrieve` does not halt. It returns a stored pointer that matches the sample, and NULL only
  -- if no slot of the table holds one that does.
  pub retrieve_lem :
      (matches : A → Bool) (key : ℤ) (t : HashTable A)
      → IsTable t
      → magnitude key + t.size ≤ 2 ^ 31
      → Returns (retrieve matches key t) (Lookup matches t)
  unfolding retrieve
  retrieve_lem matches key t v small = elim (Bool-cases (t.total == 0)) [
    | inl bare ↦ rw bare (λ p a lt e. absurd (nothing t.table p a (ground (arith, v.counted)) e))
    | inr more ↦ rw more (
        rw (probe-eq matches (magnitude key) t.size t.table t.size 0 (omega arith)) (
          Searched-Lookup matches (magnitude key) t _ v.slots
            (first_match_lem matches (magnitude key) t.size t.table t.size 0)))
  ]

  -- The two outcomes of a lookup that does not halt.
  pub retrieved :
      (matches : A → Bool) (key : ℤ) (t : HashTable A)
      → IsTable t
      → magnitude key + t.size ≤ 2 ^ 31
      → ((retrieve matches key t ≡ some none) × Lookup matches t none)
        ⊎ ((a : A) × (retrieve matches key t ≡ some (some a)) × Lookup matches t (some a))
  retrieved matches key t v small =
      let (o, e, look) = Returns-some _ (Lookup matches t) (retrieve_lem matches key t v small) in
      split o e look
    where
      split :
          (o : Option A)
          → retrieve matches key t ≡ some o
          → Lookup matches t o
          → ((retrieve matches key t ≡ some none) × Lookup matches t none)
            ⊎ ((a : A) × (retrieve matches key t ≡ some (some a)) × Lookup matches t (some a))
      split none e look = inl (e, look)
      split (some a) e look = inr (a, e, look)
