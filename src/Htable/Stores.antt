-- ===== src/Htable/Stores.antt =====
-- `htable_insert`: what storing a pointer does to the pointers that a table holds.
use mathlib.Core.Bool.{true≢false}
use mathlib.Core.Path.{subst}
use spoon_microkernel.Prelude.{
  ℕ, suc, ◌<◌, ◌≤◌, ◌≡◌, ◌≢◌, ◌⊎◌, inl, inr, refl, ap, sym, ◌∙◌, Bool, true, Option, none, some,
  length, length-set, get_or, ◌+◌, ◌*◌, ◌^◌, Returns, Returns-map, arith,
}
use spoon_microkernel.Prelude.Int.{ℤ, pos}
use spoon_microkernel.Ports.Blocks.{get_or-set_self, get_or-set_ne}
use spoon_microkernel.Htable.{HashTable, magnitude, retrieve}
use spoon_microkernel.Htable.Lookup.{IsTable, Lookup, retrieve_lem}
use spoon_microkernel.Htable.Insert.{HasSlot, Placed, Placed-IsTable}

module _ {A : Type 0} where
  -- A pointer is in some slot of the table.
  abbrev pub Holds : HashTable A → A → Type 0
  Holds t b = (p : ℕ) × (p < t.size) × (get_or t.table p none ≡ some b)

  -- A table with its count right and its slots in place, which may be filled by half at least.
  pub record IsSound (t : HashTable A) : Type 0 where
    pub table : IsTable t
    pub sized : length t.table ≡ t.size
    pub half : 50 ≤ t.percent

  -- What storing a pointer does to the others.
  pub record Stores (a : A) (t t' : HashTable A) : Type 0 where
    pub sound : IsSound t'
    pub total : t'.total ≡ suc t.total
    pub percent : t'.percent ≡ t.percent
    pub size : t'.size ≤ t.size * 2
    pub here : Holds t' a
    pub others : (b : A) → Holds t b → Holds t' b

  -- The new pointer goes into a slot that was free.
  pub Placed-Stores :
      (t t' : HashTable A) (a : A)
      → IsSound t
      → HasSlot t
      → Placed t a t'
      → Stores a t t' × (t'.size ≡ t.size) × (t'.percent ≡ t.percent)
  unfolding Placed
  Placed-Stores t t' a s v (p, lt, free, e) = rw e (
      (
        record {
          sound = record {
            table = subst IsTable e (Placed-IsTable t t' a v (p, lt, free, e));
            sized = length-set t.table p (some a) ∙ s.sized;
            half = s.half;
          };
          total = omega arith;
          percent = refl;
          size = omega arith;
          here = (p, lt, get_or-set_self t.table p (some a) none (omega (arith, s.sized)));
          others = λ b h. (
            h.0,
            h.1,
            get_or-set_ne t.table p h.0 (some a) none (λ same.
                  absurd (none≢some (sym free ∙ ap (λ (i : ℕ). get_or t.table i none) same ∙ h.2)))
                ∙ h.2,
          );
        },
        refl,
        refl,
      ))
    where
      none≢some : {b : A} → none ≢ some b
      none≢some h = cc

-- The keys of the pointers of a table, and the sums with a number of rounds, stay in the range of `int`.
abbrev pub KeysFit : {A : Type 0} (key : A → ℤ) (size : ℕ) → HashTable A → Type 0
KeysFit {A} key size t = (b : A) → Holds t b → magnitude (key b) + size ≤ 2 ^ 31

-- A pointer that the table holds is missed by no lookup that it matches.
Holds-found :
    {A : Type 0} (t : HashTable A) (b : A) (matches : A → Bool) (sample : ℤ)
    → IsTable t
    → Holds t b
    → matches b ≡ true
    → magnitude sample + t.size ≤ 2 ^ 31
    → Returns (retrieve matches sample t) (λ o. o ≢ none)
Holds-found {A} t b matches sample v (p, lt, e) good small =
    Returns-map (retrieve matches sample t) (Lookup matches t) (λ o. o ≢ none) hit
      (retrieve_lem matches sample t v small)
  where
    hit : (o : Option A) → Lookup matches t o → o ≢ none
    hit none look missed = true≢false (sym good ∙ look p b lt e)
    hit (some a) look missed = cc

-- What is stored in the table is found.
abbrev pub Inserted : {A : Type 0} (a : A) (t : HashTable A) → ℤ × HashTable A → Type 0
Inserted {A} a t r =
    (r.0 ≡ pos 0)
    × Stores a t r.1
    × ((b : A) (matches : A → Bool) (sample : ℤ)
        → Holds t b ⊎ (b ≡ a)
        → matches b ≡ true
        → magnitude sample + t.size * 2 ≤ 2 ^ 31
        → Returns (retrieve matches sample r.1) (λ o. o ≢ none))

pub inserted_lem :
    {A : Type 0} (a : A) (t : HashTable A) (r : ℤ × HashTable A)
    → r.0 ≡ pos 0
    → Stores a t r.1
    → Inserted a t r
inserted_lem {A} a t r rc w = (
  rc,
  w,
  λ b matches sample held good small.
      Holds-found r.1 b matches sample w.sound.table (holds b held) good (omega (arith, w.size)),
)
  where
    holds : (b : A) → Holds t b ⊎ (b ≡ a) → Holds r.1 b
    holds b (inl held) = w.others b held
    holds b (inr same) = subst (Holds r.1) (sym same) w.here
