-- ===== src/Physmem/Search.antt =====
-- The search of `memory_multiple_alloc` for a range of free pages.
use native.Mathlib.Nat.{mod-lt}
use native.Mathlib.Decide.{dec_lt, ℕ_discrete}
use spoon_microkernel.Prelude.{
  ℕ, zero, suc, ◌+◌, ◌-◌, ◌%◌, ◌<◌, ◌≤◌, ◌≡◌, refl, sym, inl, inr, Bool, true, false, Bool-cases,
  Option, none, some, ltb, arith,
}
use spoon_microkernel.Physmem.{Memory, max_map, first_used, search}

-- The pages from `place + j` on, for a number of rounds, are free.
abbrev pub AreFree : (used : ℕ → Bool) (place j rounds : ℕ) → Type 0
AreFree used place j rounds = (d : ℕ) → j ≤ d → d < j + rounds → used (place + d) ≡ false

-- What the inner loop finds.
abbrev First : (used : ℕ → Bool) (place j rounds : ℕ) → Option ℕ → Type 0
First used place j rounds none = AreFree used place j rounds
First used place j rounds (some d) = (j ≤ d) × (d < j + rounds) × (used (place + d) ≡ true)

first_used_lem :
    (used : ℕ → Bool) (place j rounds : ℕ)
    → First used place j rounds (first_used used place j rounds)
unfolding first_used
first_used_lem used place j zero = λ d le lt. absurd (omega arith)
first_used_lem used place j (suc rounds) = elim (Bool-cases (used (place + j))) [
  | inl taken ↦ rw taken (omega arith, omega arith, taken)
  | inr free ↦
      rw free (
        later (first_used used place (j + 1) rounds) free
          (first_used_lem used place (j + 1) rounds))
]
  where
    later :
        (o : Option ℕ)
        → used (place + j) ≡ false
        → First used place (j + 1) rounds o
        → First used place j (suc rounds) o
    later none free h = λ d le lt. elim (ℕ_discrete j d) [
      | yes here ↦ rw (sym here) free
      | no there ↦ h d (omega arith) (omega arith)
    ]
    later (some d) free (le, lt, taken) = (omega arith, omega arith, taken)

-- A range of free pages before the end of the map.
abbrev pub IsRange : (pages : ℕ) (m : Memory) (block : ℕ) → Type 0
IsRange pages m block = (block + pages ≤ max_map) × AreFree m.used block 0 pages

-- The page that round `i` of the search begins with.
abbrev pub begins : Memory → ℕ → ℕ
begins m i = (i + m.last_page) % max_map

-- What to show of the result `o` of the search from round `i` on.
pub record Rule (pages : ℕ) (m : Memory) (Q : ℕ → Option ℕ → Type 0) : Type 0 where
  pub ends : (i : ℕ) → max_map ≤ i → Q i none
  pub finds :
      (i : ℕ)
      → i < max_map
      → IsRange pages m (begins m i)
      → first_used m.used (begins m i) 0 pages ≡ none
      → Q i (some (begins m i))
  pub skips :
      (i : ℕ) (o : Option ℕ)
      → i < max_map
      → max_map < begins m i + pages
      → Q (i + pages - 1) o
      → Q i o
  pub jumps :
      (i j : ℕ) (o : Option ℕ)
      → i < max_map
      → begins m i + pages ≤ max_map
      → first_used m.used (begins m i) 0 pages ≡ some j
      → (j < pages) × (m.used (begins m i + j) ≡ true)
      → Q (i + j + 1) o
      → Q i o

module _ (pages : ℕ) (m : Memory) where
  -- The four ways that a round goes.
  pub search_ends : (fuel i : ℕ) → max_map ≤ i → search pages m fuel i ≡ none
  unfolding search
  search_ends zero i h = refl
  search_ends (suc fuel) i h =
      let out : ltb i max_map ≡ false = ground arith in rw (out, search) refl

  pub search_finds :
      (fuel i : ℕ)
      → i < max_map
      → begins m i + pages ≤ max_map
      → first_used m.used (begins m i) 0 pages ≡ none
      → search pages m (suc fuel) i ≡ some (begins m i)
  unfolding search
  search_finds fuel i lt fits free =
      let inside : ltb i max_map ≡ true = ground arith in
      let short : ltb max_map (begins m i + pages) ≡ false = ground arith in
      rw (inside, search) (rw (short, search) (rw (free, search) refl))

  pub search_skips :
      (fuel i : ℕ)
      → i < max_map
      → max_map < begins m i + pages
      → search pages m (suc fuel) i ≡ search pages m fuel (i + pages - 1)
  unfolding search
  search_skips fuel i lt long =
      let inside : ltb i max_map ≡ true = ground arith in
      let over : ltb max_map (begins m i + pages) ≡ true = ground arith in
      rw (inside, search) (rw (over, search) refl)

  pub search_jumps :
      (fuel i j : ℕ)
      → i < max_map
      → begins m i + pages ≤ max_map
      → first_used m.used (begins m i) 0 pages ≡ some j
      → search pages m (suc fuel) i ≡ search pages m fuel (i + j + 1)
  unfolding search
  search_jumps fuel i j lt fits taken =
      let inside : ltb i max_map ≡ true = ground arith in
      let short : ltb max_map (begins m i + pages) ≡ false = ground arith in
      rw (inside, search) (rw (short, search) (rw (taken, search) refl))

  pub begins-lt : (i : ℕ) → begins m i < max_map
  begins-lt i = mod-lt (i + m.last_page) (omega arith)

  -- The search goes through its rounds, as long as there is fuel for those that are left.
  pub search_ind :
      {Q : ℕ → Option ℕ → Type 0} (rule : Rule pages m Q)
      → 0 < pages
      → (fuel i : ℕ) → max_map ≤ fuel + i
      → Q i (search pages m fuel i)
  search_ind {Q} rule some_pages zero i enough =
      rw (search_ends zero i (omega arith)) (rule.ends i (omega arith))
  search_ind {Q} rule some_pages (suc fuel) i enough = elim (dec_lt i max_map) [
    | no out ↦ rw (search_ends (suc fuel) i (omega arith)) (rule.ends i (omega arith))
    | yes lt ↦ elim (dec_lt max_map (begins m i + pages)) [
      | yes long ↦ rw (search_skips fuel i lt long) (
          rule.skips i (search pages m fuel (i + pages - 1)) lt long
            (search_ind rule some_pages fuel (i + pages - 1) (omega (arith, begins-lt i))))
      | no short ↦
          round (first_used m.used (begins m i) 0 pages) refl lt (omega arith)
            (first_used_lem m.used (begins m i) 0 pages)
            (λ j. search_ind rule some_pages fuel (i + j + 1) (omega arith))
    ]
  ]
    where
      round :
          (o : Option ℕ)
          → first_used m.used (begins m i) 0 pages ≡ o
          → i < max_map
          → begins m i + pages ≤ max_map
          → First m.used (begins m i) 0 pages o
          → ((j : ℕ) → Q (i + j + 1) (search pages m fuel (i + j + 1)))
          → Q i (search pages m (suc fuel) i)
      round none e lt fits free later =
          rw (search_finds fuel i lt fits e) (rule.finds i lt (fits, free) e)
      round (some j) e lt fits (_, below, taken) later =
          rw (search_jumps fuel i j lt fits e)
            (rule.jumps i j _ lt fits e (omega arith, taken) (later j))

-- What the search may return: nothing, or a range of free pages.
abbrev pub Sought : (pages : ℕ) (m : Memory) → Option ℕ → Type 0
Sought pages m none = Unit {0}
Sought pages m (some block) = IsRange pages m block

pub search_lem : (pages : ℕ) (m : Memory) → 0 < pages → Sought pages m (search pages m max_map 0)
search_lem pages m some_pages =
    search_ind pages m {Q = λ i o. Sought pages m o} rule some_pages max_map 0 (omega arith)
  where
    rule : Rule pages m (λ i o. Sought pages m o)
    rule = record {
      ends = λ i h. tt;
      finds = λ i lt range free. range;
      skips = λ i o lt long h. h;
      jumps = λ i j o lt fits e taken h. h;
    }
