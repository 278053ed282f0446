-- ===== src/Physmem/Single.antt =====
-- The fuel of the search is enough, and the search for a single page finds one if there is one.
use native.Mathlib.Decide.{ℕ_discrete}
use mathlib.Core.Bool.{true≢false}
use spoon_microkernel.Prelude.{
  ℕ, zero, suc, ◌+◌, ◌*◌, ◌<◌, ◌≤◌, ◌≡◌, ◌≢◌, refl, ap, sym, ◌∙◌, true, false, Option, none, some,
  arith, Returns,
}
use spoon_microkernel.Htable.Lookup.{round_of}
use spoon_microkernel.Physmem.{
  Memory, max_map, page_size, search, exceeds, memory_alloc, memory_multiple_alloc,
}
use spoon_microkernel.Physmem.Search.{
  begins, Rule, search_ind, search_ends, begins-lt, search_finds, search_skips, search_jumps,
  Sought, search_lem,
}
use spoon_microkernel.Physmem.Alloc.{Taken, alloc_returns, multiple-Taken}

module _ (pages : ℕ) (m : Memory) where
  -- Searches with enough fuel agree.
  abbrev Agrees : ℕ → Option ℕ → Type 0
  Agrees i o = (fuel : ℕ) → max_map ≤ fuel + i → search pages m fuel i ≡ o

  -- Where a round is left there is fuel for it.
  with_fuel :
      (i : ℕ) (o : Option ℕ)
      → i < max_map
      → ((fuel : ℕ) → max_map ≤ suc fuel + i → search pages m (suc fuel) i ≡ o)
      → Agrees i o
  with_fuel i o lt h zero enough = absurd (omega arith)
  with_fuel i o lt h (suc fuel) enough = h fuel enough

  Agrees-rule : Rule pages m Agrees
  Agrees-rule = record {
    ends = λ i h fuel enough. search_ends pages m fuel i h;
    finds = λ i lt range free.
        with_fuel i _ lt (λ fuel enough. search_finds pages m fuel i lt range.0 free);
    skips = λ i o lt long h. with_fuel i o lt (λ fuel enough.
        search_skips pages m fuel i lt long ∙ h fuel (omega (arith, begins-lt pages m i)));
    jumps = λ i j o lt fits e taken h.
        with_fuel i o lt
          (λ fuel enough. search_jumps pages m fuel i j lt fits e ∙ h fuel (omega arith));
  }

  -- The search runs through its rounds with the fuel that it is given: more fuel changes nothing.
  pub search_enough :
      0 < pages → (extra : ℕ) → search pages m (max_map + extra) 0 ≡ search pages m max_map 0
  search_enough some_pages extra =
      search_ind pages m Agrees-rule some_pages max_map 0 (omega arith) (max_map + extra)
        (omega arith)

module _ (m : Memory) (p : ℕ) (free : m.used p ≡ false) where
  -- A free page that a later round begins with is found.
  abbrev Meets : ℕ → Option ℕ → Type 0
  Meets i o = (r : ℕ) → i ≤ r → r < max_map → begins m r ≡ p → o ≢ none

  zero_distance : (j i : ℕ) → j < 1 → begins m i + j ≡ begins m i
  zero_distance j i lt = omega arith

  Meets-rule : Rule 1 m Meets
  Meets-rule = record {
    ends = λ i h r le lt at e. absurd (omega arith);
    finds = λ i lt range here r le lt' at e. cc;
    skips = λ i o lt long h r le lt' at. absurd (omega (arith, begins-lt 1 m i));
    jumps = λ i j o lt fits e taken h r le lt' at. elim (ℕ_discrete i r) [
      | yes here ↦ absurd (
          true≢false
            (sym taken.1 ∙ ap m.used (zero_distance j i taken.0 ∙ ap (begins m) here ∙ at) ∙ free))
      | no there ↦ h r (omega arith) lt' at
    ];
  }

  -- If a page below the end of the map is free the search for one page finds one.
  pub search_one : p < max_map → search 1 m max_map 0 ≢ none
  search_one lt =
      let (r, below, at) = round_of p m.last_page max_map lt in
      search_ind 1 m Meets-rule (omega arith) max_map 0 (omega arith) r (omega arith) below at

-- `memory_alloc` of one page, where more than one page is counted as free and one below the end of the map
-- is free, takes one and returns its address.
pub memory_alloc-one :
    (m : Memory) (p : ℕ)
    → p < max_map
    → m.used p ≡ false
    → exceeds m.free_pages 1 ≡ true
    → Returns
        (memory_alloc 1 m)
        (λ r. (block : ℕ) × (r.0 ≡ block * page_size) × Taken 1 block m r.1)
memory_alloc-one m p lt free enough = rw (alloc_returns 1 m (omega arith)) (
    rw enough
      (found (search 1 m max_map 0) refl (search_lem 1 m (omega arith)) (search_one m p free lt)))
  where
    found :
        (o : Option ℕ)
        → search 1 m max_map 0 ≡ o
        → Sought 1 m o
        → o ≢ none
        → (block : ℕ) × ((memory_multiple_alloc 1 m).0 ≡ block * page_size)
          × Taken 1 block m (memory_multiple_alloc 1 m).1
    found none e range some_found = absurd (some_found refl)
    found (some block) e range some_found = multiple-Taken 1 m block e range
