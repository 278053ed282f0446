-- ===== src/Physmem/Alloc.antt =====
-- What `memory_alloc` gives out, and that `memory_free` takes it back.
use native.Mathlib.Nat.{mod-eq_of_lt}
use spoon_microkernel.Prelude.{
  ℕ, zero, suc, ◌+◌, ◌*◌, ◌%◌, ◌<◌, ◌≡◌, ◌⊎◌, refl, inl, inr, Bool, true, Bool-cases, Option, none,
  some, ltb, ◌&&◌, leb, if◌then◌else◌, word_max, arith, Returns,
}
use spoon_microkernel.Prelude.Int.{ℤ, increment, decrement}
use spoon_microkernel.Physmem.{
  Memory, max_map, page_size, set_bit, one_less, search, take_pages, memory_multiple_alloc, exceeds,
  memory_alloc,
}
use spoon_microkernel.Physmem.Search.{IsRange, Sought, search_lem}

-- Whether page `p` is one of `pages` pages from `block` on.
abbrev pub in_range : (block pages p : ℕ) → Bool
in_range block pages p = leb block p && ltb p (block + pages)

-- `n` times `- 1`, and `+ 1`.
abbrev pub less : ℤ → ℕ → ℤ
less z zero = z
less z (suc n) = less (decrement z) n

abbrev pub more : ℤ → ℕ → ℤ
more z zero = z
more z (suc n) = more (increment z) n

take_pages_used :
    (block rounds i : ℕ) (m : Memory) (p : ℕ)
    → (take_pages block rounds i m).used p
      ≡ (if in_range (block + i) rounds p then true else m.used p)
unfolding take_pages
take_pages_used block zero i m p = ground arith
take_pages_used block (suc rounds) i m p =
    ground (arith, take_pages_used block rounds (i + 1) (one_less (set_bit (block + i) m)) p)

take_pages_counts :
    (block rounds i : ℕ) (m : Memory)
    → ((take_pages block rounds i m).free_pages ≡ less m.free_pages rounds)
      × ((take_pages block rounds i m).total_pages ≡ m.total_pages)
unfolding take_pages
take_pages_counts block zero i m = (refl, refl)
take_pages_counts block (suc rounds) i m =
    take_pages_counts block rounds (i + 1) (one_less (set_bit (block + i) m))

-- The memory once a range was taken: its pages are in use, and the count is less by their number.
pub record Taken (pages block : ℕ) (m m' : Memory) : Type 0 where
  pub range : IsRange pages m block
  pub used : (p : ℕ) → m'.used p ≡ (if in_range block pages p then true else m.used p)
  pub free_pages : m'.free_pages ≡ less m.free_pages pages
  pub total_pages : m'.total_pages ≡ m.total_pages
  pub last_page : m'.last_page ≡ block + pages

-- An allocation gives NULL and changes nothing, or gives the address of a range it has taken.
abbrev pub Given : (pages : ℕ) (m : Memory) → ℕ × Memory → Type 0
Given pages m r = (r ≡ (0, m)) ⊎ ((block : ℕ) × (r.0 ≡ block * page_size) × Taken pages block m r.1)

taken_lem :
    (pages block : ℕ) (m : Memory)
    → IsRange pages m block
    → Taken pages block m (record (take_pages block pages 0 m) { last_page = block + pages })
taken_lem pages block m range = record {
  range = range;
  used = λ p. ground (arith, take_pages_used block pages 0 m p);
  free_pages = (take_pages_counts block pages 0 m).0;
  total_pages = (take_pages_counts block pages 0 m).1;
  last_page = refl;
}

module _ (pages : ℕ) (m : Memory) where
  multiple_none : search pages m max_map 0 ≡ none → memory_multiple_alloc pages m ≡ (0, m)
  unfolding memory_multiple_alloc
  multiple_none e = rw (e, memory_multiple_alloc) refl

  multiple_some :
      (block : ℕ)
      → search pages m max_map 0 ≡ some block
      → memory_multiple_alloc pages m ≡ (
        block * page_size % word_max,
        record (take_pages block pages 0 m) { last_page = block + pages },
      )
  unfolding memory_multiple_alloc
  multiple_some block e = rw (e, memory_multiple_alloc) refl

  address_fits :
      (block : ℕ) → IsRange pages m block → block * page_size % word_max ≡ block * page_size
  address_fits block range = mod-eq_of_lt (omega (arith, range.0))

  pub multiple-Taken :
      (block : ℕ)
      → search pages m max_map 0 ≡ some block
      → IsRange pages m block
      → (block : ℕ) × ((memory_multiple_alloc pages m).0 ≡ block * page_size)
        × Taken pages block m (memory_multiple_alloc pages m).1
  multiple-Taken block e range =
      rw (multiple_some block e) (block, address_fits block range, taken_lem pages block m range)

  multiple-Given :
      (o : Option ℕ)
      → search pages m max_map 0 ≡ o
      → Sought pages m o
      → Given pages m (memory_multiple_alloc pages m)
  multiple-Given none e range = inl (multiple_none e)
  multiple-Given (some block) e range = inr (multiple-Taken block e range)

  alloc-Given :
      0 < pages
      → Given pages m (if exceeds m.free_pages pages then memory_multiple_alloc pages m else (0, m))
  alloc-Given some_pages = elim (Bool-cases (exceeds m.free_pages pages)) [
    | inl enough ↦
        rw enough (multiple-Given (search pages m max_map 0) refl (search_lem pages m some_pages))
    | inr few ↦ rw few (inl refl)
  ]

  pub alloc_returns :
      0 < pages
      → memory_alloc pages m
        ≡ some (if exceeds m.free_pages pages then memory_multiple_alloc pages m else (0, m))
  unfolding memory_alloc
  alloc_returns some_pages =
      let runs : ltb 0 pages ≡ true = ground arith in rw (runs, memory_alloc) refl

  -- `memory_alloc` of at least one page returns NULL and leaves the memory as it was, or the address of
  -- a range below the end of the map whose pages were all free: these are then in use and no others
  -- change, and the count of free pages is less by their number.
  pub memory_alloc_lem : 0 < pages → Returns (memory_alloc pages m) (Given pages m)
  memory_alloc_lem some_pages = rw (alloc_returns some_pages) (alloc-Given some_pages)
