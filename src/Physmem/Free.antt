-- ===== src/Physmem/Free.antt =====
-- `memory_free` takes back what `memory_alloc` gave out.
use native.Mathlib.Nat.{mod-eq_of_lt}
use mathlib.Core.Path.{fun_ext}
use spoon_microkernel.Prelude.{
  ℕ, zero, suc, ◌+◌, ◌-◌, ◌*◌, ◌/◌, ◌%◌, ◌<◌, ◌≤◌, ◌≡◌, ◌⊎◌, refl, ap, sym, ◌∙◌, inl, inr, Bool,
  true, false, Bool-cases, ◌==◌, if◌then◌else◌, update, arith, Returns, Returns-map,
}
use spoon_microkernel.Prelude.Int.{ℤ, increment, decrement}
use spoon_microkernel.Physmem.{
  Memory, max_map, page_size, clear_bit, one_more, memory_alloc, free_loop, memory_free,
}
use spoon_microkernel.Physmem.Alloc.{in_range, less, Taken, Given, memory_alloc_lem}

-- `n` times `+ 1`.
abbrev more : ℤ → ℕ → ℤ
more z zero = z
more z (suc n) = more (increment z) n

increment-less : (z : ℤ) (n : ℕ) → increment (less z n) ≡ less (increment z) n
increment-less z zero = refl
increment-less z (suc n) = increment-less (decrement z) n ∙ ap (λ (y : ℤ). less y n) (swap z)
  where
    swap : (z : ℤ) → increment (decrement z) ≡ decrement (increment z)
    swap z = ground arith

more-less : (z : ℤ) (n : ℕ) → more (less z n) n ≡ z
more-less z zero = refl
more-less z (suc n) =
    ap (λ (y : ℤ). more y n) (increment-less (decrement z) n ∙ ap (λ (y : ℤ). less y n) (undo z))
    ∙ more-less z n
  where
    undo : (z : ℤ) → increment (decrement z) ≡ z
    undo z = ground arith

-- The memory once a range was freed.
record Freed (first rounds : ℕ) (m m' : Memory) : Type 0 where
  used : (p : ℕ) → m'.used p ≡ (if in_range first rounds p then false else m.used p)
  free_pages : m'.free_pages ≡ more m.free_pages rounds
  total_pages : m'.total_pages ≡ m.total_pages
  last_page : m'.last_page ≡ m.last_page

free_loop_lem :
    (start rounds index : ℕ) (m : Memory)
    → start + index + rounds ≤ max_map
    → ((p : ℕ) → start + index ≤ p → p < start + index + rounds → m.used p ≡ true)
    → Returns (free_loop start rounds index m) (Freed (start + index) rounds m)
unfolding free_loop
free_loop_lem start zero index m fits taken = record {
  used = λ p. ground arith;
  free_pages = refl;
  total_pages = refl;
  last_page = refl;
}
free_loop_lem start (suc rounds) index m fits taken =
    let at : (start + index) % max_map ≡ start + index = mod-eq_of_lt (omega arith) in
    let in_use : m.used (start + index) ≡ true =
      taken (start + index) (omega arith) (omega arith) in
    let next = one_more (clear_bit (start + index) m) in
    rw (at, free_loop)
      (rw (in_use, free_loop)
        (Returns-map (free_loop start rounds (index + 1) next)
          (Freed (start + (index + 1)) rounds next) (Freed (start + index) (suc rounds) m)
          (λ m' f. record {
            used = λ p. ground (arith, f.used p);
            free_pages = f.free_pages;
            total_pages = f.total_pages;
            last_page = f.last_page;
          })
          (free_loop_lem start rounds (index + 1) next (omega arith)
            (λ p le lt. later p (taken p (omega arith) (omega arith)) (omega arith)))))
  where
    later :
        (p : ℕ) → m.used p ≡ true → start + index < p → update m.used (start + index) false p ≡ true
    later p h lt = ground arith

-- The memory is as it was, but for the place where the next search begins.
pub record Restored (m m' : Memory) : Type 0 where
  pub used : m'.used ≡ m.used
  pub free_pages : m'.free_pages ≡ m.free_pages
  pub total_pages : m'.total_pages ≡ m.total_pages

module _ (pages block : ℕ) (m m1 : Memory) (t : Taken pages block m m1) where
  was_free : (p : ℕ) → in_range block pages p ≡ true → m.used p ≡ false
  was_free p inside =
      let from : block ≤ p = ground arith in
      let below : p < block + pages = ground arith in
      let same : p ≡ block + (p - block) = omega arith in
      ap m.used same ∙ t.range.1 (p - block) (omega arith) (omega arith)

  used_back :
      (p : ℕ) (b : Bool)
      → m1.used p ≡ (if in_range block pages p then true else m.used p)
      → b ≡ (if in_range block pages p then false else m1.used p)
      → b ≡ m.used p
  used_back p b e f = elim (Bool-cases (in_range block pages p)) [
    | inl inside ↦ f ∙ rw inside (sym (was_free p inside))
    | inr outside ↦ f ∙ rw outside (e ∙ rw outside refl)
  ]

  free_taken : Returns (memory_free pages (block * page_size) m1) (Restored m)
  unfolding memory_free
  free_taken =
      let whole : (block * page_size % page_size == 0) ≡ true = ground arith in
      let first : block * page_size / page_size ≡ block = omega arith in
      rw (whole, memory_free)
        (rw (first, memory_free)
          (Returns-map (free_loop block pages 0 m1) (Freed (block + 0) pages m1) (Restored m) back (
            free_loop_lem block pages 0 m1 (omega (arith, t.range.0))
              (λ p le lt. taken p (t.used p) (omega arith) (omega arith)))))
    where
      taken :
          (p : ℕ)
          → m1.used p ≡ (if in_range block pages p then true else m.used p)
          → block ≤ p
          → p < block + pages
          → m1.used p ≡ true
      taken p e le lt =
          let inside : in_range block pages p ≡ true = ground arith in e ∙ rw inside refl

      back : (m' : Memory) → Freed (block + 0) pages m1 m' → Restored m m'
      back m' f = record {
        used = fun_ext (λ p. used_back p (m'.used p) (t.used p) (ground (arith, f.used p)));
        free_pages =
            f.free_pages ∙ ap (λ (z : ℤ). more z pages) t.free_pages ∙ more-less m.free_pages pages;
        total_pages = f.total_pages ∙ t.total_pages;
      }

-- What `memory_alloc` gave out can be freed, and the memory is then as it was before.
pub memory_free-memory_alloc :
    (pages : ℕ) (m : Memory)
    → 0 < pages
    → Returns
        (memory_alloc pages m)
        (λ r. (r ≡ (0, m)) ⊎ Returns (memory_free pages r.0 r.1) (Restored m))
memory_free-memory_alloc pages m some_pages =
    Returns-map (memory_alloc pages m) (Given pages m) _ back (memory_alloc_lem pages m some_pages)
  where
    back :
        (r : ℕ × Memory)
        → Given pages m r
        → (r ≡ (0, m)) ⊎ Returns (memory_free pages r.0 r.1) (Restored m)
    back r (inl same) = inl same
    back r (inr (block, address, t)) = inr (rw address (free_taken pages block m r.1 t))
