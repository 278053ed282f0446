-- ===== src/Physmem/Regions.antt =====
-- Which pages `parse_multibootMap` marks as free, and which `internal_reserve` marks.
use spoon_microkernel.Prelude.{
  ℕ, zero, suc, ◌+◌, ◌-◌, ◌*◌, ◌/◌, ◌%◌, ◌^◌, ◌<◌, ◌≤◌, ◌≡◌, ◌≢◌, refl, ◌∙◌, inl, inr, Bool, true,
  false, Bool-cases, ◌&&◌, ◌||◌, List, [], ◌∷◌, ltb, leb, ◌==◌, if◌then◌else◌, add32, sub32,
  word_max, arith,
}
use spoon_microkernel.Physmem.{
  Memory, Region, max_map, page_size, set_bit, clear_bit, one_less, one_more, free_region,
  parse_region, parse_regions, reserve_loop, internal_reserve,
}

free_region_used :
    (fuel first last : ℕ) (m : Memory) (p : ℕ)
    → max_map ≤ fuel + first
    → (free_region fuel first last m).used p
      ≡ (if leb first p && (leb p last && ltb p max_map) then false else m.used p)
unfolding free_region
free_region_used zero first last m p enough = ground arith
free_region_used (suc fuel) first last m p enough = ground (
  arith,
  free_region_used fuel (first + 1) last
      (record (one_more (clear_bit first m)) { total_pages = m.total_pages + 1 }) p (omega arith),
)

-- Whether the first byte of page `p` lies in the region, and the region is memory to use.
abbrev pub starts_in : ℕ → Region → Bool
starts_in p r =
    r.kind == 1
    && (leb r.base_addr (p * page_size) && ltb (p * page_size) (r.base_addr + r.base_length))

unfoldable pub starts_in_any : ℕ → List Region → Bool
starts_in_any p [] = false
starts_in_any p (r ∷ regions) = starts_in p r || starts_in_any p regions

-- Regions that are not empty at 0, and end below 8 TiB.
unfoldable pub AreBounded : List Region → Type 0
AreBounded [] = Unit {0}
AreBounded (r ∷ regions) =
    (0 < r.base_addr + r.base_length) × (r.base_addr + r.base_length < 2 ^ 43) × AreBounded regions

page_begin_lem :
    (base p : ℕ)
    → base < 2 ^ 43
    → leb
        (if base % page_size == 0
          then base / page_size % word_max
          else add32 (base / page_size % word_max) 1)
        p
      ≡ leb base (p * page_size)
page_begin_lem base p small = ground arith

page_end_lem :
    (last p : ℕ)
    → last < 2 ^ 43
    → 0 < last
    → leb p (
        if last % page_size == 0
        then sub32 (last / page_size % word_max) 1
        else last / page_size % word_max)
      ≡ ltb (p * page_size) last
page_end_lem last p small some_bytes = ground arith

-- One region: the pages whose first byte lies in it are free, the others as they were.
region_used :
    (fuel : ℕ) (r : Region) (m : Memory) (p : ℕ)
    → max_map ≤ fuel
    → 0 < r.base_addr + r.base_length
    → r.base_addr + r.base_length < 2 ^ 43
    → p < max_map
    → (parse_region fuel r m).used p ≡ (if starts_in p r then false else m.used p)
unfolding parse_region
region_used fuel r m p enough some_bytes small below =
    let last : ℕ = r.base_addr + r.base_length in
    let whole : last % 2 ^ 64 ≡ last = omega arith in
    let inside : ltb p max_map ≡ true = ground arith in
    elim (Bool-cases (r.kind == 1)) [
      | inr other ↦ rw (other, parse_region) refl
      | inl usable ↦
          rw (usable, parse_region)
            (rw (whole, parse_region)
              (free_region_used fuel _ _ m p (omega arith)
                ∙ rw (page_begin_lem r.base_addr p (omega arith))
                    (rw (page_end_lem last p small some_bytes) (rw inside (ground arith)))))
    ]

-- Of regions that end below 8 TiB and do not end at 0, a page below the end of the map is free
-- afterwards exactly if it was, or its first byte lies in a region of memory to use.
pub parse_regions_lem :
    (regions : List Region) (m : Memory) (p : ℕ)
    → AreBounded regions
    → p < max_map
    → (parse_regions regions m).used p ≡ (if starts_in_any p regions then false else m.used p)
unfolding AreBounded starts_in_any parse_regions
parse_regions_lem [] m p bounded below = refl
parse_regions_lem (r ∷ regions) m p (some_bytes, small, bounded) below =
    parse_regions_lem regions (parse_region max_map r m) p bounded below
    ∙ rw (region_used max_map r m p (omega arith) some_bytes small below) (ground arith)

-- Where the end of a region of memory to use lies within a page that begins in the region, that page
-- is marked as free, though the rest of it does not belong to the region.
pub parse_regions-partial :
    (r : Region) (m : Memory)
    → r.kind ≡ 1
    → r.base_addr + r.base_length < max_map * page_size
    → r.base_addr ≤ (r.base_addr + r.base_length) / page_size * page_size
    → (r.base_addr + r.base_length) % page_size ≢ 0
    → (parse_region max_map r m).used ((r.base_addr + r.base_length) / page_size) ≡ false
parse_regions-partial r m usable low begun partial =
    let last : ℕ = r.base_addr + r.base_length in
    region_used max_map r m (last / page_size) (omega arith) (omega arith) (omega arith)
      (omega arith)
    ∙ ground arith

reserve_loop_used :
    (used : Bool) (rounds i : ℕ) (m : Memory) (p : ℕ)
    → (reserve_loop used rounds i m).used p
      ≡ (if leb i p && ltb p (i + rounds) then used else m.used p)
unfolding reserve_loop
reserve_loop_used used zero i m p = ground arith
reserve_loop_used true (suc rounds) i m p =
    ground (arith, reserve_loop_used true rounds (i + 1) (one_less (set_bit i m)) p)
reserve_loop_used false (suc rounds) i m p =
    ground (arith, reserve_loop_used false rounds (i + 1) (one_more (clear_bit i m)) p)

-- `internal_reserve` of the bytes from `start` to before `end` marks every page with one of them, and
-- no other.
pub internal_reserve_lem :
    (start end : ℕ) (used : Bool) (m : Memory) (p : ℕ)
    → start < end
    → (internal_reserve start end used m).used p
      ≡ (if ltb start ((p + 1) * page_size) && ltb (p * page_size) end then used else m.used p)
unfolding internal_reserve
internal_reserve_lem start end used m p some_bytes =
    reserve_loop_used used
      (end / page_size + (if end % page_size == 0 then 0 else 1) - start / page_size)
      (start / page_size) m p
    ∙ ground arith
