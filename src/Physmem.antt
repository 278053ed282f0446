-- ===== src/Physmem.antt =====
-- kernel/src/physmem.c: the bitmap of physical pages. A page has one Boolean in place of its bit in
-- `memory_bitmap`, `true` for a page in use. An address is the number it is; 0 is NULL.
pub mod Search
pub mod Alloc
pub mod Free
pub mod Regions
pub mod Single
mod Tests
use spoon_microkernel.Prelude.{
  ℕ, zero, suc, ◌+◌, ◌-◌, ◌*◌, ◌/◌, ◌%◌, ◌^◌, Bool, true, false, ◌&&◌, not, Option, none, some,
  List, [], ◌∷◌, ltb, leb, ◌==◌, if◌then◌else◌, update, add32, sub32, word_max, ◌>>=◌, ◌>>◌, assert,
}
use spoon_microkernel.Prelude.Int.{ℤ, pos, negsuc, increment, decrement}

-- `MAXMAP` and `PAGE_SIZE`
abbrev pub max_map : ℕ
max_map = 32_768

abbrev pub page_size : ℕ
page_size = 4096

-- The static variables of the file.
pub record Memory : Type 0 where
  pub used : ℕ → Bool
  pub total_pages : ℕ
  pub free_pages : ℤ
  pub last_page : ℕ

-- The two statements of `SET`, and of `UNSET`.
abbrev pub set_bit : ℕ → Memory → Memory
set_bit block m = record m { used = update m.used block true }

abbrev pub clear_bit : ℕ → Memory → Memory
clear_bit block m = record m { used = update m.used block false }

abbrev pub one_less : Memory → Memory
one_less m = record m { free_pages = decrement m.free_pages }

abbrev pub one_more : Memory → Memory
one_more m = record m { free_pages = increment m.free_pages }

-- The inner loop of `memory_multiple_alloc`: the first page in use of `rounds` pages from `place + j`
-- on, as its distance from `place`.
unfoldable pub first_used : (used : ℕ → Bool) (place j rounds : ℕ) → Option ℕ
first_used used place j zero = none
first_used used place j (suc rounds) =
    let rest = first_used used place (j + 1) rounds in if used (place + j) then some j else rest

-- The outer loop, from `i` on: the first page of the range found. A range that would not fit before
-- the end of the map is skipped, and so are those up to a page in use.
unfoldable pub search : (pages : ℕ) (m : Memory) (fuel i : ℕ) → Option ℕ
unfolding first_used
search pages m zero i = none
search pages m (suc fuel) i =
    let place = (i + m.last_page) % max_map in
    let past_end = search pages m fuel (i + pages - 1) in
    let later = λ (j : ℕ). search pages m fuel (i + j + 1) in
    if ltb i max_map
    then (if ltb max_map (place + pages)
        then past_end
        else elim (first_used m.used place 0 pages) [ none ↦ some place | some j ↦ later j ])
    else none

-- The loop of `memory_multiple_alloc` that sets the pages of the range, from `i` on.
unfoldable pub take_pages : (block rounds i : ℕ) → Memory → Memory
take_pages block zero i m = m
take_pages block (suc rounds) i m =
    take_pages block rounds (i + 1) (one_less (set_bit (block + i) m))

-- `memory_multiple_alloc`, with as much fuel as the loop has rounds.
unfoldable pub memory_multiple_alloc : (pages : ℕ) → Memory → ℕ × Memory
unfolding search take_pages
memory_multiple_alloc pages m = elim (search pages m max_map 0) [
  | none ↦ (0, m)
  | some block ↦ (
    block * page_size % word_max,
    record (take_pages block pages 0 m) { last_page = block + pages },
  )
]

-- `s_freePages > pages`
abbrev pub exceeds : ℤ → ℕ → Bool
exceeds (pos n) pages = ltb pages n
exceeds (negsuc n) pages = false

-- `memory_alloc`
unfoldable pub memory_alloc : (pages : ℕ) → Memory → Option (ℕ × Memory)
unfolding memory_multiple_alloc
memory_alloc pages m = do
  assert (ltb 0 pages)
  some (if exceeds m.free_pages pages then memory_multiple_alloc pages m else (0, m))

-- The loop of `memory_free`, from `index` on. A page that is free already fails its assertion.
unfoldable pub free_loop : (start rounds index : ℕ) → Memory → Option Memory
free_loop start zero index m = some m
free_loop start (suc rounds) index m = do
  let block = (start + index) % max_map
  assert (m.used block)
  free_loop start rounds (index + 1) (one_more (clear_bit block m))

-- `memory_free`
unfoldable pub memory_free : (pages position : ℕ) → Memory → Option Memory
unfolding free_loop
memory_free pages position m = do
  assert (position % page_size == 0)
  free_loop (position / page_size) pages 0 m

-- `memory_map_t`, with the two halves of each 64-bit number put together.
pub record Region : Type 0 where
  pub base_addr : ℕ
  pub base_length : ℕ
  pub kind : ℕ

-- The `while` of `parse_multibootMap`. Each round moves `page_begin` towards the end of the map.
unfoldable pub free_region : (fuel page_begin page_end : ℕ) → Memory → Memory
free_region zero page_begin page_end m = m
free_region (suc fuel) page_begin page_end m =
    let freed = one_more (clear_bit page_begin m) in
    let rest =
      free_region fuel (page_begin + 1) page_end
        (record freed { total_pages = freed.total_pages + 1 }) in
    if leb page_begin page_end && ltb page_begin max_map then rest else m

-- A region in `parse_multibootMap`, with as much fuel as its `while` has rounds.
unfoldable pub parse_region : (fuel : ℕ) → Region → Memory → Memory
unfolding free_region
parse_region fuel r m =
    let last = (r.base_addr + r.base_length) % 2 ^ 64 in
    let first = r.base_addr / page_size % word_max in
    let page_begin = if r.base_addr % page_size == 0 then first else add32 first 1 in
    let page_end =
      if last % page_size == 0
      then sub32 (last / page_size % word_max) 1
      else last / page_size % word_max in
    if r.kind == 1 then free_region fuel page_begin page_end m else m

-- `parse_multibootMap`, but for the printing and the total that it returns.
unfoldable pub parse_regions : List Region → Memory → Memory
unfolding parse_region
parse_regions [] m = m
parse_regions (r ∷ regions) m = parse_regions regions (parse_region max_map r m)

-- `for (...) SET( i );` without braces: the loop sets the bits, and the count goes down by one once,
-- behind the loop.
unfoldable pub set_bits : (rounds i : ℕ) → Memory → Memory
set_bits zero i m = m
set_bits (suc rounds) i m = set_bits rounds (i + 1) (set_bit i m)

-- `init_memory`, for a kernel that lies between two addresses.
unfoldable pub init_memory : (kernel_start kernel_end : ℕ) → List Region → Memory
unfolding parse_regions set_bits
init_memory kernel_start kernel_end regions =
    let none_free : Memory = record {
      used = λ _. true;
      total_pages = 0;
      free_pages = pos 0;
      last_page = 0;
    } in
    let mapped = parse_regions regions none_free in
    let low = one_less (set_bits 256 0 mapped) in
    let first = kernel_start / page_size in
    one_less (set_bits (kernel_end / page_size - first) first low)

-- The loop of `internal_reserve`.
unfoldable pub reserve_loop : (used : Bool) (rounds i : ℕ) → Memory → Memory
reserve_loop used zero i m = m
reserve_loop used (suc rounds) i m =
    reserve_loop used rounds (i + 1)
      (if used then one_less (set_bit i m) else one_more (clear_bit i m))

-- `internal_reserve`
unfoldable pub internal_reserve : (start end : ℕ) (used : Bool) → Memory → Memory
unfolding reserve_loop
internal_reserve start end used m =
    let end_check = if end % page_size == 0 then 0 else 1 in
    let first = start / page_size in reserve_loop used (end / page_size + end_check - first) first m
