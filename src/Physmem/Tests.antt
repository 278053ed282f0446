-- ===== src/Physmem/Tests.antt =====
-- A small memory, and what the allocator does with it.
use spoon_microkernel.Prelude.{
  ◌+◌, ◌*◌, ◌≡◌, ◌⊎◌, refl, true, false, ◌&&◌, [], ◌∷◌, ltb, if◌then◌else◌, arith, Returns,
}
use spoon_microkernel.Prelude.Int.{pos}
use spoon_microkernel.Physmem.{
  Memory, Region, max_map, page_size, memory_alloc, memory_free, parse_region, parse_regions,
  internal_reserve,
}
use spoon_microkernel.Physmem.Alloc.{Given, memory_alloc_lem}
use spoon_microkernel.Physmem.Free.{Restored, memory_free-memory_alloc}
use spoon_microkernel.Physmem.Regions.{
  AreBounded, starts_in_any, parse_regions_lem, parse_regions-partial, internal_reserve_lem,
}

-- The first megabyte is in use.
abbrev low_used : Memory
low_used = record {
  used = λ p. ltb p 256;
  total_pages = 32_512;
  free_pages = pos 32_512;
  last_page = 0;
}

-- No page is free.
abbrev all_used : Memory
all_used = record { used = λ p. true; total_pages = 0; free_pages = pos 0; last_page = 0 }

memory_alloc_lem_example : Returns (memory_alloc 2 low_used) (Given 2 low_used)
memory_alloc_lem_example = memory_alloc_lem 2 low_used (omega arith)

memory_free-memory_alloc_example :
    Returns
      (memory_alloc 2 low_used)
      (λ r. (r ≡ (0, low_used)) ⊎ Returns (memory_free 2 r.0 r.1) (Restored low_used))
memory_free-memory_alloc_example = memory_free-memory_alloc 2 low_used (omega arith)

-- From page 1 to the middle of page 3, and memory that is not to be used.
abbrev half_page : Region
half_page = record { base_addr = 4096; base_length = 10_240; kind = 1 }

abbrev reserved : Region
reserved = record { base_addr = 40_960; base_length = 4096; kind = 2 }

parse_regions_lem_example :
    (parse_regions (half_page ∷ reserved ∷ []) all_used).used 2
    ≡ (if starts_in_any 2 (half_page ∷ reserved ∷ []) then false else true)
unfolding AreBounded
parse_regions_lem_example =
    parse_regions_lem (half_page ∷ reserved ∷ []) all_used 2 (omega arith) (omega arith)

parse_regions-partial_example : (parse_region max_map half_page all_used).used 3 ≡ false
parse_regions-partial_example =
    parse_regions-partial half_page all_used refl (omega arith) (omega arith) (omega arith)

internal_reserve_lem_example :
    (internal_reserve 5000 9000 true low_used).used 2
    ≡ (if ltb 5000 ((2 + 1) * page_size) && ltb (2 * page_size) 9000 then true else low_used.used 2)
internal_reserve_lem_example = internal_reserve_lem 5000 9000 true low_used 2 (omega arith)
