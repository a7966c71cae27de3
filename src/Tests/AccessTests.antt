-- ===== src/Tests/AccessTests.antt =====
-- src/gem/memory.c and src/gem/i386_memory.c: unmapping, access and the 32-bit address space at
-- small tables.
use metal_sharp_wine_runtime.Prelude.{
  ℕ, ◌+◌, ◌/◌, ◌%◌, ◌≤◌, ◌<◌, ◌≡◌, ◌≢◌, ◌↔◌, refl, true, false, Option, none, some, List, [], ◌∷◌,
  arith,
}
use metal_sharp_wine_runtime.Memory.{ok, Memory, allocate, allocate_from}
use metal_sharp_wine_runtime.Memory.Rules.{range_ok, has_guard, allowed, without_guard}
use metal_sharp_wine_runtime.Memory.Table.{
  at, check, check_pages, has_backing, is_mapped, next_generation,
}
use metal_sharp_wine_runtime.Memory.Reserve.{
  choose_base, any_mapped, make_pages, insert_pages, reserve_at, reserve, reserved_page,
}
use metal_sharp_wine_runtime.Memory.Release.{unmap}
use metal_sharp_wine_runtime.Memory.Topology.{span_of}
use metal_sharp_wine_runtime.Memory.Topology.Unmap.{Unmapped, unmap-Unmapped}
use metal_sharp_wine_runtime.Memory.Access.{page_of, found, find_pages, find_guard}
use metal_sharp_wine_runtime.Memory.Access.Admission.{IsOpen, find_pages_iff}
use metal_sharp_wine_runtime.Memory.Access.Guard.{Struck, access-Struck}
use metal_sharp_wine_runtime.Memory.I386.{
  address_space_size, lowest_allocation, allocation_granularity, range_error, range_valid,
  i386_reserve,
}
use metal_sharp_wine_runtime.Memory.I386.Range.{range_valid_iff, i386_reserve-in_space}
use metal_sharp_wine_runtime.Tests.MemoryTests.{low, high, two, two-IsBalanced, two-IsTopology}

high_checked : check two.pages 0x11000 0x1000 false ≡ ok
unfolding check check_pages range_ok at has_backing
high_checked = refl

high_found : at two.pages 0x11000 ≡ some high
unfolding at
high_found = refl

unmap-Unmapped_example :
    Unmapped 0x11000 0x1000 (span_of high) (λ _. 0) two (unmap 0x11000 0x1000 two)
unmap-Unmapped_example =
    unmap-Unmapped 0x11000 0x1000 high (λ _. 0) two two-IsBalanced two-IsTopology (omega arith)
      (omega arith) high_checked high_found (omega arith)

find_pages_iff_example :
    ((qs : List ℕ) × (find_pages two.pages
          ((16 + 0x10ff8 % 4096 + 4095) / 4096)
          0x10ff8
          16
          false
          false
        ≡ found qs))
    ↔ ((i : ℕ) → i < 16 → IsOpen two.pages false false (page_of (0x10ff8 + i)))
find_pages_iff_example = find_pages_iff two.pages false false 0x10ff8 16 (omega arith)

-- The same memory with a guard on its committed page.
abbrev guarded : Memory
guarded = record two { pages = record low { protection = 0x104 } ∷ high ∷ [] }

access-Struck_example : Struck 0x10010 [] 4 false false guarded (0x10000 ∷ []) 0x10000
access-Struck_example =
    access-Struck 0x10010 [] 4 false false guarded (0x10000 ∷ []) 0x10000 (omega arith)
      (omega arith) (omega arith) (omega arith) (omega arith)
      (unfold find_pages at has_backing allowed without_guard in refl)
      (unfold find_guard at has_guard in refl)

range_valid_iff_example :
    (range_valid 0xfffff000 0x1000 ≡ true)
    ↔ (0 < 0x1000) × (0xfffff000 + 0x1000 ≤ address_space_size)
range_valid_iff_example = range_valid_iff 0xfffff000 0x1000

abbrev three : Memory
three = record two {
  pages = reserved_page 0x12000 0x1000 0x12000 3 ∷ two.pages;
  next_generation = 3;
  allocations_left = 9;
}

reserve-three : i386_reserve 0x12000 0x1000 two ≡ some ((ok, none), three)
unfolding i386_reserve range_error reserve choose_base reserve_at make_pages insert_pages allocate
    allocate_from next_generation range_ok any_mapped is_mapped at
reserve-three = refl

i386_reserve-in_space_example :
    let address : ℕ = 0x12000 in
    let size : ℕ = 0x1000 in
    let r : Option ℕ = none in
    (address ≢ 0
      → (r ≡ none)
        × (reserve address size two ≡ some ((ok, address), three))
        × (address + size ≤ address_space_size))
    × (address ≡ 0
        → (base : ℕ) × (r ≡ some base)
          × (reserve base size two ≡ some ((ok, base), three))
          × (base + size ≤ address_space_size)
          × (base % allocation_granularity ≡ 0)
          × (lowest_allocation ≤ base))
i386_reserve-in_space_example = i386_reserve-in_space 0x12000 0x1000 two three none reserve-three
