-- ===== src/Memory/I386.antt =====
-- src/gem/i386_memory.c: the guest address space of a 32-bit program, the first 4 GiB of the
-- memory. Addresses are of 32 bits.
pub mod Range
use metal_sharp_wine_runtime.Prelude.{
  ℕ, zero, suc, ◌+◌, ◌-◌, ◌/◌, ◌%◌, ◌^◌, Bool, true, false, ◌&&◌, ◌||◌, Option, none, some, List,
  ◌==◌, ◌!=◌, leb, ltb, if◌then◌else◌,
}
use metal_sharp_wine_runtime.Memory.{
  Error, ok, invalid_argument, overflow, no_memory, conflict, Memory, M, page_size,
}
use metal_sharp_wine_runtime.Memory.Reserve.{reserve}
use metal_sharp_wine_runtime.Memory.Commit.{commit, decommit}
use metal_sharp_wine_runtime.Memory.Release.{release, unmap}
use metal_sharp_wine_runtime.Memory.Protect.{protect}
use metal_sharp_wine_runtime.Memory.Alias.{alias}
use metal_sharp_wine_runtime.Memory.External.{commit_external}
use metal_sharp_wine_runtime.Memory.Access.Transfer.{read, write, fetch}

abbrev pub address_space_size : ℕ
address_space_size = 0x100000000

abbrev pub lowest_allocation : ℕ
lowest_allocation = 0x10000

abbrev pub allocation_granularity : ℕ
allocation_granularity = 0x10000

unfoldable pub range_error : ℕ → ℕ → Error
range_error address size =
    if size == 0
    then invalid_argument
    else if ltb address_space_size size
    then overflow
    else if ltb (address_space_size - size) address
    then overflow
    else ok

abbrev pub is_ok : Error → Bool
is_ok ok = true
is_ok e = false

unfoldable pub range_valid : ℕ → ℕ → Bool
unfolding range_error
range_valid address size = leb size address_space_size && is_ok (range_error address size)

-- What the loop does with the answer to one candidate; `rest` are the rounds that follow. The
-- address is stored on success only.
abbrev pub after_candidate : M (Error × Option ℕ) → Error × ℕ → M (Error × Option ℕ)
after_candidate rest (ok, b) m = some ((ok, some b), m)
after_candidate rest (conflict, b) m = rest m
after_candidate rest (e, b) m = some ((e, none), m)

-- The loop over the candidates, with the rounds left.
unfoldable pub search_candidates : ℕ → ℕ → ℕ → M (Error × Option ℕ)
unfolding reserve
search_candidates zero candidate size m = some ((no_memory, none), m)
search_candidates (suc rounds) candidate size m = elim (reserve candidate size m) [
  | none ↦ none
  | some (answer, m') ↦
      after_candidate (search_candidates rounds (candidate + allocation_granularity) size) answer m'
]

-- The rounds of `candidate <= GEM_I386_ADDRESS_SPACE_SIZE - size` from the lowest allocation on.
abbrev pub candidates : ℕ → ℕ
candidates size =
    if ltb (address_space_size - size) lowest_allocation
    then 0
    else (address_space_size - size - lowest_allocation) / allocation_granularity + 1

-- The answer for a given address; the address is left as it is.
abbrev pub given_address : Option ((Error × ℕ) × Memory) → Option ((Error × Option ℕ) × Memory)
given_address none = none
given_address (some ((e, b), m)) = some ((e, none), m)

-- The second part of the value is what is stored through `address`, if anything is.
unfoldable pub i386_reserve : ℕ → ℕ → M (Error × Option ℕ)
unfolding search_candidates range_error
i386_reserve address size m =
    if size == 0 || (size % page_size != 0 || ltb address_space_size size)
    then some ((invalid_argument, none), m)
    else if address != 0
    then (if is_ok (range_error address size)
        then given_address (reserve address size m)
        else some ((overflow, none), m))
    else search_candidates (candidates size) lowest_allocation size m

-- `if (error != GEM_MEMORY_OK) return error;` before a call.
abbrev pub in_range_only : Error → M Error → M Error
in_range_only ok rest m = rest m
in_range_only e rest m = some (e, m)

-- The same for a call that also answers a value.
abbrev pub in_range_with : {A : Type 0} → Error → A → M (Error × A) → M (Error × A)
in_range_with ok a rest m = rest m
in_range_with e a rest m = some ((e, a), m)

unfoldable pub i386_decommit : ℕ → ℕ → M Error
i386_decommit address size = in_range_only (range_error address size) (decommit address size)

unfoldable pub i386_release : ℕ → ℕ → M Error
i386_release address size = in_range_only (range_error address size) (release address size)

unfoldable pub i386_unmap : ℕ → ℕ → M Error
i386_unmap address size = in_range_only (range_error address size) (unmap address size)

unfoldable pub i386_commit : ℕ → ℕ → ℕ → M Error
i386_commit address size protection =
    in_range_only (range_error address size) (commit address size protection)

unfoldable pub i386_commit_host : ℕ → ℕ → ℕ → ℕ → M Error
i386_commit_host address host size protection =
    in_range_only (range_error address size) (commit_external address host size protection false)

unfoldable pub i386_protect : ℕ → ℕ → ℕ → M (Error × Option ℕ)
i386_protect address size protection =
    in_range_with (range_error address size) none (protect address size protection)

unfoldable pub i386_alias : ℕ → ℕ → ℕ → ℕ → M Error
i386_alias address source size protection =
    in_range_only (range_error address size)
      (in_range_only (range_error source size) (alias address source size protection))

unfoldable pub i386_read : ℕ → Option (List ℕ) → ℕ → M (Error × Option (List ℕ))
i386_read address buffer size =
    in_range_with (range_error address size) buffer (read address buffer size)

unfoldable pub i386_write : ℕ → Option (List ℕ) → ℕ → M (Error × Option (List ℕ))
i386_write address buffer size =
    in_range_with (range_error address size) buffer (write address buffer size)

unfoldable pub i386_fetch : ℕ → Option (List ℕ) → ℕ → M (Error × Option (List ℕ))
i386_fetch address buffer size =
    in_range_with (range_error address size) buffer (fetch address buffer size)
