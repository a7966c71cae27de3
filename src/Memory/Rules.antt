-- ===== src/Memory/Rules.antt =====
-- src/gem/memory.c: which ranges, protections and accesses are allowed.
use metal_sharp_wine_runtime.Prelude.{
  ℕ, ◌-◌, ◌%◌, ◌^◌, Bool, false, ◌&&◌, ◌||◌, ◌==◌, ◌!=◌, leb, if◌then◌else◌, bit_and,
}

abbrev pub u64_max : ℕ
u64_max = 2 ^ 64 - 1

-- `a & 4095` is the remainder by the page size.
unfoldable pub range_ok : ℕ → ℕ → Bool
range_ok a n = n != 0 && (a % 4096 == 0 && (n % 4096 == 0 && leb a (u64_max - n)))

abbrev pub page_noaccess : ℕ
page_noaccess = 1

abbrev pub page_readwrite : ℕ
page_readwrite = 4

abbrev pub page_writecopy : ℕ
page_writecopy = 8

abbrev pub page_execute_readwrite : ℕ
page_execute_readwrite = 64

abbrev pub page_execute_writecopy : ℕ
page_execute_writecopy = 128

abbrev pub page_guard : ℕ
page_guard = 0x100

-- `p & ~(uint32_t)GEM_PAGE_GUARD`
unfoldable pub without_guard : ℕ → ℕ
without_guard p = bit_and p (2 ^ 32 - 1 - page_guard)

-- `p & GEM_PAGE_GUARD` as a truth value.
unfoldable pub has_guard : ℕ → Bool
has_guard p = bit_and p page_guard != 0

-- The cases of the switch in `prot_ok`.
unfoldable pub is_base_protection : ℕ → Bool
is_base_protection b =
    b == 1 || (b == 2 || (b == 4 || (b == 8 || (b == 16 || (b == 32 || (b == 64 || b == 128))))))

unfoldable pub prot_ok : ℕ → Bool
unfolding without_guard has_guard is_base_protection
prot_ok p =
    let b = without_guard p in
    if bit_and p (2 ^ 32 - 1 - 0x1ff) != 0
    then false
    else if has_guard p && b == page_noaccess
    then false
    else is_base_protection b

-- The arguments tell whether the access writes and whether it executes.
unfoldable pub allowed : ℕ → Bool → Bool → Bool
unfolding without_guard
allowed p w x =
    let b = without_guard p in
    if x
    then b == 16 || (b == 32 || (b == 64 || b == 128))
    else if w
    then b == 4 || (b == 8 || (b == 64 || b == 128))
    else b != 1 && b != 16
