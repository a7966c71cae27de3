-- ===== src/Context/Flags.antt =====
-- src/gem/context_conversion.c: the four condition flags between the ARM NZCV word and RFLAGS.
pub mod Bits
use metal_sharp_wine_runtime.Prelude.{
  ℕ, ◌-◌, ◌^◌, ◌<◌, ◌≡◌, refl, Bool, true, false, ◌&&◌, ◌||◌, ◌!=◌, differs, bit_and, bit_or, or_if,
  arith,
}

-- `enum gem_arithmetic_mode`
pub data ArithmeticMode : Type 0 where
  logical add subtract : ArithmeticMode

abbrev pub rflags_nzcv_mask : ℕ
rflags_nzcv_mask = 0x8c1

abbrev pub nzcv_mask : ℕ
nzcv_mask = 0xf0000000

-- `~m` at the widths of the two words.
abbrev pub complement32 : ℕ → ℕ
complement32 m = 2 ^ 32 - 1 - m

abbrev pub complement64 : ℕ → ℕ
complement64 m = 2 ^ 64 - 1 - m

-- `mode == GEM_ARITHMETIC_SUBTRACT`
abbrev pub is_subtract : ArithmeticMode → Bool
is_subtract logical = false
is_subtract add = false
is_subtract subtract = true

-- `!=` between two truth values is `differs`.
unfoldable pub rflags_from_nzcv_for_arithmetic : ℕ → ℕ → ArithmeticMode → ℕ
rflags_from_nzcv_for_arithmetic nzcv preserved mode =
    let cleared = bit_and preserved (complement64 rflags_nzcv_mask) in
    let carry = or_if (differs (bit_and nzcv (2 ^ 29) != 0) (is_subtract mode)) (2 ^ 0) cleared in
    let zero_flag = or_if (bit_and nzcv (2 ^ 30) != 0) (2 ^ 6) carry in
    let sign = or_if (bit_and nzcv (2 ^ 31) != 0) (2 ^ 7) zero_flag in
    or_if (bit_and nzcv (2 ^ 28) != 0) (2 ^ 11) sign

unfoldable pub rflags_from_nzcv : ℕ → ℕ → ℕ
rflags_from_nzcv nzcv preserved = rflags_from_nzcv_for_arithmetic nzcv preserved logical

unfoldable pub nzcv_from_rflags_for_arithmetic : ℕ → ℕ → ArithmeticMode → ℕ
nzcv_from_rflags_for_arithmetic rflags preserved mode =
    let cleared = bit_and preserved (complement32 nzcv_mask) in
    let carry = or_if (differs (bit_and rflags (2 ^ 0) != 0) (is_subtract mode)) (2 ^ 29) cleared in
    let zero_flag = or_if (bit_and rflags (2 ^ 6) != 0) (2 ^ 30) carry in
    let sign = or_if (bit_and rflags (2 ^ 7) != 0) (2 ^ 31) zero_flag in
    or_if (bit_and rflags (2 ^ 11) != 0) (2 ^ 28) sign

unfoldable pub nzcv_from_rflags : ℕ → ℕ → ℕ
nzcv_from_rflags rflags preserved = nzcv_from_rflags_for_arithmetic rflags preserved logical
