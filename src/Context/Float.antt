-- ===== src/Context/Float.antt =====
-- src/gem/context_conversion.c: the floating-point control and status words between ARM and x64.
pub mod Digits
pub mod Bits
pub mod RoundTrip
use metal_sharp_wine_runtime.Prelude.{
  ℕ, zero, suc, ◌+◌, ◌-◌, ◌*◌, ◌/◌, ◌^◌, Option, none, some, List, [], ◌∷◌, ◌==◌, ◌!=◌, ltb,
  if◌then◌else◌, bit_and, bit_or, or_if,
}

-- `FPCR_MXCSR_MASK`: bits 8 to 12, 15, 22 to 24.
abbrev pub fpcr_mxcsr_mask : ℕ
fpcr_mxcsr_mask = 0x1c09f00

abbrev pub fpsr_mxcsr_mask : ℕ
fpsr_mxcsr_mask = 0x9f

abbrev pub arm_status : List ℕ
arm_status = 0 ∷ 7 ∷ 1 ∷ 2 ∷ 3 ∷ 4 ∷ []

abbrev pub x86_status : List ℕ
x86_status = 0 ∷ 1 ∷ 2 ∷ 3 ∷ 4 ∷ 5 ∷ []

-- `i == 1 ? 15 : 8 + (i > 1 ? i - 1 : i)`
abbrev pub enable_bit : ℕ → ℕ
enable_bit i = if i == 1 then 15 else 8 + (if ltb 1 i then i - 1 else i)

-- A loop over the two arrays that sets the bit of one for the bit of the other.
abbrev pub copy_status : List ℕ → List ℕ → ℕ → ℕ → ℕ
copy_status (from ∷ froms) (to ∷ tos) word result =
    copy_status froms tos word (or_if (bit_and word (2 ^ from) != 0) (2 ^ to) result)
copy_status froms tos word result = result

-- The loop that sets the x64 mask of each exception that is not enabled, with the rounds left.
abbrev pub mask_disabled : ℕ → ℕ → ℕ → ℕ → ℕ
mask_disabled zero i fpcr result = result
mask_disabled (suc left) i fpcr result =
    mask_disabled left (i + 1) fpcr
      (or_if (bit_and fpcr (2 ^ enable_bit i) == 0) (2 ^ (7 + i)) result)

-- The loop that enables each exception that is not masked, with the rounds left.
abbrev pub enable_unmasked : ℕ → ℕ → ℕ → ℕ → ℕ
enable_unmasked zero i mxcsr control = control
enable_unmasked (suc left) i mxcsr control =
    enable_unmasked left (i + 1) mxcsr
      (or_if (bit_and mxcsr (2 ^ (7 + i)) == 0) (2 ^ enable_bit i) control)

-- `r == 1U ? 2U : r == 2U ? 1U : r`, in both directions.
abbrev pub other_round : ℕ → ℕ
other_round r = if r == 1 then 2 else if r == 2 then 1 else r

unfoldable pub mxcsr_from_fp : ℕ → ℕ → ℕ
mxcsr_from_fp fpcr fpsr =
    let status = copy_status arm_status x86_status fpsr 0 in
    let masks = mask_disabled 6 0 fpcr status in
    let round = other_round (bit_and (fpcr / 2 ^ 22) 3) in
    bit_or (bit_or masks (round * 2 ^ 13)) (bit_and (fpcr / 2 ^ 24) 1 * 2 ^ 15)

-- `control` and `status` after the stores of `gem_fp_from_mxcsr_checked`.
unfoldable pub control_of : ℕ → ℕ
control_of mxcsr =
    let enables = enable_unmasked 6 0 mxcsr 0 in
    let round = other_round (bit_and (mxcsr / 2 ^ 13) 3) in
    bit_or (bit_or enables (round * 2 ^ 22)) (bit_and (mxcsr / 2 ^ 15) 1 * 2 ^ 24)

unfoldable pub status_of : ℕ → ℕ
status_of mxcsr = copy_status x86_status arm_status mxcsr 0

-- The values left in `*fpcr` and `*fpsr`. `none` is the answer `false`.
unfoldable pub fp_from_mxcsr_checked : ℕ → Option (ℕ × ℕ)
fp_from_mxcsr_checked mxcsr =
    if bit_and mxcsr (2 ^ 6) != 0 then none else some (control_of mxcsr, status_of mxcsr)
