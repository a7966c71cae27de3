-- ===== src/Context/Flags/Bits.antt =====
-- src/gem/context_conversion.c: the flag conversions, bit by bit, and back and forth.
use metal_sharp_wine_runtime.Prelude.{
  ℕ, ◌^◌, ◌<◌, ◌≡◌, refl, ◌||◌, not, ◌==◌, ◌!=◌, differs, differs_twice, leb, ltb, if◌then◌else◌,
  bit_and, bit_or, or_if-lt, testbit, testbit-bit_and, testbit-bit_or, testbit-or_if, testbit_ext,
  bit_test, bit_or-lt, bit_and-lt, agree_below_sound, arith,
}
use metal_sharp_wine_runtime.Context.Flags.{
  ArithmeticMode, rflags_nzcv_mask, nzcv_mask, complement32, complement64, is_subtract,
  rflags_from_nzcv_for_arithmetic, nzcv_from_rflags_for_arithmetic,
}

-- The digits of the constants.
module _ (i : ℕ) (h : i < 64) where
  kept64 :
      testbit (complement64 rflags_nzcv_mask) i ≡ not (i == 0 || (i == 6 || (i == 7 || i == 11)))
  unfolding testbit
  kept64 =
      agree_below_sound 64 (testbit (complement64 rflags_nzcv_mask))
        (λ i. not (i == 0 || (i == 6 || (i == 7 || i == 11)))) i refl h

  at0 : testbit (2 ^ 0) i ≡ (i == 0)
  unfolding testbit
  at0 = agree_below_sound 64 (testbit (2 ^ 0)) (λ i. i == 0) i refl h

  at6 : testbit (2 ^ 6) i ≡ (i == 6)
  unfolding testbit
  at6 = agree_below_sound 64 (testbit (2 ^ 6)) (λ i. i == 6) i refl h

  at7 : testbit (2 ^ 7) i ≡ (i == 7)
  unfolding testbit
  at7 = agree_below_sound 64 (testbit (2 ^ 7)) (λ i. i == 7) i refl h

  at11 : testbit (2 ^ 11) i ≡ (i == 11)
  unfolding testbit
  at11 = agree_below_sound 64 (testbit (2 ^ 11)) (λ i. i == 11) i refl h

-- Each bit of the RFLAGS word: carry, zero, sign and overflow from the ARM flags, the carry
-- inverted after a subtraction, and every other bit as it was.
pub rflags_bit :
    (nzcv preserved : ℕ) (mode : ArithmeticMode) (i : ℕ)
    → i < 64
    → testbit (rflags_from_nzcv_for_arithmetic nzcv preserved mode) i ≡ (
        if i == 0
        then differs (testbit nzcv 29) (is_subtract mode)
        else if i == 6
        then testbit nzcv 30
        else if i == 7
        then testbit nzcv 31
        else if i == 11
        then testbit nzcv 28
        else testbit preserved i)
unfolding rflags_from_nzcv_for_arithmetic
rflags_bit nzcv preserved mode i h =
    simp
      (
        testbit-or_if,
        testbit-bit_and,
        bit_test 28 nzcv,
        bit_test 29 nzcv,
        bit_test 30 nzcv,
        bit_test 31 nzcv,
        kept64 i h,
        at0 i h,
        at6 i h,
        at7 i h,
        at11 i h,
      )
      (ground arith)

module _ (i : ℕ) (h : i < 32) where
  kept32 : testbit (complement32 nzcv_mask) i ≡ ltb i 28
  unfolding testbit
  kept32 = agree_below_sound 32 (testbit (complement32 nzcv_mask)) (λ i. ltb i 28) i refl h

  flags32 : testbit nzcv_mask i ≡ leb 28 i
  unfolding testbit
  flags32 = agree_below_sound 32 (testbit nzcv_mask) (λ i. leb 28 i) i refl h

  at28 : testbit (2 ^ 28) i ≡ (i == 28)
  unfolding testbit
  at28 = agree_below_sound 32 (testbit (2 ^ 28)) (λ i. i == 28) i refl h

  at29 : testbit (2 ^ 29) i ≡ (i == 29)
  unfolding testbit
  at29 = agree_below_sound 32 (testbit (2 ^ 29)) (λ i. i == 29) i refl h

  at30 : testbit (2 ^ 30) i ≡ (i == 30)
  unfolding testbit
  at30 = agree_below_sound 32 (testbit (2 ^ 30)) (λ i. i == 30) i refl h

  at31 : testbit (2 ^ 31) i ≡ (i == 31)
  unfolding testbit
  at31 = agree_below_sound 32 (testbit (2 ^ 31)) (λ i. i == 31) i refl h

-- Each bit of the NZCV word: the four flags from RFLAGS, the carry inverted after a subtraction,
-- and every other bit as it was.
pub nzcv_bit :
    (rflags preserved : ℕ) (mode : ArithmeticMode) (i : ℕ)
    → i < 32
    → testbit (nzcv_from_rflags_for_arithmetic rflags preserved mode) i ≡ (
        if i == 29
        then differs (testbit rflags 0) (is_subtract mode)
        else if i == 30
        then testbit rflags 6
        else if i == 31
        then testbit rflags 7
        else if i == 28
        then testbit rflags 11
        else testbit preserved i)
unfolding nzcv_from_rflags_for_arithmetic
nzcv_bit rflags preserved mode i h =
    simp
      (
        testbit-or_if,
        testbit-bit_and,
        bit_test 0 rflags,
        bit_test 6 rflags,
        bit_test 7 rflags,
        bit_test 11 rflags,
        kept32 i h,
        at28 i h,
        at29 i h,
        at30 i h,
        at31 i h,
      )
      (ground arith)

nzcv_from_rflags_for_arithmetic-lt :
    (rflags preserved : ℕ) (mode : ArithmeticMode)
    → nzcv_from_rflags_for_arithmetic rflags preserved mode < 2 ^ 32
unfolding nzcv_from_rflags_for_arithmetic
nzcv_from_rflags_for_arithmetic-lt rflags preserved mode =
    or_if-lt 32 (bit_and rflags (2 ^ 11) != 0) (2 ^ 28) _ (omega arith) (
      or_if-lt 32 (bit_and rflags (2 ^ 7) != 0) (2 ^ 31) _ (omega arith) (
        or_if-lt 32 (bit_and rflags (2 ^ 6) != 0) (2 ^ 30) _ (omega arith) (
          or_if-lt 32 (differs (bit_and rflags (2 ^ 0) != 0) (is_subtract mode)) (2 ^ 29) _
            (omega arith) (bit_and-lt 32 preserved (complement32 nzcv_mask) (omega arith)))))

-- Flags sent to RFLAGS and back in the same mode are the original flags, and the other bits of
-- the word that they come back into are kept.
pub nzcv-rflags_round_trip :
    (nzcv rflags preserved : ℕ) (mode : ArithmeticMode)
    → nzcv_from_rflags_for_arithmetic
        (rflags_from_nzcv_for_arithmetic nzcv rflags mode)
        preserved
        mode
      ≡ bit_or (bit_and preserved (complement32 nzcv_mask)) (bit_and nzcv nzcv_mask)
nzcv-rflags_round_trip nzcv rflags preserved mode =
    let r = rflags_from_nzcv_for_arithmetic nzcv rflags mode in
    testbit_ext 32 _ _ (nzcv_from_rflags_for_arithmetic-lt r preserved mode)
      (bit_or-lt 32 _ _ (bit_and-lt 32 preserved (complement32 nzcv_mask) (omega arith))
        (bit_and-lt 32 nzcv nzcv_mask (omega arith)))
      λ i h.
        simp
          (
            testbit-bit_or,
            testbit-bit_and,
            kept32 i h,
            flags32 i h,
            nzcv_bit r preserved mode i h,
            rflags_bit nzcv rflags mode 0 (omega arith),
            rflags_bit nzcv rflags mode 6 (omega arith),
            rflags_bit nzcv rflags mode 7 (omega arith),
            rflags_bit nzcv rflags mode 11 (omega arith),
            differs_twice,
          )
          (ground arith)
