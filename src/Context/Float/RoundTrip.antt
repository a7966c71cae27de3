-- ===== src/Context/Float/RoundTrip.antt =====
-- src/gem/context_conversion.c: MXCSR to the ARM words and back, and the ARM words to MXCSR and
-- back.
use metal_sharp_wine_runtime.Prelude.{
  ℕ, ◌^◌, ◌<◌, ◌≤◌, ◌≡◌, refl, ap, ◌∙◌, Bool, true, false, ◌&&◌, ◌||◌, not, ◌==◌, bit_and,
  bit_and-lt, testbit, testbit-bit_or, testbit-bit_and, testbit-or_if, testbit_ext, bit_test,
  testbit-zero, testbit-pow, bit_clear, lt_of_bits, bit_moved, get_or_beyond, agree_below_sound,
  arith, none, some, get_or,
}
use metal_sharp_wine_runtime.Context.Float.{
  mxcsr_from_fp, fp_from_mxcsr_checked, control_of, status_of, fpcr_mxcsr_mask, fpsr_mxcsr_mask,
}
use metal_sharp_wine_runtime.Context.Float.Digits.{digits_of, digits_of-get_or, or_assoc}
use metal_sharp_wine_runtime.Context.Float.Bits.{round_bits, moved_bit, mxcsr_bit, mxcsr_digits}

and_true : (a : Bool) → (a && true) ≡ a
and_true true = refl
and_true false = refl

and_false : (a : Bool) → (a && false) ≡ false
and_false true = refl
and_false false = refl

or_false : (a : Bool) → (a || false) ≡ a
or_false true = refl
or_false false = refl

not-not : (a : Bool) → not (not a) ≡ a
not-not true = refl
not-not false = refl

control_bit :
    (m i : ℕ)
    → testbit (control_of m) i ≡ (
        (not (testbit m 7) && i == 8)
        || ((not (testbit m 8) && i == 15)
            || ((not (testbit m 9) && i == 9)
                || ((not (testbit m 10) && i == 10)
                    || ((not (testbit m 11) && i == 11)
                        || ((not (testbit m 12) && i == 12)
                            || ((testbit m 14 && i == 22)
                                || ((testbit m 13 && i == 23) || (testbit m 15 && i == 24)))))))))
unfolding control_of
control_bit m i =
    simp
      (
        testbit-or_if,
        testbit-bit_or,
        round_bits 22 13 m i,
        moved_bit 24 15 m i,
        testbit-zero,
        bit_clear 7 m,
        bit_clear 8 m,
        bit_clear 9 m,
        bit_clear 10 m,
        bit_clear 11 m,
        bit_clear 12 m,
        testbit-pow 8 i,
        testbit-pow 15 i,
        testbit-pow 9 i,
        testbit-pow 10 i,
        testbit-pow 11 i,
        testbit-pow 12 i,
        or_assoc,
      )
      refl

status_bit :
    (m i : ℕ)
    → testbit (status_of m) i ≡ (
        (testbit m 0 && i == 0)
        || ((testbit m 1 && i == 7)
            || ((testbit m 2 && i == 1)
                || ((testbit m 3 && i == 2)
                    || ((testbit m 4 && i == 3) || (testbit m 5 && i == 4))))))
unfolding status_of
status_bit m i =
    simp
      (
        testbit-or_if,
        testbit-zero,
        bit_test 0 m,
        bit_test 1 m,
        bit_test 2 m,
        bit_test 3 m,
        bit_test 4 m,
        bit_test 5 m,
        testbit-pow 0 i,
        testbit-pow 7 i,
        testbit-pow 1 i,
        testbit-pow 2 i,
        testbit-pow 3 i,
        testbit-pow 4 i,
        or_assoc,
      )
      refl

-- The digits of the word that comes back.
back_digits :
    (m : ℕ) → testbit m 6 ≡ false → mxcsr_digits (control_of m) (status_of m) ≡ digits_of 16 0 m
back_digits m no_daz =
    simp (control_bit m, status_bit m, and_true, and_false, or_false, not-not, no_daz) refl

mxcsr_from_fp-lt : (fpcr fpsr : ℕ) → mxcsr_from_fp fpcr fpsr < 2 ^ 16
mxcsr_from_fp-lt fpcr fpsr =
    lt_of_bits 16 (mxcsr_from_fp fpcr fpsr)
      λ i above. mxcsr_bit fpcr fpsr i ∙ get_or_beyond (mxcsr_digits fpcr fpsr) i false above

-- An MXCSR word of 16 bits that does not ask for denormals-are-zero is turned into ARM control and
-- status words that are turned back into it, and one that does is refused.
pub mxcsr-fp_round_trip :
    (m : ℕ)
    → m < 2 ^ 16
    → (testbit m 6 ≡ true → fp_from_mxcsr_checked m ≡ none)
      × (testbit m 6 ≡ false
          → (fpcr : ℕ) × (fpsr : ℕ) × (fp_from_mxcsr_checked m ≡ some (fpcr, fpsr))
            × (mxcsr_from_fp fpcr fpsr ≡ m))
unfolding fp_from_mxcsr_checked
mxcsr-fp_round_trip m small = (
  λ daz. rw (bit_test 6 m, daz) refl,
  λ no_daz. (
    control_of m,
    status_of m,
    rw (bit_test 6 m, no_daz) refl,
    testbit_ext 16 (mxcsr_from_fp (control_of m) (status_of m)) m
        (mxcsr_from_fp-lt (control_of m) (status_of m)) small
        (λ i h.
          mxcsr_bit (control_of m) (status_of m) i
          ∙ ap (λ bs. get_or bs i false) (back_digits m no_daz)
          ∙ digits_of-get_or 16 m i h),
  ),
)

-- The digits of the masks, in the order of the loops.
control_mask :
    (i : ℕ)
    → i < 32
    → testbit fpcr_mxcsr_mask i ≡ (
        i == 8
        || (i == 15
            || (i == 9
                || (i == 10 || (i == 11 || (i == 12 || (i == 22 || (i == 23 || i == 24))))))))
unfolding testbit
control_mask i h =
    agree_below_sound 32 (testbit fpcr_mxcsr_mask)
      (λ i.
        i == 8
        || (i == 15
            || (i == 9
                || (i == 10 || (i == 11 || (i == 12 || (i == 22 || (i == 23 || i == 24))))))))
      i refl h

status_mask :
    (i : ℕ)
    → i < 32
    → testbit fpsr_mxcsr_mask i ≡ (i == 0 || (i == 7 || (i == 1 || (i == 2 || (i == 3 || i == 4)))))
unfolding testbit
status_mask i h =
    agree_below_sound 32 (testbit fpsr_mxcsr_mask)
      (λ i. i == 0 || (i == 7 || (i == 1 || (i == 2 || (i == 3 || i == 4))))) i refl h

and_or : (a b c : Bool) → (a && (b || c)) ≡ ((a && b) || (a && c))
and_or true b c = refl
and_or false b c = refl

far : (k i : ℕ) → k < 32 → 32 ≤ i → (i == k) ≡ false
far k i low high = ground arith

control_of-lt : (m : ℕ) → control_of m < 2 ^ 32
control_of-lt m = lt_of_bits 32 (control_of m) λ i above.
    control_bit m i
    ∙ rw
        (
          far 8 i (omega arith) above,
          far 15 i (omega arith) above,
          far 9 i (omega arith) above,
          far 10 i (omega arith) above,
          far 11 i (omega arith) above,
          far 12 i (omega arith) above,
          far 22 i (omega arith) above,
          far 23 i (omega arith) above,
          far 24 i (omega arith) above,
        )
        (simp (and_false) refl)

status_of-lt : (m : ℕ) → status_of m < 2 ^ 32
status_of-lt m = lt_of_bits 32 (status_of m) λ i above.
    status_bit m i
    ∙ rw
        (
          far 0 i (omega arith) above,
          far 7 i (omega arith) above,
          far 1 i (omega arith) above,
          far 2 i (omega arith) above,
          far 3 i (omega arith) above,
          far 4 i (omega arith) above,
        )
        (simp (and_false) refl)

-- ARM control and status words that are turned into MXCSR are turned back into the part of them
-- that MXCSR has, and MXCSR never asks for denormals-are-zero then.
pub fp-mxcsr_round_trip :
    (fpcr fpsr : ℕ)
    → fp_from_mxcsr_checked (mxcsr_from_fp fpcr fpsr)
      ≡ some (bit_and fpcr fpcr_mxcsr_mask, bit_and fpsr fpsr_mxcsr_mask)
unfolding fp_from_mxcsr_checked
fp-mxcsr_round_trip fpcr fpsr =
    let m = mxcsr_from_fp fpcr fpsr in
    let no_daz : testbit m 6 ≡ false = mxcsr_bit fpcr fpsr 6 in
    let control : control_of m ≡ bit_and fpcr fpcr_mxcsr_mask =
      testbit_ext 32 (control_of m) (bit_and fpcr fpcr_mxcsr_mask) (control_of-lt m)
        (bit_and-lt 32 fpcr fpcr_mxcsr_mask (omega arith))
        (λ i h.
          control_bit m i
          ∙ simp
              (
                mxcsr_bit fpcr fpsr,
                not-not,
                testbit-bit_and,
                control_mask i h,
                and_or,
                bit_moved fpcr 8 i,
                bit_moved fpcr 15 i,
                bit_moved fpcr 9 i,
                bit_moved fpcr 10 i,
                bit_moved fpcr 11 i,
                bit_moved fpcr 12 i,
                bit_moved fpcr 22 i,
                bit_moved fpcr 23 i,
                bit_moved fpcr 24 i,
              )
              refl) in
    let status : status_of m ≡ bit_and fpsr fpsr_mxcsr_mask =
      testbit_ext 32 (status_of m) (bit_and fpsr fpsr_mxcsr_mask) (status_of-lt m)
        (bit_and-lt 32 fpsr fpsr_mxcsr_mask (omega arith))
        (λ i h.
          status_bit m i
          ∙ simp
              (
                mxcsr_bit fpcr fpsr,
                testbit-bit_and,
                status_mask i h,
                and_or,
                bit_moved fpsr 0 i,
                bit_moved fpsr 7 i,
                bit_moved fpsr 1 i,
                bit_moved fpsr 2 i,
                bit_moved fpsr 3 i,
                bit_moved fpsr 4 i,
              )
              refl) in
    rw (bit_test 6 m, no_daz) (ap (λ p. some p) (λ j. (control j, status j)))
