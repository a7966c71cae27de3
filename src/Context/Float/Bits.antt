-- ===== src/Context/Float/Bits.antt =====
-- src/gem/context_conversion.c: the floating-point words, bit by bit.
use metal_sharp_wine_runtime.Prelude.{
  ℕ, zero, suc, ◌+◌, ◌*◌, ◌/◌, ◌%◌, ◌^◌, ◌<◌, ◌≡◌, Bool, false, ◌&&◌, ◌||◌, not, ◌==◌,
  if◌then◌else◌, bit_and, testbit, testbit-bit_and, testbit-bit_or, testbit-or_if, bit_test,
  testbit-zero, testbit-pow, testbit-shifted, testbit-div, bit_clear, arith, bit_and_halves,
  bit_and-zero, ==-eq, Bool-cases, inl, inr, List, [], ◌∷◌, get_or,
}
use metal_sharp_wine_runtime.Context.Float.Digits.{digits-get_or, or_assoc}
use metal_sharp_wine_runtime.Context.Float.{mxcsr_from_fp, other_round}

-- The two low bits of a word.
low_bits : (w : ℕ) → bit_and w 3 ≡ w / 2 % 2 * 2 + w % 2
low_bits w = omega (arith, bit_and_halves w 3, bit_and_halves (w / 2) 1, bit_and-zero (w / 2 / 2))

other_round-lt : (w : ℕ) → other_round (bit_and w 3) < 4
other_round-lt w = ground (arith, low_bits w)

-- The two bits of a rounding mode change places.
testbit-other_round :
    (w i : ℕ)
    → testbit (other_round (bit_and w 3)) i
      ≡ (if i == 0 then testbit w 1 else if i == 1 then testbit w 0 else false)
unfolding testbit
testbit-other_round w zero = ground (arith, low_bits w)
testbit-other_round w (suc zero) = ground (arith, low_bits w)
testbit-other_round w (suc (suc i)) =
    let nothing : other_round (bit_and w 3) / 2 / 2 ≡ 0 = omega (arith, other_round-lt w) in
    rw nothing (ground (arith, testbit-zero i))

testbit-low_bit : (w i : ℕ) → testbit (bit_and w 1) i ≡ (if i == 0 then testbit w 0 else false)
testbit-low_bit w i = elim (Bool-cases (i == 0)) [
  | inl here ↦ rw (testbit-bit_and i w 1, here, ==-eq i 0 here) (unfold testbit in ground arith)
  | inr there ↦ rw (testbit-bit_and i w 1, there) (ground (arith, testbit-pow 0 i))
]

-- A rounding mode taken from bit `k` of a word and put at bit `j`.
pub round_bits :
    (j k w i : ℕ)
    → testbit (other_round (bit_and (w / 2 ^ k) 3) * 2 ^ j) i
      ≡ ((testbit w (1 + k) && i == j) || (testbit w k && i == j + 1))
round_bits j k w i = simp (testbit-shifted, testbit-other_round, testbit-div) (ground arith)

-- A bit taken from `k` and put at `j`.
pub moved_bit : (j k w i : ℕ) → testbit (bit_and (w / 2 ^ k) 1 * 2 ^ j) i ≡ (testbit w k && i == j)
moved_bit j k w i = simp (testbit-shifted, testbit-low_bit, testbit-div) (ground arith)

-- The digits of the x64 word.
abbrev pub mxcsr_digits : ℕ → ℕ → List Bool
mxcsr_digits fpcr fpsr =
    testbit fpsr 0
    ∷ testbit fpsr 7
    ∷ testbit fpsr 1
    ∷ testbit fpsr 2
    ∷ testbit fpsr 3
    ∷ testbit fpsr 4
    ∷ false
    ∷ not (testbit fpcr 8)
    ∷ not (testbit fpcr 15)
    ∷ not (testbit fpcr 9)
    ∷ not (testbit fpcr 10)
    ∷ not (testbit fpcr 11)
    ∷ not (testbit fpcr 12)
    ∷ testbit fpcr 23
    ∷ testbit fpcr 22
    ∷ testbit fpcr 24
    ∷ []

pub mxcsr_bit :
    (fpcr fpsr i : ℕ)
    → testbit (mxcsr_from_fp fpcr fpsr) i ≡ get_or (mxcsr_digits fpcr fpsr) i false
unfolding mxcsr_from_fp
mxcsr_bit fpcr fpsr i =
    simp
      (
        testbit-or_if,
        testbit-bit_or,
        round_bits 13 22 fpcr i,
        moved_bit 15 24 fpcr i,
        testbit-zero,
        bit_test 0 fpsr,
        bit_test 7 fpsr,
        bit_test 1 fpsr,
        bit_test 2 fpsr,
        bit_test 3 fpsr,
        bit_test 4 fpsr,
        bit_clear 8 fpcr,
        bit_clear 15 fpcr,
        bit_clear 9 fpcr,
        bit_clear 10 fpcr,
        bit_clear 11 fpcr,
        bit_clear 12 fpcr,
        testbit-pow 0 i,
        testbit-pow 1 i,
        testbit-pow 2 i,
        testbit-pow 3 i,
        testbit-pow 4 i,
        testbit-pow 5 i,
        testbit-pow 7 i,
        testbit-pow 8 i,
        testbit-pow 9 i,
        testbit-pow 10 i,
        testbit-pow 11 i,
        testbit-pow 12 i,
        or_assoc,
      )
      (digits-get_or (mxcsr_digits fpcr fpsr) i)
