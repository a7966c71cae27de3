-- ===== src/Prelude/Shift.antt =====
-- Binary digits of powers of two and of shifted numbers.
use Prim.Native.Nat.{ℕ, zero, suc, ◌+◌, ◌-◌, ◌*◌, ◌/◌, ◌^◌, ◌<◌, ◌≤◌, bit_and}
use mathlib.Core.Path.{◌≡◌, refl, ap, sym, ◌∙◌}
use mathlib.Core.Bool.{false, not, ◌&&◌}
use native.Mathlib.Nat.{pow-suc, div-div-eq-div-mul}
use native.Mathlib.Omega.{arith}
use metal_sharp_wine_runtime.Prelude.Tests.{◌==◌, ltb, if◌then◌else◌, Bool-cases, ==-eq}
use mathlib.Core.Logic.{inl, inr}
use metal_sharp_wine_runtime.Prelude.Bits.{testbit, bit_test, mul-pow-suc}

pub testbit-zero : (i : ℕ) → testbit 0 i ≡ false
unfolding testbit
testbit-zero zero = refl
testbit-zero (suc i) = testbit-zero i

pub testbit-pow : (k i : ℕ) → testbit (2 ^ k) i ≡ (i == k)
unfolding testbit
testbit-pow zero zero = refl
testbit-pow zero (suc i) = ground (arith, testbit-zero i)
testbit-pow (suc k) zero = ground (arith, pow-suc 2 k)
testbit-pow (suc k) (suc i) =
    let half : 2 ^ suc k / 2 ≡ 2 ^ k = omega (arith, pow-suc 2 k) in
    rw half (ground (arith, testbit-pow k i))

pub testbit-shifted :
    (k x i : ℕ) → testbit (x * 2 ^ k) i ≡ (if ltb i k then false else testbit x (i - k))
unfolding testbit
testbit-shifted zero x i = let same : x * 2 ^ 0 ≡ x = omega arith in rw same (ground arith)
testbit-shifted (suc k) x zero =
    let even : x * 2 ^ suc k ≡ 2 * (x * 2 ^ k) = mul-pow-suc x k in ground arith
testbit-shifted (suc k) x (suc i) =
    let half : x * 2 ^ suc k / 2 ≡ x * 2 ^ k = omega (arith, mul-pow-suc x k) in
    rw half (ground (arith, testbit-shifted k x i))

pub bit_clear : (k x : ℕ) → (bit_and x (2 ^ k) == 0) ≡ not (testbit x k)
bit_clear k x = ground (arith, bit_test k x)

pub testbit-div : (k x j : ℕ) → testbit (x / 2 ^ k) j ≡ testbit x (j + k)
unfolding testbit
testbit-div zero x j =
    let whole : x / 2 ^ 0 ≡ x = omega arith in
    let here : j + 0 ≡ j = omega arith in rw (whole, here) refl
testbit-div (suc k) x j =
    let next : x / 2 ^ suc k ≡ x / 2 / 2 ^ k =
      ap (λ d. x / d) (omega (arith, pow-suc 2 k)) ∙ sym (div-div-eq-div-mul x 2 (2 ^ k)) in
    let there : j + suc k ≡ suc (j + k) = omega arith in rw (next, there) (testbit-div k (x / 2) j)

no_bits : (n x : ℕ) → x ≤ n → ((i : ℕ) → testbit x i ≡ false) → x ≡ 0
unfolding testbit
no_bits zero x h none_set = omega arith
no_bits (suc n) x h none_set =
    let half : x / 2 ≡ 0 = no_bits n (x / 2) (omega arith) (λ i. none_set (suc i)) in
    ground (arith, none_set 0)

-- A number without bits from `w` on is below `2 ^ w`.
pub lt_of_bits : (w x : ℕ) → ((i : ℕ) → w ≤ i → testbit x i ≡ false) → x < 2 ^ w
unfolding testbit
lt_of_bits zero x above = omega (arith, no_bits x x (omega arith) (λ i. above i (omega arith)))
lt_of_bits (suc w) x above =
    omega (arith, pow-suc 2 w, lt_of_bits w (x / 2) (λ i h. above (suc i) (omega arith)))

-- A bit is the same at an equal place.
pub bit_moved : (w k i : ℕ) → (testbit w k && i == k) ≡ (testbit w i && i == k)
bit_moved w k i = elim (Bool-cases (i == k)) [
  | inl here ↦ rw (==-eq i k here) refl
  | inr there ↦ ground arith
]
