-- ===== src/Prelude/Bits.antt =====
-- Binary digits of a native number: `testbit`, its values at `&` and `|`, and extensionality.
-- C's `(x & (1 << k)) != 0` is `testbit x k`.
use Prim.Native.Nat.{
  ℕ, zero, suc, ◌+◌, ◌*◌, ◌/◌, ◌%◌, ◌^◌, ◌≤◌, ◌<◌, min, max, bit_and, bit_or, digits,
  bit_and-bitwise, bit_or-bitwise,
}
use mathlib.Core.Path.{◌≡◌, refl, ap}
use mathlib.Core.Bool.{Bool, true, false, ◌&&◌, ◌||◌, not}
use native.Mathlib.Nat.{pow-suc}
use native.Mathlib.Omega.{arith}
use metal_sharp_wine_runtime.Prelude.Tests.{◌==◌, ◌!=◌, if◌then◌else◌}

-- More fuel than the number is worth changes nothing.
more_fuel :
    (z : ℕ → ℕ) (f : ℕ → ℕ → ℕ) (n m a b : ℕ) → a ≤ n → a ≤ m → digits z f n a b ≡ digits z f m a b
more_fuel z f n m zero b p q = at_zero n m
  where
    at_zero : (n m : ℕ) → digits z f n zero b ≡ digits z f m zero b
    at_zero zero zero = refl
    at_zero zero (suc m) = refl
    at_zero (suc n) zero = refl
    at_zero (suc n) (suc m) = refl
more_fuel z f zero m (suc a) b p q = absurd (omega arith)
more_fuel z f (suc n) zero (suc a) b p q = absurd (omega arith)
more_fuel z f (suc n) (suc m) (suc a) b p q =
    omega (arith, more_fuel z f n m (suc a / 2) (b / 2) (omega arith) (omega arith))

pub bit_and_halves : (a b : ℕ) → bit_and a b ≡ bit_and (a / 2) (b / 2) * 2 + min (a % 2) (b % 2)
bit_and_halves zero b = simp bit_and-bitwise (omega arith)
bit_and_halves (suc a) b =
    let fuel = more_fuel (λ y. 0) min a (suc a / 2) (suc a / 2) (b / 2) in
    simp bit_and-bitwise (omega (arith, fuel (omega arith) (omega arith)))

pub bit_or_halves : (a b : ℕ) → bit_or a b ≡ bit_or (a / 2) (b / 2) * 2 + max (a % 2) (b % 2)
bit_or_halves zero b = simp bit_or-bitwise (omega arith)
bit_or_halves (suc a) b =
    let fuel = more_fuel (λ y. y) max a (suc a / 2) (suc a / 2) (b / 2) in
    simp bit_or-bitwise (omega (arith, fuel (omega arith) (omega arith)))

unfoldable pub testbit : ℕ → ℕ → Bool
testbit x zero = x % 2 == 1
testbit x (suc i) = testbit (x / 2) i

pub testbit-bit_and : (i a b : ℕ) → testbit (bit_and a b) i ≡ (testbit a i && testbit b i)
unfolding testbit
testbit-bit_and zero a b = ground (arith, bit_and_halves a b)
testbit-bit_and (suc i) a b =
    let half : bit_and a b / 2 ≡ bit_and (a / 2) (b / 2) = omega (arith, bit_and_halves a b) in
    rw half (testbit-bit_and i (a / 2) (b / 2))

pub testbit-bit_or : (i a b : ℕ) → testbit (bit_or a b) i ≡ (testbit a i || testbit b i)
unfolding testbit
testbit-bit_or zero a b = ground (arith, bit_or_halves a b)
testbit-bit_or (suc i) a b =
    let half : bit_or a b / 2 ≡ bit_or (a / 2) (b / 2) = omega (arith, bit_or_halves a b) in
    rw half (testbit-bit_or i (a / 2) (b / 2))

-- Numbers below `2 ^ w` with the same `w` digits are equal.
pub testbit_ext :
    (w x y : ℕ) → x < 2 ^ w → y < 2 ^ w → ((i : ℕ) → i < w → testbit x i ≡ testbit y i) → x ≡ y
unfolding testbit
testbit_ext zero x y p q h = omega arith
testbit_ext (suc w) x y p q h =
    let rest =
      testbit_ext w (x / 2) (y / 2) (omega (arith, pow-suc 2 w)) (omega (arith, pow-suc 2 w))
        (λ i lt. h (suc i) (omega arith)) in
    ground (arith, h 0, rest)

pub mul-pow-suc : (q k : ℕ) → q * 2 ^ suc k ≡ 2 * (q * 2 ^ k)
mul-pow-suc q k = omega (arith, ap (λ (t : ℕ). q * t) (pow-suc 2 k))

bit_or-zero_bounded : (n a : ℕ) → a ≤ n → bit_or a 0 ≡ a
bit_or-zero_bounded n zero h = refl
bit_or-zero_bounded zero (suc a) h = absurd (omega arith)
bit_or-zero_bounded (suc n) (suc a) h =
    omega (arith, bit_or_halves (suc a) 0, bit_or-zero_bounded n (suc a / 2) (omega arith))

pub bit_or-zero : (a : ℕ) → bit_or a 0 ≡ a
bit_or-zero a = bit_or-zero_bounded a a (omega arith)

pub zero-bit_or : (b : ℕ) → bit_or 0 b ≡ b
zero-bit_or b = bit_or-bitwise 0 b

-- `|` of a field of `k` bits and one that starts at bit `k` is their sum.
pub bit_or-shifted : (k r q : ℕ) → r < 2 ^ k → bit_or r (q * 2 ^ k) ≡ r + q * 2 ^ k
bit_or-shifted zero zero q h = omega (arith, zero-bit_or (q * 2 ^ 0))
bit_or-shifted zero (suc r) q h = absurd (omega arith)
bit_or-shifted (suc k) r q h =
    let halved : r / 2 < 2 ^ k = omega (arith, pow-suc 2 k) in
    let even : q * 2 ^ suc k / 2 ≡ q * 2 ^ k = omega (arith, mul-pow-suc q k) in
    let rest : bit_or (r / 2) (q * 2 ^ suc k / 2) ≡ r / 2 + q * 2 ^ k =
      rw even (bit_or-shifted k (r / 2) q halved) in
    omega (arith, bit_or_halves r (q * 2 ^ suc k), mul-pow-suc q k, rest)

bit_and-zero_bounded : (n a : ℕ) → a ≤ n → bit_and a 0 ≡ 0
bit_and-zero_bounded n zero h = refl
bit_and-zero_bounded zero (suc a) h = absurd (omega arith)
bit_and-zero_bounded (suc n) (suc a) h =
    omega (arith, bit_and_halves (suc a) 0, bit_and-zero_bounded n (suc a / 2) (omega arith))

pub bit_and-zero : (a : ℕ) → bit_and a 0 ≡ 0
bit_and-zero a = bit_and-zero_bounded a a (omega arith)

-- C's test of a single bit.
pub bit_test : (k x : ℕ) → (bit_and x (2 ^ k) != 0) ≡ testbit x k
unfolding testbit
bit_test zero x = ground (arith, bit_and_halves x 1, bit_and-zero (x / 2))
bit_test (suc k) x =
    let double : 2 ^ suc k ≡ 2 * 2 ^ k = omega (arith, pow-suc 2 k) in
    let half : 2 ^ suc k / 2 ≡ 2 ^ k = omega arith in
    let step : bit_and x (2 ^ suc k) ≡ bit_and (x / 2) (2 ^ suc k / 2) * 2 =
      omega (arith, bit_and_halves x (2 ^ suc k)) in
    let rest : (bit_and (x / 2) (2 ^ suc k / 2) != 0) ≡ testbit (x / 2) k =
      rw half (bit_test k (x / 2)) in
    ground arith

pub bit_or-lt : (w a b : ℕ) → a < 2 ^ w → b < 2 ^ w → bit_or a b < 2 ^ w
bit_or-lt zero zero b p q = omega (arith, zero-bit_or b)
bit_or-lt zero (suc a) b p q = absurd (omega arith)
bit_or-lt (suc w) a b p q =
    let rest =
      bit_or-lt w (a / 2) (b / 2) (omega (arith, pow-suc 2 w)) (omega (arith, pow-suc 2 w)) in
    omega (arith, bit_or_halves a b, pow-suc 2 w)

pub bit_and-lt : (w a b : ℕ) → b < 2 ^ w → bit_and a b < 2 ^ w
bit_and-lt zero a zero q = omega (arith, bit_and-zero a)
bit_and-lt zero a (suc b) q = absurd (omega arith)
bit_and-lt (suc w) a b q =
    let rest = bit_and-lt w (a / 2) (b / 2) (omega (arith, pow-suc 2 w)) in
    omega (arith, bit_and_halves a b, pow-suc 2 w)

-- Digits of a constant, by evaluation: `f` and `g` agree below `n`.
abbrev pub agree_below : ℕ → (ℕ → Bool) → (ℕ → Bool) → Bool
agree_below zero f g = true
agree_below (suc n) f g = (if f n then g n else not (g n)) && agree_below n f g

pub agree_below_sound :
    (n : ℕ) (f g : ℕ → Bool) (i : ℕ) → agree_below n f g ≡ true → i < n → f i ≡ g i
agree_below_sound zero f g i h lt = absurd (omega arith)
agree_below_sound (suc n) f g i h lt = ground (arith, agree_below_sound n f g i)

-- `if (test) r |= m;`
abbrev pub or_if : Bool → ℕ → ℕ → ℕ
or_if true m r = bit_or r m
or_if false m r = r

pub testbit-or_if :
    (t : Bool) (m r i : ℕ) → testbit (or_if t m r) i ≡ (testbit r i || (t && testbit m i))
testbit-or_if true m r i = testbit-bit_or i r m
testbit-or_if false m r i = ground arith

pub or_if-lt : (w : ℕ) (t : Bool) (m r : ℕ) → m < 2 ^ w → r < 2 ^ w → or_if t m r < 2 ^ w
or_if-lt w true m r p q = bit_or-lt w r m q p
or_if-lt w false m r p q = q
