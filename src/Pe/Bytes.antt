-- ===== src/Pe/Bytes.antt =====
-- src/gem/pe_arm64x.c: checked sums and products, and the little-endian reads.
use metal_sharp_wine_runtime.Prelude.{
  ℕ, zero, suc, ◌+◌, ◌-◌, ◌*◌, ◌/◌, ◌^◌, ◌≤◌, ◌<◌, ◌≡◌, bit_or, Bool, true, false, ◌&&◌, Option,
  none, some, List, [], ◌∷◌, ◌!=◌, ltb, leb, if◌then◌else◌, length, arith, bit_or-lt,
}
use metal_sharp_wine_runtime.Pe.{Attempt, done, fault, ◌>>=◌}
use metal_sharp_wine_runtime.Pe.Ensures.{Ensures, holds, Ensures-bind}

unfoldable pub checked_add_size : ℕ → ℕ → Option ℕ
checked_add_size a b = if ltb (2 ^ 64 - 1 - b) a then none else some (a + b)

unfoldable pub checked_mul_size : ℕ → ℕ → Option ℕ
checked_mul_size a b = if a != 0 && ltb ((2 ^ 64 - 1) / a) b then none else some (a * b)

unfoldable pub checked_add_u32 : ℕ → ℕ → Option ℕ
checked_add_u32 a b = if ltb (2 ^ 32 - 1 - b) a then none else some (a + b)

-- `checked_add(a, b, &end) && end <= limit`
abbrev pub at_most : Option ℕ → ℕ → Bool
at_most none limit = false
at_most (some end) limit = leb end limit

unfoldable pub file_span_fits : ℕ → ℕ → ℕ → Bool
unfolding checked_add_size
file_span_fits byte_count offset size = at_most (checked_add_size offset size) byte_count

-- `bytes[offset]`
unfoldable pub byte_at : List ℕ → ℕ → Attempt ℕ
byte_at [] i = fault
byte_at (b ∷ bs) zero = done b
byte_at (b ∷ bs) (suc i) = byte_at bs i

unfoldable pub read_u16le_unchecked : List ℕ → ℕ → Attempt ℕ
unfolding byte_at
read_u16le_unchecked bytes offset = do
  b0 ← byte_at bytes offset
  b1 ← byte_at bytes (offset + 1)
  done (bit_or b0 (b1 * 2 ^ 8))

unfoldable pub read_u32le_unchecked : List ℕ → ℕ → Attempt ℕ
unfolding byte_at
read_u32le_unchecked bytes offset = do
  b0 ← byte_at bytes offset
  b1 ← byte_at bytes (offset + 1)
  b2 ← byte_at bytes (offset + 2)
  b3 ← byte_at bytes (offset + 3)
  done (bit_or (bit_or (bit_or b0 (b1 * 2 ^ 8)) (b2 * 2 ^ 16)) (b3 * 2 ^ 24))

unfoldable pub read_u64le_unchecked : List ℕ → ℕ → Attempt ℕ
unfolding read_u32le_unchecked
read_u64le_unchecked bytes offset = do
  lo ← read_u32le_unchecked bytes offset
  hi ← read_u32le_unchecked bytes (offset + 4)
  done (bit_or lo (hi * 2 ^ 32))

-- Every element is a byte.
abbrev pub IsBytes : List ℕ → Type 0
IsBytes [] = Unit
IsBytes (b ∷ bs) = (b < 256) × IsBytes bs

pub byte_at-Ensures :
    (bs : List ℕ) (i : ℕ) → IsBytes bs → i < length bs → Ensures (λ b. b < 2 ^ 8) (byte_at bs i)
unfolding byte_at
byte_at-Ensures [] i p h = absurd (omega arith)
byte_at-Ensures (b ∷ bs) zero p h = holds (omega arith)
byte_at-Ensures (b ∷ bs) (suc i) p h = byte_at-Ensures bs i p.1 (omega arith)

module _ (bs : List ℕ) (offset : ℕ) (bytes : IsBytes bs) where
  pub read_u16le_unchecked-Ensures :
      offset + 2 ≤ length bs → Ensures (λ v. v < 2 ^ 16) (read_u16le_unchecked bs offset)
  unfolding read_u16le_unchecked
  read_u16le_unchecked-Ensures h =
      Ensures-bind (byte_at-Ensures bs offset bytes (omega arith)) λ b0 h0.
        Ensures-bind (byte_at-Ensures bs (offset + 1) bytes (omega arith))
          λ b1 h1. holds (bit_or-lt 16 b0 (b1 * 2 ^ 8) (omega arith) (omega arith))

  pub read_u32le_unchecked-Ensures :
      offset + 4 ≤ length bs → Ensures (λ v. v < 2 ^ 32) (read_u32le_unchecked bs offset)
  unfolding read_u32le_unchecked
  read_u32le_unchecked-Ensures h =
      Ensures-bind (byte_at-Ensures bs offset bytes (omega arith)) λ b0 h0.
        Ensures-bind (byte_at-Ensures bs (offset + 1) bytes (omega arith)) λ b1 h1.
          Ensures-bind (byte_at-Ensures bs (offset + 2) bytes (omega arith)) λ b2 h2.
            Ensures-bind (byte_at-Ensures bs (offset + 3) bytes (omega arith)) λ b3 h3. holds (
              bit_or-lt 32 (bit_or (bit_or b0 (b1 * 2 ^ 8)) (b2 * 2 ^ 16)) (b3 * 2 ^ 24)
                (bit_or-lt 32 (bit_or b0 (b1 * 2 ^ 8)) (b2 * 2 ^ 16)
                  (bit_or-lt 32 b0 (b1 * 2 ^ 8) (omega arith) (omega arith)) (omega arith))
                (omega arith))

module _ (bs : List ℕ) (offset : ℕ) (bytes : IsBytes bs) where
  pub read_u64le_unchecked-Ensures :
      offset + 8 ≤ length bs → Ensures (λ v. v < 2 ^ 64) (read_u64le_unchecked bs offset)
  unfolding read_u64le_unchecked
  read_u64le_unchecked-Ensures h =
      Ensures-bind (read_u32le_unchecked-Ensures bs offset bytes (omega arith)) λ lo hlo.
        Ensures-bind (read_u32le_unchecked-Ensures bs (offset + 4) bytes (omega arith))
          λ hi hhi. holds (bit_or-lt 64 lo (hi * 2 ^ 32) (omega arith) (omega arith))

pub checked_add_u32_lem :
    (a b c : ℕ) → b < 2 ^ 32 → checked_add_u32 a b ≡ some c → (c ≡ a + b) × (c < 2 ^ 32)
unfolding checked_add_u32
checked_add_u32_lem a b c h e = ground arith

pub checked_add_size_lem : (a b c : ℕ) → checked_add_size a b ≡ some c → c ≡ a + b
unfolding checked_add_size
checked_add_size_lem a b c e = ground arith

pub checked_mul_size_lem : (a b c : ℕ) → checked_mul_size a b ≡ some c → c ≡ a * b
unfolding checked_mul_size
checked_mul_size_lem a b c e = ground arith

pub file_span_fits_lem :
    (n offset size : ℕ) → file_span_fits n offset size ≡ true → offset + size ≤ n
unfolding file_span_fits
file_span_fits_lem n offset size e = ground arith
