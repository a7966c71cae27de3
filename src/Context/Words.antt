-- ===== src/Context/Words.antt =====
-- The byte writers and readers of src/gem/context_serialization.c. A writer yields the bytes
-- that it stores, and a reader takes its bytes from the front of what is left.
pub mod Laws
use metal_sharp_wine_runtime.Prelude.{
  ℕ, zero, suc, ◌+◌, ◌*◌, ◌/◌, ◌%◌, ◌^◌, Option, none, some, List, [], ◌∷◌, ◌++◌, bit_or,
}
use metal_sharp_wine_runtime.Context.{U128}

-- The loop over `i` of `put32` and `put64`, with the rounds left first.
abbrev pub put_loop : ℕ → ℕ → ℕ → List ℕ
put_loop zero i v = []
put_loop (suc left) i v = ((v / 2 ^ (i * 8)) % 2 ^ 8) ∷ put_loop left (i + 1) v

unfoldable pub put16 : ℕ → List ℕ
put16 v = (v % 2 ^ 8) ∷ ((v / 2 ^ 8) % 2 ^ 8) ∷ []

unfoldable pub put32 : ℕ → List ℕ
put32 v = put_loop 4 0 v

unfoldable pub put64 : ℕ → List ℕ
put64 v = put_loop 8 0 v

unfoldable pub put128 : U128 → List ℕ
put128 q = put64 q.lo ++ put64 q.hi

-- A reader moves its pointer; `none` is a read past the end of the buffer.
abbrev pub Reader : Type 0 → Type 0
Reader A = List ℕ → Option (A × List ℕ)

infixl 5 ◌>>=◌
abbrev pub ◌>>=◌ : {A B : Type 0} → Reader A → (A → Reader B) → Reader B
◌>>=◌ m f p = elim (m p) [ none ↦ none | some (a, p') ↦ f a p' ]

abbrev pub pure : {A : Type 0} → A → Reader A
pure a p = some (a, p)

abbrev pub get_byte : Reader ℕ
get_byte [] = none
get_byte (b ∷ p) = some (b, p)

-- The loop of `get32` and `get64` at width `w`.
abbrev pub get_loop : ℕ → ℕ → ℕ → ℕ → Reader ℕ
get_loop w zero i v = pure v
get_loop w (suc left) i v = do
  b ← get_byte
  get_loop w left (i + 1) (bit_or v ((b * 2 ^ (i * 8)) % 2 ^ w))

unfoldable pub get16 : Reader ℕ
get16 = do a ← get_byte; b ← get_byte; pure (bit_or a ((b * 2 ^ 8) % 2 ^ 16) % 2 ^ 16)

unfoldable pub get32 : Reader ℕ
get32 = get_loop 32 4 0 0

unfoldable pub get64 : Reader ℕ
get64 = get_loop 64 8 0 0

unfoldable pub get128 : Reader U128
get128 = do lo ← get64; hi ← get64; pure (record { lo = lo; hi = hi })

-- The loops of `encode` and `decode` over the register arrays.
unfoldable pub put64s : List ℕ → List ℕ
put64s [] = []
put64s (x ∷ xs) = put64 x ++ put64s xs

unfoldable pub put128s : List U128 → List ℕ
put128s [] = []
put128s (q ∷ qs) = put128 q ++ put128s qs

unfoldable pub get64s : ℕ → Reader (List ℕ)
get64s zero = pure []
get64s (suc n) = do x ← get64; xs ← get64s n; pure (x ∷ xs)

unfoldable pub get128s : ℕ → Reader (List U128)
get128s zero = pure []
get128s (suc n) = do q ← get128; qs ← get128s n; pure (q ∷ qs)
