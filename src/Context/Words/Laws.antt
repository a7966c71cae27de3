-- ===== src/Context/Words/Laws.antt =====
-- Reading back what a writer of src/gem/context_serialization.c stored.
use native.Mathlib.Nat.{mod-eq_of_lt}
use mathlib.Core.List.{append_assoc}
use metal_sharp_wine_runtime.Prelude.{
  ℕ, ◌+◌, ◌*◌, ◌/◌, ◌%◌, ◌^◌, ◌<◌, ◌≡◌, refl, ap, Option, some, List, [], ◌∷◌, ◌++◌, arith, length,
  length-append, bit_or, bit_or-shifted,
}
use metal_sharp_wine_runtime.Context.{U128}
use metal_sharp_wine_runtime.Context.Shape.{AllBelow, AllU128}
use metal_sharp_wine_runtime.Context.Words.{
  put16, put32, put64, put128, Reader, ◌>>=◌, put64s, put128s, get16, get32, get64, get128, get64s,
  get128s,
}

join :
    (w k r b : ℕ) → r < 2 ^ k → b * 2 ^ k < 2 ^ w → bit_or r ((b * 2 ^ k) % 2 ^ w) ≡ r + b * 2 ^ k
join w k r b h fits = rw (mod-eq_of_lt fits) (bit_or-shifted k r b h)

-- A reader that succeeds hands its value and what is left to the rest of a `do` block.
pub after :
    {A B : Type 0} (m : Reader A) (f : A → Reader B) {p p' : List ℕ} {a : A}
    {r : Option (B × List ℕ)}
    → m p ≡ some (a, p')
    → f a p' ≡ r
    → ◌>>=◌ m f p ≡ r
after m f e rest = rw (e, ◌>>=◌) rest

pub get16-put16 : (v : ℕ) (rest : List ℕ) → v < 2 ^ 16 → get16 (put16 v ++ rest) ≡ some (v, rest)
unfolding get16 put16
get16-put16 v rest h =
    let low = v % 2 ^ 8 in
    let high = v / 2 ^ 8 % 2 ^ 8 in
    rw (join 16 8 low high (omega arith) (omega arith)) (ap (λ k. some (k, rest)) (omega arith))

pub get32-put32 : (v : ℕ) (rest : List ℕ) → v < 2 ^ 32 → get32 (put32 v ++ rest) ≡ some (v, rest)
unfolding get32 put32
get32-put32 v rest h =
    let b = λ (i : ℕ). v / 2 ^ (i * 8) % 2 ^ 8 in
    let s1 = 0 + b 0 * 2 ^ 0 in
    let s2 = s1 + b 1 * 2 ^ 8 in
    let s3 = s2 + b 2 * 2 ^ 16 in
    let s4 = s3 + b 3 * 2 ^ 24 in
    rw
      (
        join 32 0 0 (b 0) (omega arith) (omega arith),
        join 32 8 s1 (b 1) (omega arith) (omega arith),
        join 32 16 s2 (b 2) (omega arith) (omega arith),
        join 32 24 s3 (b 3) (omega arith) (omega arith),
      )
      (ap (λ k. some (k, rest)) (omega arith))

pub get64-put64 : (v : ℕ) (rest : List ℕ) → v < 2 ^ 64 → get64 (put64 v ++ rest) ≡ some (v, rest)
unfolding get64 put64
get64-put64 v rest h =
    let b = λ (i : ℕ). v / 2 ^ (i * 8) % 2 ^ 8 in
    let s1 = 0 + b 0 * 2 ^ 0 in
    let s2 = s1 + b 1 * 2 ^ 8 in
    let s3 = s2 + b 2 * 2 ^ 16 in
    let s4 = s3 + b 3 * 2 ^ 24 in
    let s5 = s4 + b 4 * 2 ^ 32 in
    let s6 = s5 + b 5 * 2 ^ 40 in
    let s7 = s6 + b 6 * 2 ^ 48 in
    let s8 = s7 + b 7 * 2 ^ 56 in
    rw
      (
        join 64 0 0 (b 0) (omega arith) (omega arith),
        join 64 8 s1 (b 1) (omega arith) (omega arith),
        join 64 16 s2 (b 2) (omega arith) (omega arith),
        join 64 24 s3 (b 3) (omega arith) (omega arith),
        join 64 32 s4 (b 4) (omega arith) (omega arith),
        join 64 40 s5 (b 5) (omega arith) (omega arith),
        join 64 48 s6 (b 6) (omega arith) (omega arith),
        join 64 56 s7 (b 7) (omega arith) (omega arith),
      )
      (ap (λ k. some (k, rest)) (omega arith))

pub get128-put128 :
    (q : U128) (rest : List ℕ)
    → q.lo < 2 ^ 64
    → q.hi < 2 ^ 64
    → get128 (put128 q ++ rest) ≡ some (q, rest)
unfolding get128 put128
get128-put128 q rest lo hi = rw (append_assoc (put64 q.lo) (put64 q.hi) rest) (
    after get64 _ (get64-put64 q.lo (put64 q.hi ++ rest) lo)
      (after get64 _ (get64-put64 q.hi rest hi) refl))

pub get64s-put64s :
    (xs rest : List ℕ)
    → AllBelow (2 ^ 64) xs
    → get64s (length xs) (put64s xs ++ rest) ≡ some (xs, rest)
unfolding get64s put64s
get64s-put64s [] rest h = refl
get64s-put64s (x ∷ xs) rest h = rw (append_assoc (put64 x) (put64s xs) rest) (
    after get64 _ (get64-put64 x (put64s xs ++ rest) h.0)
      (after (get64s (length xs)) _ (get64s-put64s xs rest h.1) refl))

pub get128s-put128s :
    (qs : List U128) (rest : List ℕ)
    → AllU128 qs
    → get128s (length qs) (put128s qs ++ rest) ≡ some (qs, rest)
unfolding get128s put128s
get128s-put128s [] rest h = refl
get128s-put128s (q ∷ qs) rest h = rw (append_assoc (put128 q) (put128s qs) rest) (
    after get128 _ (get128-put128 q (put128s qs ++ rest) h.0.0 h.0.1)
      (after (get128s (length qs)) _ (get128s-put128s qs rest h.1) refl))

pub length-put16 : (v : ℕ) → length (put16 v) ≡ 2
unfolding put16
length-put16 v = refl

pub length-put32 : (v : ℕ) → length (put32 v) ≡ 4
unfolding put32
length-put32 v = refl

pub length-put64 : (v : ℕ) → length (put64 v) ≡ 8
unfolding put64
length-put64 v = refl

pub length-put64s : (xs : List ℕ) → length (put64s xs) ≡ 8 * length xs
unfolding put64s
length-put64s [] = refl
length-put64s (x ∷ xs) =
    omega (arith, length-append (put64 x) (put64s xs), length-put64 x, length-put64s xs)

length-put128 : (q : U128) → length (put128 q) ≡ 16
unfolding put128
length-put128 q =
    omega (arith, length-append (put64 q.lo) (put64 q.hi), length-put64 q.lo, length-put64 q.hi)

pub length-put128s : (qs : List U128) → length (put128s qs) ≡ 16 * length qs
unfolding put128s
length-put128s [] = refl
length-put128s (q ∷ qs) =
    omega (arith, length-append (put128 q) (put128s qs), length-put128 q, length-put128s qs)
