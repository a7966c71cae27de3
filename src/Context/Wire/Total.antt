-- ===== src/Context/Wire/Total.antt =====
-- src/gem/context_serialization.c: the readers stay inside the buffer, and what is accepted is
-- well formed.
use metal_sharp_wine_runtime.Prelude.{
  ℕ, zero, suc, ◌+◌, ◌-◌, ◌*◌, ◌%◌, ◌^◌, ◌≤◌, ◌≡◌, refl, inl, inr, Bool, true, false, some, List,
  [], ◌∷◌, arith, length, ◌!=◌, bit_or, Bool-cases,
}
use metal_sharp_wine_runtime.Context.{U128, ThreadContext, is_valid, stop_invariant_violation}
use metal_sharp_wine_runtime.Context.Words.{
  Reader, ◌>>=◌, pure, get_byte, get_loop, get16, get32, get64, get128, get64s, get128s,
}
use metal_sharp_wine_runtime.Context.Wire.{
  decode, header_matches, deserialize, out_of_range, Outcome, returned, refused, parse,
  after_decode, after_header, accept,
}

-- A reader that takes `k` bytes whenever there are as many.
abbrev Takes : {A : Type 0} → Reader A → ℕ → Type 0
Takes {A} m k =
    (p : List ℕ)
    → k ≤ length p
    → (a : A) × (q : List ℕ) × (m p ≡ some (a, q)) × (length q + k ≡ length p)

then-Takes :
    {A B : Type 0} (m : Reader A) (f : A → Reader B) (k j : ℕ)
    → Takes m k
    → ((a : A) → Takes (f a) j)
    → Takes (◌>>=◌ m f) (k + j)
then-Takes m f k j first rest p long =
    let (a, q, e, l) = first p (omega arith) in
    let (b, r, e', l') = rest a q (omega arith) in (b, r, rw (e, ◌>>=◌) e', omega arith)

pure-Takes : {A : Type 0} (a : A) → Takes (pure a) 0
pure-Takes a p long = (a, p, refl, omega arith)

get_byte-Takes : Takes get_byte 1
get_byte-Takes [] long = absurd (omega arith)
get_byte-Takes (b ∷ p) long = (b, p, refl, omega arith)

get_loop-Takes : (w left i v : ℕ) → Takes (get_loop w left i v) left
get_loop-Takes w zero i v p long = pure-Takes v p long
get_loop-Takes w (suc left) i v [] long = absurd (omega arith)
get_loop-Takes w (suc left) i v (b ∷ p) long =
    let v' = bit_or v ((b * 2 ^ (i * 8)) % 2 ^ w) in
    let (a, q, e, l) = get_loop-Takes w left (i + 1) v' p (omega arith) in (a, q, e, omega arith)

get16-Takes : Takes get16 2
unfolding get16
get16-Takes =
    then-Takes get_byte _ 1 1 get_byte-Takes
      λ a. then-Takes get_byte _ 1 0 get_byte-Takes λ b. pure-Takes _

get32-Takes : Takes get32 4
unfolding get32
get32-Takes = get_loop-Takes 32 4 0 0

get64-Takes : Takes get64 8
unfolding get64
get64-Takes = get_loop-Takes 64 8 0 0

get128-Takes : Takes get128 16
unfolding get128
get128-Takes =
    then-Takes get64 _ 8 8 get64-Takes λ lo. then-Takes get64 _ 8 0 get64-Takes λ hi. pure-Takes _

get64s-Takes : (n : ℕ) → Takes (get64s n) (n * 8)
unfolding get64s
get64s-Takes zero p long = pure-Takes [] p long
get64s-Takes (suc n) p long =
    let rest = λ (x : ℕ).
      then-Takes (get64s n) (λ xs. pure (x ∷ xs)) (n * 8) 0 (get64s-Takes n)
        (λ xs. pure-Takes (x ∷ xs)) in
    let (a, q, e, l) = then-Takes get64 _ 8 (n * 8 + 0) get64-Takes rest p (omega arith) in
    (a, q, e, omega arith)

get128s-Takes : (n : ℕ) → Takes (get128s n) (n * 16)
unfolding get128s
get128s-Takes zero p long = pure-Takes [] p long
get128s-Takes (suc n) p long =
    let rest = λ (x : U128).
      then-Takes (get128s n) (λ xs. pure (x ∷ xs)) (n * 16) 0 (get128s-Takes n)
        (λ xs. pure-Takes (x ∷ xs)) in
    let (a, q, e, l) = then-Takes get128 _ 16 (n * 16 + 0) get128-Takes rest p (omega arith) in
    (a, q, e, omega arith)

decode-Takes : Takes decode 720
unfolding decode
decode-Takes = then-Takes get32 _ 4 716 get32-Takes λ _. then-Takes get32 _ 4 712 get32-Takes λ _.
    then-Takes (get64s 31) _ 248 464 (get64s-Takes 31) λ _.
      then-Takes get64 _ 8 456 get64-Takes λ _. then-Takes get64 _ 8 448 get64-Takes λ _.
        then-Takes get32 _ 4 444 get32-Takes λ _. then-Takes get32 _ 4 440 get32-Takes λ _.
          then-Takes get32 _ 4 436 get32-Takes λ _. then-Takes get32 _ 4 432 get32-Takes λ _.
            then-Takes (get128s 16) _ 256 176 (get128s-Takes 16) λ _.
              then-Takes get64 _ 8 168 get64-Takes λ _. then-Takes get32 _ 4 164 get32-Takes λ _.
                then-Takes get16 _ 2 162 get16-Takes λ _. then-Takes get16 _ 2 160 get16-Takes λ _.
                  then-Takes (get128s 8) _ 128 32 (get128s-Takes 8) λ _.
                    then-Takes get64 _ 8 24 get64-Takes λ _.
                      then-Takes get64 _ 8 16 get64-Takes λ _.
                        then-Takes get64 _ 8 8 get64-Takes λ _.
                          then-Takes get32 _ 4 4 get32-Takes
                            λ _. then-Takes get32 _ 4 0 get32-Takes λ _. pure-Takes _

header_matches-Takes : Takes header_matches 20
unfolding header_matches
header_matches-Takes = then-Takes get32 _ 4 16 get32-Takes λ _.
    then-Takes get32 _ 4 12 get32-Takes λ _. then-Takes get32 _ 4 8 get32-Takes λ _.
      then-Takes get32 _ 4 4 get32-Takes λ _. then-Takes get32 _ 4 0 get32-Takes λ _. pure-Takes _

-- What a call may return: a refusal, or a well-formed context and the whole message consumed.
pub data Sound : Outcome → Type 0 where
  refusal : Sound refused
  accepted :
      (c : ThreadContext)
      → is_valid (some c) ≡ true
      → c.reserved0 ≡ 0
      → c.stop_reason ≤ stop_invariant_violation
      → Sound (returned (record { result = some c; read = 740 }))

accept-Sound : (c : ThreadContext) → Sound (accept c 740)
unfolding accept out_of_range
accept-Sound c = elim (Bool-cases (is_valid (some c))) [
  | inr bad ↦ rw (bad, accept) refusal
  | inl valid ↦ elim (Bool-cases (out_of_range c)) [
    | inl bad ↦ rw (valid, bad, accept) refusal
    | inr fine ↦ rw (valid, fine, accept) (accepted c valid (ground arith) (ground arith))
  ]
]

after_header-Sound :
    (b : List ℕ) (matched : Bool) (p : List ℕ)
    → length p + 20 ≡ length b
    → 740 ≤ length b
    → Sound (after_header b (some (matched, p)))
unfolding after_header after_decode
after_header-Sound b false p l long = refusal
after_header-Sound b true p l long =
    let (c, q, e, l') = decode-Takes p (omega arith) in
    let count : length b - length q ≡ 740 = omega arith in rw (e, count) (accept-Sound c)

-- Whatever the bytes are, `gem_context_deserialize` stays inside a buffer of at least `n` bytes:
-- it either refuses, or returns a context that is valid, with a zero reserved word and a stop
-- reason of the enumeration, after reading 740 bytes.
pub deserialize-Sound : (b : List ℕ) (n : ℕ) → n ≤ length b → Sound (deserialize true (some b) n)
unfolding deserialize parse
deserialize-Sound b n fits = elim (Bool-cases (n != 740)) [
  | inl other ↦ rw (other, deserialize) refusal
  | inr full ↦
      let (matched, p, e, l) = header_matches-Takes b (ground arith) in
      rw (full, e, deserialize) (after_header-Sound b matched p l (ground arith))
]
