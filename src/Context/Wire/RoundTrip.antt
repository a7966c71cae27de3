-- ===== src/Context/Wire/RoundTrip.antt =====
-- src/gem/context_serialization.c: what is written is what is read back.
use mathlib.Core.List.{append_assoc, append-nil}
use metal_sharp_wine_runtime.Prelude.{
  ℕ, ◌≤◌, ◌≡◌, refl, ◌∙◌, true, false, some, List, [], ◌++◌, arith, length, length-append, drop,
}
use metal_sharp_wine_runtime.Context.{ThreadContext, is_valid}
use metal_sharp_wine_runtime.Context.Shape.{HasShape}
use metal_sharp_wine_runtime.Context.Words.{
  put32, put64s, put128s, get16, get32, get64, get64s, get128s,
}
use metal_sharp_wine_runtime.Context.Words.Laws.{
  after, get16-put16, get32-put32, get64-put64, get64s-put64s, get128s-put128s, length-put16,
  length-put32, length-put64, length-put64s, length-put128s,
}
use metal_sharp_wine_runtime.Context.Wire.{
  encode, decode, wire_header, header_matches, serialize, deserialize, returned, wire_size_v1,
  store, out_of_range, parse,
}

module _ (c : ThreadContext) (h : HasShape c) (rest : List ℕ) where
  x_back : (r : List ℕ) → get64s 31 (put64s c.x ++ r) ≡ some (c.x, r)
  x_back r = rw (← h.x_length) (get64s-put64s c.x r h.x_fits)

  v_back : (r : List ℕ) → get128s 16 (put128s c.v ++ r) ≡ some (c.v, r)
  v_back r = rw (← h.v_length) (get128s-put128s c.v r h.v_fits)

  x87_back : (r : List ℕ) → get128s 8 (put128s c.x87 ++ r) ≡ some (c.x87, r)
  x87_back r = rw (← h.x87_length) (get128s-put128s c.x87 r h.x87_fits)

  pub decode-encode : decode (encode c ++ rest) ≡ some (c, rest)
  unfolding decode encode
  decode-encode = simp append_assoc (
      after get32 _ (get32-put32 _ _ h.layout_version_fits) (
        after get32 _ (get32-put32 _ _ h.context_size_fits) (
          after (get64s 31) _ (x_back _) (
            after get64 _ (get64-put64 _ _ h.sp_fits) (
              after get64 _ (get64-put64 _ _ h.pc_fits) (
                after get32 _ (get32-put32 _ _ h.nzcv_fits) (
                  after get32 _ (get32-put32 _ _ h.fpcr_fits) (
                    after get32 _ (get32-put32 _ _ h.fpsr_fits) (
                      after get32 _ (get32-put32 _ _ h.reserved0_fits) (
                        after (get128s 16) _ (v_back _) (
                          after get64 _ (get64-put64 _ _ h.rflags_fits) (
                            after get32 _ (get32-put32 _ _ h.mxcsr_fits) (
                              after get16 _ (get16-put16 _ _ h.fcw_fits) (
                                after get16 _ (get16-put16 _ _ h.fsw_fits) (
                                  after (get128s 8) _ (x87_back _) (
                                    after get64 _ (get64-put64 _ _ h.teb_fits) (
                                      after get64 _ (get64-put64 _ _ h.original_x64_sp_fits) (
                                        after get64 _ (get64-put64 _ _ h.transition_cookie_fits) (
                                          after get32 _ (get32-put32 _ _ h.isa_fits) (
                                            after get32 _ (get32-put32 _ _ h.stop_reason_fits)
                                              refl))))))))))))))))))))

pub length-encode : (c : ThreadContext) → HasShape c → length (encode c) ≡ 720
unfolding encode
length-encode c h =
    simp (length-append, length-put16, length-put32, length-put64, length-put64s, length-put128s)
      (rw (h.x_length, h.v_length, h.x87_length) refl)

pub header_matches-wire_header :
    (rest : List ℕ) → header_matches (wire_header ++ rest) ≡ some (true, rest)
unfolding header_matches wire_header put32 get32
header_matches-wire_header rest = refl

length-wire_header : length wire_header ≡ 20
unfolding wire_header
length-wire_header = simp (length-append, length-put32) refl

-- What `gem_context_serialize` asks for.
pub record Accepted (c : ThreadContext) (n : ℕ) : Type 0 where
  pub valid : is_valid (some c) ≡ true
  pub in_range : out_of_range c ≡ false
  pub room : wire_size_v1 ≤ n

length-message : (c : ThreadContext) → HasShape c → length (wire_header ++ encode c) ≡ 740
length-message c h =
    omega (arith, length-append wire_header (encode c), length-wire_header, length-encode c h)

serialize-Accepted :
    (c : ThreadContext) (b : List ℕ) (n : ℕ)
    → Accepted c n
    → serialize (some c) (some b) n ≡ store c b
unfolding serialize
serialize-Accepted c b n a = ground (arith, a.valid, a.in_range, a.room)

parse-message :
    (c : ThreadContext)
    → HasShape c
    → is_valid (some c) ≡ true
    → out_of_range c ≡ false
    → parse (wire_header ++ encode c) ≡ returned (record { result = some c; read = 740 })
unfolding parse
parse-message c h valid in_range =
    let decoded : decode (encode c) ≡ some (c, []) = rw append-nil at (decode-encode c h []) in
    rw (header_matches-wire_header (encode c), decoded, valid, in_range, length-message c h) refl

-- A context that is serialized into a buffer of at least 740 bytes reads back unchanged from the
-- first 740 bytes, and both calls report 740 bytes.
pub deserialize-serialize :
    (c : ThreadContext) (b : List ℕ) (n : ℕ)
    → HasShape c
    → Accepted c n
    → (message : List ℕ) × (serialize (some c) (some b) n
        ≡ record { succeeded = true; buffer = some (message ++ drop 740 b); written = 740 })
      × (deserialize true (some message) 740 ≡ returned (record { result = some c; read = 740 }))
unfolding store deserialize
deserialize-serialize c b n h a = (
  wire_header ++ encode c,
  serialize-Accepted c b n a ∙ rw (length-message c h) refl,
  parse-message c h a.valid a.in_range,
)
