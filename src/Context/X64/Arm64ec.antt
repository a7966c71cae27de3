-- ===== src/Context/X64/Arm64ec.antt =====
-- src/gem/context_conversion.c: an ARM64EC thread that enters x64 code and comes back.
use metal_sharp_wine_runtime.Prelude.{
  ℕ, ◌^◌, ◌<◌, ◌≡◌, refl, ap, sym, ◌∙◌, Bool, true, false, not, some, ◌==◌, ◌!=◌, get_or, set,
  bit_and, bit_or, arith, testbit, testbit_ext, testbit-bit_and, testbit-bit_or, bit_or-lt,
  bit_and-lt, agree_below_sound,
}
use metal_sharp_wine_runtime.Context.{ThreadContext, is_valid, isa_arm64ec}
use metal_sharp_wine_runtime.Context.Flags.{
  complement32, rflags_from_nzcv, nzcv_from_rflags, nzcv_mask, logical,
}
use metal_sharp_wine_runtime.Context.Flags.Bits.{nzcv-rflags_round_trip}
use metal_sharp_wine_runtime.Context.Float.{fpcr_mxcsr_mask, fpsr_mxcsr_mask, mxcsr_from_fp}
use metal_sharp_wine_runtime.Context.Float.RoundTrip.{fp-mxcsr_round_trip}
use metal_sharp_wine_runtime.Context.X64.{
  X64Context, arm64ec_view, arm64ec_to_x64, entered, enter, enter_from, x64_to_arm64ec,
}
use metal_sharp_wine_runtime.Context.X64.Registers.{registers_of-gpr_of, set_same}
use metal_sharp_wine_runtime.Context.X64.RoundTrip.{teb_register}

-- The part of a word under a mask and the part outside of it make the word.
rejoined :
    (mask w : ℕ)
    → mask < 2 ^ 32
    → w < 2 ^ 32
    → ((i : ℕ) → i < 32 → testbit (complement32 mask) i ≡ not (testbit mask i))
    → bit_or (bit_and w (complement32 mask)) (bit_and w mask) ≡ w
rejoined mask w small bound outside =
    testbit_ext 32 (bit_or (bit_and w (complement32 mask)) (bit_and w mask)) w
      (bit_or-lt 32 _ _ (bit_and-lt 32 w (complement32 mask) (omega arith))
        (bit_and-lt 32 w mask small))
      bound (λ i h. simp (testbit-bit_or, testbit-bit_and, outside i h) (ground arith))

outside_nzcv : (i : ℕ) → i < 32 → testbit (complement32 nzcv_mask) i ≡ not (testbit nzcv_mask i)
unfolding testbit
outside_nzcv i h =
    agree_below_sound 32 (testbit (complement32 nzcv_mask)) (λ i. not (testbit nzcv_mask i)) i refl
      h

outside_fpcr :
    (i : ℕ) → i < 32 → testbit (complement32 fpcr_mxcsr_mask) i ≡ not (testbit fpcr_mxcsr_mask i)
unfolding testbit
outside_fpcr i h =
    agree_below_sound 32 (testbit (complement32 fpcr_mxcsr_mask))
      (λ i. not (testbit fpcr_mxcsr_mask i)) i refl h

outside_fpsr :
    (i : ℕ) → i < 32 → testbit (complement32 fpsr_mxcsr_mask) i ≡ not (testbit fpsr_mxcsr_mask i)
unfolding testbit
outside_fpsr i h =
    agree_below_sound 32 (testbit (complement32 fpsr_mxcsr_mask))
      (λ i. not (testbit fpsr_mxcsr_mask i)) i refl h

nzcv_back :
    (nzcv rflags : ℕ) → nzcv < 2 ^ 32 → nzcv_from_rflags (rflags_from_nzcv nzcv rflags) nzcv ≡ nzcv
unfolding nzcv_from_rflags rflags_from_nzcv
nzcv_back nzcv rflags bound =
    nzcv-rflags_round_trip nzcv rflags nzcv logical
    ∙ rejoined nzcv_mask nzcv (omega arith) bound outside_nzcv

-- The two sidecar fields that the way through x64 sets.
abbrev pub visited : ThreadContext → ThreadContext
visited c = record c {
  x64_rflags = rflags_from_nzcv c.nzcv c.x64_rflags;
  x64_mxcsr = mxcsr_from_fp c.fpcr c.fpsr;
}

entered-arm64ec_view :
    (c : ThreadContext)
    → get_or c.x 18 0 ≡ c.teb
    → c.isa ≡ isa_arm64ec
    → c.nzcv < 2 ^ 32
    → c.fpcr < 2 ^ 32
    → c.fpsr < 2 ^ 32
    → entered (arm64ec_view c) (bit_and c.fpcr fpcr_mxcsr_mask) (bit_and c.fpsr fpsr_mxcsr_mask) c
      ≡ visited c
unfolding entered arm64ec_view
entered-arm64ec_view c teb ec nzcv fpcr fpsr = λ i. record (visited c) {
  x = (ap (λ x. set x 18 c.teb) (registers_of-gpr_of c.x c.sp) ∙ set_same c.x 18 c.teb teb) i;
  nzcv = nzcv_back c.nzcv c.x64_rflags nzcv i;
  fpcr = rejoined fpcr_mxcsr_mask c.fpcr (omega arith) fpcr outside_fpcr i;
  fpsr = rejoined fpsr_mxcsr_mask c.fpsr (omega arith) fpsr outside_fpsr i;
  isa = sym ec i;
}

teb_set : (c : ThreadContext) → is_valid (some c) ≡ true → (c.teb == 0) ≡ false
unfolding is_valid
teb_set c valid = ground arith

enters :
    (c : ThreadContext)
    → is_valid (some c) ≡ true
    → c.isa ≡ isa_arm64ec
    → enter_from (arm64ec_view c) c ≡ (
      true,
      entered (arm64ec_view c) (bit_and c.fpcr fpcr_mxcsr_mask) (bit_and c.fpsr fpsr_mxcsr_mask) c,
    )
unfolding enter_from enter arm64ec_view
enters c valid ec =
    let isa_test : (c.isa != isa_arm64ec) ≡ false = rw ec refl in
    let same : (c.teb != c.teb) ≡ false = ground arith in
    rw (fp-mxcsr_round_trip c.fpcr c.fpsr, enter_from)
      (rw (valid, isa_test) (rw (teb_set c valid, same, enter) refl))

-- A valid ARM64EC context that is taken to x64 and back is as before, except that the two
-- x64-only words hold the RFLAGS and MXCSR of the way.
pub arm64ec_round_trip :
    (c : ThreadContext)
    → is_valid (some c) ≡ true
    → c.isa ≡ isa_arm64ec
    → c.nzcv < 2 ^ 32
    → c.fpcr < 2 ^ 32
    → c.fpsr < 2 ^ 32
    → (view : X64Context) × (arm64ec_to_x64 (some c) true ≡ some view)
      × (x64_to_arm64ec (some view) (some c) ≡ (true, some (visited c)))
unfolding arm64ec_to_x64 x64_to_arm64ec
arm64ec_round_trip c valid ec nzcv fpcr fpsr = (
  arm64ec_view c,
  rw (valid, isa_test) refl,
  ap (λ (r : Bool × ThreadContext). (r.0, some r.1))
      (enters c valid ec
        ∙ ap (λ d. (true, d)) (entered-arm64ec_view c (teb_register c valid) ec nzcv fpcr fpsr)),
)
  where
    isa_test : (c.isa != isa_arm64ec) ≡ false
    isa_test = rw ec refl
