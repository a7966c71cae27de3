-- ===== src/Tests/ContextTests.antt =====
-- src/gem/context_serialization.c and src/gem/context_conversion.c at a small context.
use metal_sharp_wine_runtime.Prelude.{
  ℕ, ◌≡◌, refl, true, some, List, ◌++◌, set, drop, replicate, arith, bit_and, bit_or,
}
use metal_sharp_wine_runtime.Context.{ThreadContext, zero_context, initialize, is_valid, isa_x64}
use metal_sharp_wine_runtime.Context.Shape.{HasShape}
use metal_sharp_wine_runtime.Context.Wire.{serialize, deserialize, returned, out_of_range}
use metal_sharp_wine_runtime.Context.Wire.RoundTrip.{Accepted, deserialize-serialize}
use metal_sharp_wine_runtime.Context.Wire.Total.{Sound, deserialize-Sound}
use metal_sharp_wine_runtime.Context.Flags.{
  subtract, complement32, nzcv_mask, rflags_from_nzcv_for_arithmetic,
  nzcv_from_rflags_for_arithmetic,
}
use metal_sharp_wine_runtime.Context.Flags.Bits.{nzcv-rflags_round_trip}

abbrev pub guest : ThreadContext
guest = record zero_context {
  layout_version = 1;
  context_size = 720;
  x = set (replicate 31 0) 18 0x7000;
  pc = 0x1234;
  teb = 0x7000;
  isa = isa_x64;
  stop_reason = 3;
}

initialize-guest : initialize 0x7000 isa_x64 ≡ record guest { pc = 0; stop_reason = 0 }
unfolding initialize
initialize-guest = refl

abbrev output : List ℕ
output = replicate 745 0xff

guest-HasShape : HasShape guest
guest-HasShape = omega arith

guest-Accepted : Accepted guest 745
guest-Accepted = record {
  valid = unfold is_valid in refl;
  in_range = unfold out_of_range in refl;
  room = omega arith;
}

deserialize-serialize_example :
    (message : List ℕ) × (serialize (some guest) (some output) 745
      ≡ record { succeeded = true; buffer = some (message ++ drop 740 output); written = 740 })
    × (deserialize true (some message) 740 ≡ returned (record { result = some guest; read = 740 }))
deserialize-serialize_example = deserialize-serialize guest output 745 guest-HasShape guest-Accepted

deserialize-Sound_example : Sound (deserialize true (some (replicate 740 7)) 740)
deserialize-Sound_example = deserialize-Sound (replicate 740 7) 740 (omega arith)

nzcv-rflags_round_trip_example :
    nzcv_from_rflags_for_arithmetic
      (rflags_from_nzcv_for_arithmetic 0x60000000 0x202 subtract)
      0
      subtract
    ≡ bit_or (bit_and 0 (complement32 nzcv_mask)) (bit_and 0x60000000 nzcv_mask)
nzcv-rflags_round_trip_example = nzcv-rflags_round_trip 0x60000000 0x202 0 subtract

flags_after_subtraction :
    (rflags_from_nzcv_for_arithmetic 0x60000000 0x202 subtract ≡ 0x242)
    × (nzcv_from_rflags_for_arithmetic 0x242 0 subtract ≡ 0x60000000)
unfolding rflags_from_nzcv_for_arithmetic nzcv_from_rflags_for_arithmetic
flags_after_subtraction = (refl, refl)
