-- ===== src/Tests/X64Tests.antt =====
-- src/gem/context_conversion.c and src/gem/i386_context.c at small contexts.
use metal_sharp_wine_runtime.Prelude.{
  ℕ, ◌≢◌, ◌↔◌, ◌≡◌, refl, true, false, none, some, arith, replicate, testbit, bit_and, get_or,
  length,
}
use metal_sharp_wine_runtime.Context.{ThreadContext, is_valid, isa_arm64ec}
use metal_sharp_wine_runtime.Context.I386.{I386Context, i386_initialize, i386_is_valid}
use metal_sharp_wine_runtime.Context.I386.Versions.{i386_initialize-versions}
use metal_sharp_wine_runtime.Context.Float.{
  mxcsr_from_fp, fp_from_mxcsr_checked, fpcr_mxcsr_mask, fpsr_mxcsr_mask, control_of, status_of,
}
use metal_sharp_wine_runtime.Context.Float.RoundTrip.{mxcsr-fp_round_trip, fp-mxcsr_round_trip}
use metal_sharp_wine_runtime.Context.X64.{
  X64Context, x64_view, x64_materialize, x64_commit, commit_to, arm64ec_to_x64, x64_to_arm64ec,
}
use metal_sharp_wine_runtime.Context.X64.Registers.{IsUnmapped}
use metal_sharp_wine_runtime.Context.X64.RoundTrip.{
  x64_commit-materialize, x64_materialize-commit, x64_commit_refused,
}
use metal_sharp_wine_runtime.Context.X64.Arm64ec.{visited, arm64ec_round_trip}
use metal_sharp_wine_runtime.Tests.ContextTests.{guest}

mxcsr-fp_round_trip_example :
    (testbit 0x1f80 6 ≡ true → fp_from_mxcsr_checked 0x1f80 ≡ none)
    × (testbit 0x1f80 6 ≡ false
        → (fpcr : ℕ) × (fpsr : ℕ) × (fp_from_mxcsr_checked 0x1f80 ≡ some (fpcr, fpsr))
          × (mxcsr_from_fp fpcr fpsr ≡ 0x1f80))
mxcsr-fp_round_trip_example = mxcsr-fp_round_trip 0x1f80 (omega arith)

fp-mxcsr_round_trip_example :
    fp_from_mxcsr_checked (mxcsr_from_fp 0xc00000 0x81)
    ≡ some (bit_and 0xc00000 fpcr_mxcsr_mask, bit_and 0x81 fpsr_mxcsr_mask)
fp-mxcsr_round_trip_example = fp-mxcsr_round_trip 0xc00000 0x81

-- The default word of x64: all exceptions masked, round to nearest.
default_mxcsr : fp_from_mxcsr_checked 0x1f80 ≡ some (0, 0)
unfolding fp_from_mxcsr_checked control_of status_of
default_mxcsr = refl

x64_commit-materialize_example :
    (x64_materialize (some guest) true ≡ some (x64_view guest))
    × (x64_commit (some (x64_view guest)) (some guest) ≡ (true, some guest))
x64_commit-materialize_example = x64_commit-materialize guest (unfold is_valid in refl) refl

abbrev stepped : X64Context
stepped = record {
  gpr = replicate 16 7;
  rip = 0x1238;
  rflags = 0x202;
  mxcsr = 0x1f80;
  fcw = 0x37f;
  fsw = 0;
  xmm = guest.v;
  x87 = guest.x87;
  teb = 0x7000;
}

x64_materialize-commit_example :
    (c' : ThreadContext) × (x64_commit (some stepped) (some guest) ≡ (true, some c'))
    × (x64_materialize (some c') true ≡ some stepped)
    × (record c' {
      x = guest.x;
      sp = guest.sp;
      pc = guest.pc;
      x64_rflags = guest.x64_rflags;
      x64_mxcsr = guest.x64_mxcsr;
      x64_fcw = guest.x64_fcw;
      x64_fsw = guest.x64_fsw;
      v = guest.v;
      x87 = guest.x87;
    }
        ≡ guest)
    × ((i : ℕ) → IsUnmapped i → get_or c'.x i 0 ≡ get_or guest.x i 0)
    × (length c'.x ≡ length guest.x)
x64_materialize-commit_example =
    x64_materialize-commit stepped guest (unfold is_valid in refl) refl refl refl refl

abbrev foreign : X64Context
foreign = record stepped { teb = 0x8000 }

x64_commit_refused_example : (x64_commit (some foreign) (some guest)).1 ≡ some guest
x64_commit_refused_example =
    x64_commit_refused (some foreign) (some guest) (unfold x64_commit commit_to is_valid in refl)

abbrev native : ThreadContext
native = record guest { isa = isa_arm64ec; nzcv = 0x60000000; fpcr = 0x2000000; fpsr = 0x8000001 }

arm64ec_round_trip_example :
    (view : X64Context) × (arm64ec_to_x64 (some native) true ≡ some view)
    × (x64_to_arm64ec (some view) (some native) ≡ (true, some (visited native)))
arm64ec_round_trip_example =
    arm64ec_round_trip native (unfold is_valid in refl) refl (omega arith) (omega arith)
      (omega arith)

abbrev old_context : I386Context
old_context = record (i386_initialize 0x7ffd0000) { layout_version = 1 }

i386_initialize-versions_example :
    let teb : ℕ = 0x7ffd0000 in
    ((i386_is_valid (some (i386_initialize teb)) ≡ true) ↔ (teb ≢ 0))
    × (old_context.layout_version ≡ 1
        → i386_is_valid (some old_context) ≡ true
        → i386_is_valid (some (record old_context { layout_version = 2 })) ≡ true)
i386_initialize-versions_example = i386_initialize-versions 0x7ffd0000 old_context
