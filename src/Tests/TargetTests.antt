-- ===== src/Tests/TargetTests.antt =====
-- src/gem/arm64ec_target.c at a small image.
use metal_sharp_wine_runtime.Prelude.{
  ℕ, ◌≡◌, refl, true, false, Option, none, some, ◌==◌, if◌then◌else◌, set, arith,
}
use metal_sharp_wine_runtime.Pe.{
  Classification, rva_invalid, rva_arm64ec, rva_x64, rva_fast_forward,
}
use metal_sharp_wine_runtime.Context.{ThreadContext, isa_arm64ec}
use metal_sharp_wine_runtime.Target.{
  ok, arm64ec, Target, RvaInfo, TargetMap, add_u64, kind_of, aligned_kind, classify_terminal,
  follow, finish, arrive, resolve, checker_dispatch,
}
use metal_sharp_wine_runtime.Target.Resolution.{HasWords, Resolved, resolve-Resolved}
use metal_sharp_wine_runtime.Target.Dispatch.{Dispatched, checker_dispatch-Dispatched}
use metal_sharp_wine_runtime.Tests.ContextTests.{guest}

abbrev code : Classification → Option ℕ → RvaInfo
code c redirection = record {
  classification = c;
  code_map_isa = c;
  executable_section = true;
  redirection = redirection;
}

-- A redirection at 0x1000 to ARM64EC code at 0x2000, and x64 code at 0x3000.
abbrev image : TargetMap
image = record {
  classify_rva = λ rva.
      if rva == 0x1000
      then some (code rva_fast_forward (some 0x2000))
      else if rva == 0x2000
      then some (code rva_arm64ec none)
      else if rva == 0x3000
      then some (code rva_x64 none)
      else some (code rva_invalid none);
  redirection_count = 1;
  size_of_image = 0x4000;
  loaded_base = 0x10000;
  loaded_end = 0x14000;
}

image-HasWords : HasWords image
image-HasWords rva info next found more = ground arith

abbrev redirected : Target
redirected = record {
  requested_va = 0x11000;
  resolved_va = 0x12000;
  requested_rva = 0x1000;
  resolved_rva = 0x2000;
  kind = arm64ec;
  redirection_hops = 1;
}

redirected_found : resolve image 0x11000 ≡ (ok, some redirected)
unfolding resolve follow arrive add_u64 classify_terminal kind_of aligned_kind finish
redirected_found = refl

resolve-Resolved_example : (t : Target) × (some redirected ≡ some t) × Resolved image 0x11000 t
resolve-Resolved_example =
    resolve-Resolved image 0x11000 (some redirected) image-HasWords redirected_found

abbrev caller : ThreadContext
caller = record guest { isa = isa_arm64ec; x = set (set guest.x 10 0x12000) 11 0x13000 }

checker_dispatch-Dispatched_example :
    Dispatched image none false caller (checker_dispatch image none false caller)
checker_dispatch-Dispatched_example =
    checker_dispatch-Dispatched image none false caller image-HasWords refl
