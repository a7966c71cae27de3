-- ===== src/Context/X64.antt =====
-- src/gem/context_conversion.c: the x64 view of a thread context. An array that is written as a
-- whole is a list; a pointer that may be null is an `Option`.
pub mod Registers
pub mod RoundTrip
pub mod Arm64ec
use metal_sharp_wine_runtime.Prelude.{
  ℕ, ◌-◌, ◌^◌, Bool, true, false, ◌||◌, ◌&&◌, not, Option, none, some, List, [], ◌∷◌, ◌==◌, ◌!=◌,
  if◌then◌else◌, get_or, set, bit_and, bit_or,
}
use metal_sharp_wine_runtime.Context.{
  U128, ThreadContext, initialize, is_valid, isa_arm64ec, isa_x64,
}
use metal_sharp_wine_runtime.Context.Flags.{complement32, rflags_from_nzcv, nzcv_from_rflags}
use metal_sharp_wine_runtime.Context.Float.{
  fpcr_mxcsr_mask, fpsr_mxcsr_mask, mxcsr_from_fp, fp_from_mxcsr_checked,
}

-- `struct gem_x64_context`
pub record X64Context : Type 0 where
  pub gpr : List ℕ
  pub rip : ℕ
  pub rflags : ℕ
  pub mxcsr : ℕ
  pub fcw : ℕ
  pub fsw : ℕ
  pub xmm : List U128
  pub x87 : List U128
  pub teb : ℕ

-- The assignments to `destination->gpr`, in the order of `enum gem_x64_gpr`.
unfoldable pub gpr_of : List ℕ → ℕ → List ℕ
gpr_of x sp =
    get_or x 8 0
    ∷ get_or x 0 0
    ∷ get_or x 1 0
    ∷ get_or x 27 0
    ∷ sp
    ∷ get_or x 29 0
    ∷ get_or x 25 0
    ∷ get_or x 26 0
    ∷ get_or x 2 0
    ∷ get_or x 3 0
    ∷ get_or x 4 0
    ∷ get_or x 5 0
    ∷ get_or x 19 0
    ∷ get_or x 20 0
    ∷ get_or x 21 0
    ∷ get_or x 22 0
    ∷ []

-- The registers of `x` that the assignments from `source->gpr` write, each with the number of the
-- x64 register. `RSP`, number 4, goes to `sp`.
abbrev pub homes : List (ℕ × ℕ)
homes =
    (8, 0)
    ∷ (0, 1)
    ∷ (1, 2)
    ∷ (27, 3)
    ∷ (29, 5)
    ∷ (25, 6)
    ∷ (26, 7)
    ∷ (2, 8)
    ∷ (3, 9)
    ∷ (4, 10)
    ∷ (5, 11)
    ∷ (19, 12)
    ∷ (20, 13)
    ∷ (21, 14)
    ∷ (22, 15)
    ∷ []

abbrev pub assign : List (ℕ × ℕ) → List ℕ → List ℕ → List ℕ
assign [] gpr x = x
assign ((i, r) ∷ rest) gpr x = assign rest gpr (set x i (get_or gpr r 0))

unfoldable pub registers_of : List ℕ → List ℕ → List ℕ
registers_of gpr x = assign homes gpr x

-- The stores to `*destination`.
unfoldable pub x64_view : ThreadContext → X64Context
unfolding gpr_of
x64_view source = record {
  gpr = gpr_of source.x source.sp;
  rip = source.pc;
  rflags = source.x64_rflags;
  mxcsr = source.x64_mxcsr;
  fcw = source.x64_fcw;
  fsw = source.x64_fsw;
  xmm = source.v;
  x87 = source.x87;
  teb = source.teb;
}

-- The flag tells whether `destination` is a pointer; `none` is the answer `false`.
unfoldable pub x64_materialize : Option ThreadContext → Bool → Option X64Context
unfolding is_valid x64_view
x64_materialize none destination = none
x64_materialize (some source) destination =
    if not (is_valid (some source)) || (source.isa != isa_x64 || not destination)
    then none
    else some (x64_view source)

-- `result` before the last test of `gem_context_x64_commit`.
unfoldable pub committed : X64Context → ThreadContext → ThreadContext
unfolding registers_of
committed source destination = record destination {
  x = set (registers_of source.gpr destination.x) 18 destination.teb;
  sp = get_or source.gpr 4 0;
  pc = source.rip;
  x64_rflags = source.rflags;
  x64_mxcsr = source.mxcsr;
  x64_fcw = source.fcw;
  x64_fsw = source.fsw;
  v = source.xmm;
  x87 = source.x87;
}

-- The answer, and what `*destination` is after the call, for two pointers that are not null.
unfoldable pub commit_to : X64Context → ThreadContext → Bool × ThreadContext
unfolding is_valid committed
commit_to source destination =
    if not (is_valid (some destination))
      || (destination.isa != isa_x64 || source.teb != destination.teb)
    then (false, destination)
    else if not (is_valid (some (committed source destination)))
    then (false, destination)
    else (true, committed source destination)

unfoldable pub x64_commit : Option X64Context → Option ThreadContext → Bool × Option ThreadContext
unfolding commit_to
x64_commit (some source) (some destination) =
    let (succeeded, result) = commit_to source destination in (succeeded, some result)
x64_commit source destination = (false, destination)

-- The stores to `*destination`.
unfoldable pub arm64ec_view : ThreadContext → X64Context
unfolding gpr_of rflags_from_nzcv mxcsr_from_fp
arm64ec_view source = record {
  gpr = gpr_of source.x source.sp;
  rip = source.pc;
  rflags = rflags_from_nzcv source.nzcv source.x64_rflags;
  mxcsr = mxcsr_from_fp source.fpcr source.fpsr;
  fcw = source.x64_fcw;
  fsw = source.x64_fsw;
  xmm = source.v;
  x87 = source.x87;
  teb = source.teb;
}

unfoldable pub arm64ec_to_x64 : Option ThreadContext → Bool → Option X64Context
unfolding is_valid arm64ec_view
arm64ec_to_x64 none destination = none
arm64ec_to_x64 (some source) destination =
    if not (is_valid (some source)) || (source.isa != isa_arm64ec || not destination)
    then none
    else some (arm64ec_view source)

-- The stores of `gem_context_x64_to_arm64ec`, given the two converted words.
unfoldable pub entered : X64Context → ℕ → ℕ → ThreadContext → ThreadContext
unfolding registers_of nzcv_from_rflags
entered source fpcr fpsr destination = record destination {
  x = set (registers_of source.gpr destination.x) 18 destination.teb;
  sp = get_or source.gpr 4 0;
  pc = source.rip;
  x64_rflags = source.rflags;
  nzcv = nzcv_from_rflags source.rflags destination.nzcv;
  fpcr = bit_or (bit_and destination.fpcr (complement32 fpcr_mxcsr_mask)) fpcr;
  fpsr = bit_or (bit_and destination.fpsr (complement32 fpsr_mxcsr_mask)) fpsr;
  x64_mxcsr = source.mxcsr;
  x64_fcw = source.fcw;
  x64_fsw = source.fsw;
  v = source.xmm;
  x87 = source.x87;
  isa = isa_arm64ec;
}

-- What follows the test of the TEB.
unfoldable pub enter : X64Context → ℕ × ℕ → ThreadContext → Bool × ThreadContext
unfolding entered
enter source (fpcr, fpsr) destination =
    if destination.teb != source.teb
    then (false, destination)
    else (true, entered source fpcr fpsr destination)

-- The call for two pointers that are not null.
unfoldable pub enter_from : X64Context → ThreadContext → Bool × ThreadContext
unfolding is_valid initialize enter
enter_from source destination = elim (fp_from_mxcsr_checked source.mxcsr) [
  | none ↦ (false, destination)
  | some words ↦
      if source.teb == 0 || (is_valid (some destination) && destination.isa != isa_arm64ec)
      then (false, destination)
      else enter source words
          (if is_valid (some destination) then destination else initialize source.teb isa_arm64ec)
]

unfoldable pub x64_to_arm64ec :
    Option X64Context → Option ThreadContext → Bool × Option ThreadContext
unfolding enter_from
x64_to_arm64ec (some source) (some destination) =
    let (succeeded, result) = enter_from source destination in (succeeded, some result)
x64_to_arm64ec source destination = (false, destination)
