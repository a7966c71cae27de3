-- ===== src/Context.antt =====
-- src/gem/context.c and include/metalsharp/gem/context.h: the architectural state of a guest
-- thread, how it is set up and when it is well formed.
pub mod Shape
pub mod Words
pub mod Wire
pub mod Flags
pub mod Float
pub mod X64
pub mod I386
use metal_sharp_wine_runtime.Prelude.{
  ℕ, suc, ◌^◌, ◌≤◌, ◌<◌, ◌≡◌, Bool, true, false, ◌&&◌, ◌||◌, Option, none, some, List, [], ◌∷◌,
  ◌==◌, ◌!=◌, if◌then◌else◌, ltb, length, get_or, set, replicate,
}

-- `struct gem_u128`
pub record U128 : Type 0 where
  pub lo : ℕ
  pub hi : ℕ

-- `struct gem_thread_context`. The arrays `x`, `v` and `x87` are lists.
pub record ThreadContext : Type 0 where
  pub layout_version : ℕ
  pub context_size : ℕ
  pub x : List ℕ
  pub sp : ℕ
  pub pc : ℕ
  pub nzcv : ℕ
  pub fpcr : ℕ
  pub fpsr : ℕ
  pub reserved0 : ℕ
  pub v : List U128
  pub x64_rflags : ℕ
  pub x64_mxcsr : ℕ
  pub x64_fcw : ℕ
  pub x64_fsw : ℕ
  pub x87 : List U128
  pub teb : ℕ
  pub original_x64_sp : ℕ
  pub transition_cookie : ℕ
  pub isa : ℕ
  pub stop_reason : ℕ

abbrev pub layout_version_v1 : ℕ
layout_version_v1 = 1

abbrev pub thread_context_size_v1 : ℕ
thread_context_size_v1 = 720

-- `enum gem_isa`
abbrev pub isa_invalid : ℕ
isa_invalid = 0

abbrev pub isa_arm64ec : ℕ
isa_arm64ec = 1

abbrev pub isa_x64 : ℕ
isa_x64 = 2

-- `GEM_STOP_INVARIANT_VIOLATION`, the largest `enum gem_stop_reason`
abbrev pub stop_invariant_violation : ℕ
stop_invariant_violation = 9

abbrev pub zero_u128 : U128
zero_u128 = record { lo = 0; hi = 0 }

-- `memset` to zero of the whole record
abbrev pub zero_context : ThreadContext
zero_context = record {
  layout_version = 0;
  context_size = 0;
  x = replicate 31 0;
  sp = 0;
  pc = 0;
  nzcv = 0;
  fpcr = 0;
  fpsr = 0;
  reserved0 = 0;
  v = replicate 16 zero_u128;
  x64_rflags = 0;
  x64_mxcsr = 0;
  x64_fcw = 0;
  x64_fsw = 0;
  x87 = replicate 8 zero_u128;
  teb = 0;
  original_x64_sp = 0;
  transition_cookie = 0;
  isa = 0;
  stop_reason = 0;
}

unfoldable pub initialize : ℕ → ℕ → ThreadContext
initialize teb isa = record zero_context {
  layout_version = layout_version_v1;
  context_size = thread_context_size_v1;
  teb = teb;
  x = set (replicate 31 0) 18 teb;
  isa = isa;
}

-- The argument is `none` for a null pointer.
unfoldable pub is_valid : Option ThreadContext → Bool
is_valid none = false
is_valid (some c) =
    if c.layout_version != layout_version_v1
      || (c.context_size != thread_context_size_v1 || (c.teb == 0 || get_or c.x 18 0 != c.teb))
    then false
    else c.isa == isa_arm64ec || c.isa == isa_x64
