-- ===== src/Context/I386.antt =====
-- src/gem/i386_context.c and include/metalsharp/gem/i386_context.h: the state of a 32-bit guest
-- thread.
pub mod Versions
use metal_sharp_wine_runtime.Prelude.{
  ℕ, Bool, true, false, ◌&&◌, ◌||◌, Option, none, some, List, [], ◌∷◌, ◌==◌, ◌!=◌, leb,
  if◌then◌else◌, drop, replicate, bit_and,
}
use metal_sharp_wine_runtime.Context.{U128, zero_u128, stop_invariant_violation}

-- `struct gem_i386_context`. The union at its end is the list of its five words; in the second
-- layout the last two of them are the reserved words of the x87 environment.
pub record I386Context : Type 0 where
  pub layout_version : ℕ
  pub context_size : ℕ
  pub gpr : List ℕ
  pub eip : ℕ
  pub eflags : ℕ
  pub segment : List ℕ
  pub segment_base : List ℕ
  pub segment_limit : List ℕ
  pub segment_attributes : List ℕ
  pub xmm : List U128
  pub x87 : List U128
  pub mxcsr : ℕ
  pub fcw : ℕ
  pub fsw : ℕ
  pub ftw : ℕ
  pub fop : ℕ
  pub teb : ℕ
  pub reserved0 : ℕ
  pub transition_cookie : ℕ
  pub stop_reason : ℕ
  pub reserved : List ℕ

abbrev pub i386_context_size : ℕ
i386_context_size = 448

abbrev pub eflags_required : ℕ
eflags_required = 2

unfoldable pub i386_initialize : ℕ → I386Context
i386_initialize teb = record {
  layout_version = 2;
  context_size = i386_context_size;
  gpr = replicate 8 0;
  eip = 0;
  eflags = eflags_required;
  segment = replicate 6 0;
  segment_base = replicate 6 0;
  segment_limit = replicate 6 0;
  segment_attributes = replicate 6 0;
  xmm = replicate 8 zero_u128;
  x87 = replicate 8 zero_u128;
  mxcsr = 0x1f80;
  fcw = 0x37f;
  fsw = 0;
  ftw = 0;
  fop = 0;
  teb = teb;
  reserved0 = 0;
  transition_cookie = 0;
  stop_reason = 0;
  reserved = replicate 5 0;
}

-- The loops over reserved words.
unfoldable pub all_zero : List ℕ → Bool
all_zero [] = true
all_zero (x ∷ xs) = x == 0 && all_zero xs

unfoldable pub i386_is_valid : Option I386Context → Bool
unfolding all_zero
i386_is_valid none = false
i386_is_valid (some c) =
    if (c.layout_version != 1 && c.layout_version != 2)
      || (c.context_size != i386_context_size
          || (c.teb == 0 || (bit_and c.eflags eflags_required == 0 || c.reserved0 != 0)))
    then false
    else if c.layout_version == 1
    then all_zero c.reserved && leb c.stop_reason stop_invariant_violation
    else all_zero (drop 3 c.reserved) && leb c.stop_reason stop_invariant_violation
