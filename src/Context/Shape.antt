-- ===== src/Context/Shape.antt =====
-- What the C types of `struct gem_thread_context` fix: the lengths of its arrays and the widths
-- of its integers.
use metal_sharp_wine_runtime.Prelude.{ℕ, ◌^◌, ◌<◌, ◌≡◌, List, [], ◌∷◌, length}
use metal_sharp_wine_runtime.Context.{U128, ThreadContext}

abbrev pub AllBelow : ℕ → List ℕ → Type 0
AllBelow n [] = Unit
AllBelow n (x ∷ xs) = (x < n) × AllBelow n xs

abbrev pub AllU128 : List U128 → Type 0
AllU128 [] = Unit
AllU128 (q ∷ qs) = ((q.lo < 2 ^ 64) × (q.hi < 2 ^ 64)) × AllU128 qs

pub record HasShape (c : ThreadContext) : Type 0 where
  pub layout_version_fits : c.layout_version < 2 ^ 32
  pub context_size_fits : c.context_size < 2 ^ 32
  pub x_length : length c.x ≡ 31
  pub x_fits : AllBelow (2 ^ 64) c.x
  pub sp_fits : c.sp < 2 ^ 64
  pub pc_fits : c.pc < 2 ^ 64
  pub nzcv_fits : c.nzcv < 2 ^ 32
  pub fpcr_fits : c.fpcr < 2 ^ 32
  pub fpsr_fits : c.fpsr < 2 ^ 32
  pub reserved0_fits : c.reserved0 < 2 ^ 32
  pub v_length : length c.v ≡ 16
  pub v_fits : AllU128 c.v
  pub rflags_fits : c.x64_rflags < 2 ^ 64
  pub mxcsr_fits : c.x64_mxcsr < 2 ^ 32
  pub fcw_fits : c.x64_fcw < 2 ^ 16
  pub fsw_fits : c.x64_fsw < 2 ^ 16
  pub x87_length : length c.x87 ≡ 8
  pub x87_fits : AllU128 c.x87
  pub teb_fits : c.teb < 2 ^ 64
  pub original_x64_sp_fits : c.original_x64_sp < 2 ^ 64
  pub transition_cookie_fits : c.transition_cookie < 2 ^ 64
  pub isa_fits : c.isa < 2 ^ 32
  pub stop_reason_fits : c.stop_reason < 2 ^ 32
