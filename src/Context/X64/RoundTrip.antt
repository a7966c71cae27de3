-- ===== src/Context/X64/RoundTrip.antt =====
-- src/gem/context_conversion.c: a guest thread through the x64 view and back.
use metal_sharp_wine_runtime.Prelude.{
  ℕ, ◌≡◌, refl, ap, sym, ◌∙◌, Bool, true, false, not, Option, none, some, ◌!=◌, if◌then◌else◌,
  length, get_or, set, arith,
}
use metal_sharp_wine_runtime.Context.{ThreadContext, is_valid, isa_x64}
use metal_sharp_wine_runtime.Context.X64.{
  X64Context, x64_view, x64_materialize, committed, commit_to, x64_commit,
}
use metal_sharp_wine_runtime.Context.X64.Registers.{
  registers_of-gpr_of, gpr_of-registers_of, get_or-registers_of, set_same, IsUnmapped,
  get_or-unmapped, length-registers_of,
}

-- What `is_valid` says of the fields.
pub teb_register : (c : ThreadContext) → is_valid (some c) ≡ true → get_or c.x 18 0 ≡ c.teb
unfolding is_valid
teb_register c valid = ground arith

-- What is committed from the view of a context is the context.
committed-x64_view : (c : ThreadContext) → get_or c.x 18 0 ≡ c.teb → committed (x64_view c) c ≡ c
unfolding committed x64_view
committed-x64_view c teb =
    ap (λ x. record c { x = x })
      (ap (λ x. set x 18 c.teb) (registers_of-gpr_of c.x c.sp) ∙ set_same c.x 18 c.teb teb)

commits :
    (source : X64Context) (c c' : ThreadContext)
    → is_valid (some c) ≡ true
    → c.isa ≡ isa_x64
    → source.teb ≡ c.teb
    → committed source c ≡ c'
    → is_valid (some c') ≡ true
    → commit_to source c ≡ (true, c')
unfolding commit_to
commits source c c' valid x64 teb made valid' =
    let same : (source.teb != c.teb) ≡ false = ground arith in
    let isa_test : (c.isa != isa_x64) ≡ false = rw x64 refl in
    let kept : (c : ThreadContext) → ThreadContext → Bool × ThreadContext =
      λ c d. if not (is_valid (some d)) then (false, c) else (true, d) in
    let step : commit_to source c ≡ kept c (committed source c) = rw (valid, isa_test, same) refl in
    step ∙ ap (kept c) made ∙ rw valid' refl

-- A valid x64 context that is materialized and committed unchanged is as before.
pub x64_commit-materialize :
    (c : ThreadContext)
    → is_valid (some c) ≡ true
    → c.isa ≡ isa_x64
    → (x64_materialize (some c) true ≡ some (x64_view c))
      × (x64_commit (some (x64_view c)) (some c) ≡ (true, some c))
unfolding x64_materialize x64_commit
x64_commit-materialize c valid x64 = (
  rw (valid, x64) refl,
  rw
      (commits (x64_view c) c c valid x64 (unfold x64_view in refl)
        (committed-x64_view c (teb_register c valid)) valid)
      refl,
)

committed-is_valid :
    (source : X64Context) (c : ThreadContext)
    → is_valid (some c) ≡ true
    → length c.x ≡ 31
    → is_valid (some (committed source c)) ≡ true
unfolding is_valid committed
committed-is_valid source c valid many =
    rw (get_or-registers_of source.gpr c.x c.teb many) (ground arith)

x64_view-committed :
    (source : X64Context) (c : ThreadContext)
    → length source.gpr ≡ 16
    → length c.x ≡ 31
    → source.teb ≡ c.teb
    → x64_view (committed source c) ≡ source
unfolding x64_view committed
x64_view-committed source c sixteen many teb = λ i. record source {
  gpr = gpr_of-registers_of source.gpr c.x c.teb sixteen many i;
  teb = sym teb i;
}

x64_isa :
    (source : X64Context) (c : ThreadContext)
    → c.isa ≡ isa_x64
    → ((committed source c).isa != isa_x64) ≡ false
unfolding committed
x64_isa source c x64 = rw x64 refl

-- An x64 state that is committed to a valid x64 context of the same thread is what is then
-- materialized from it. Every register of the context in which no x64 register has its home is as
-- before, and so is every field but for those that the x64 state is kept in.
pub x64_materialize-commit :
    (source : X64Context) (c : ThreadContext)
    → is_valid (some c) ≡ true
    → c.isa ≡ isa_x64
    → source.teb ≡ c.teb
    → length source.gpr ≡ 16
    → length c.x ≡ 31
    → (c' : ThreadContext) × (x64_commit (some source) (some c) ≡ (true, some c'))
      × (x64_materialize (some c') true ≡ some source)
      × (record c' {
        x = c.x;
        sp = c.sp;
        pc = c.pc;
        x64_rflags = c.x64_rflags;
        x64_mxcsr = c.x64_mxcsr;
        x64_fcw = c.x64_fcw;
        x64_fsw = c.x64_fsw;
        v = c.v;
        x87 = c.x87;
      }
          ≡ c)
      × ((i : ℕ) → IsUnmapped i → get_or c'.x i 0 ≡ get_or c.x i 0)
      × (length c'.x ≡ length c.x)
unfolding x64_materialize x64_commit
x64_materialize-commit source c valid x64 teb sixteen many =
    let valid' = committed-is_valid source c valid many in
    (
      committed source c,
      rw (commits source c (committed source c) valid x64 teb refl valid') refl,
      rw (valid', x64_isa source c x64)
          (ap (λ (s : X64Context). some s) (x64_view-committed source c sixteen many teb)),
      unfold committed in refl,
      λ i unmapped.
          unfold committed in
          get_or-unmapped source.gpr c.x c.teb many (teb_register c valid) unmapped,
      unfold committed in length-registers_of source.gpr c.x c.teb,
    )

-- A commit that is refused leaves the context as it was.
pub x64_commit_refused :
    (source : Option X64Context) (destination : Option ThreadContext)
    → (x64_commit source destination).0 ≡ false
    → (x64_commit source destination).1 ≡ destination
unfolding x64_commit commit_to
x64_commit_refused none destination refused = refl
x64_commit_refused (some source) none refused = refl
x64_commit_refused (some source) (some c) refused = ground arith
