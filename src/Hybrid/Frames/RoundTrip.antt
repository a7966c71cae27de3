-- ===== src/Hybrid/Frames/RoundTrip.antt =====
-- src/gem/hybrid_runtime.c: `generic_push_x64` and, when the x64 code has returned, `generic_pop_x64`.
use metal_sharp_wine_runtime.Prelude.{
  ℕ, ◌+◌, ◌-◌, ◌%◌, ◌^◌, ◌≤◌, ◌<◌, ◌≡◌, ◌≢◌, inl, inr, refl, sym, ap, ◌∙◌, true, false, ◌||◌, not,
  Option, some, ◌==◌, ◌!=◌, if◌then◌else◌, arith, Bool-cases,
}
use metal_sharp_wine_runtime.Context.{isa_arm64ec}
use metal_sharp_wine_runtime.Hybrid.{arm, arm_callback, zero_frame, GenericState, Machine, GuestOps}
use metal_sharp_wine_runtime.Hybrid.Records.{replace_stack_record}
use metal_sharp_wine_runtime.Hybrid.Frames.{
  set_frame, generic_current_frame, is_arm_callback, cookie_of, generic_push_x64, popped,
  generic_pop_x64,
}
use metal_sharp_wine_runtime.Hybrid.Steps.{Succeeds-true}
use mathlib.Core.Path.{subst}
use metal_sharp_wine_runtime.Hybrid.Frames.Called.{
  set_frame_outer, top, Called, generic_push_x64-Called,
}

-- A pop of a frame whose record is where the stack pointer tells.
module _ {Mem : Type 0} (ops : GuestOps Mem) (s : Machine Mem) where
  generic_pop_x64_lem :
      (o : Option (ℕ × Mem))
      → s.runtime.generic.depth ≢ 0
      → (top s.runtime.generic).record_written ≡ true
      → s.context.sp ≡ ((top s.runtime.generic).record_address + 8) % 2 ^ 64
      → replace_stack_record ops s.memory
          (top s.runtime.generic).record_address
          (top s.runtime.generic).old_record
        ≡ o
      → generic_pop_x64 ops s ≡ popped s (top s.runtime.generic) o
  unfolding generic_pop_x64
  generic_pop_x64_lem o pos w at r =
      let f = top s.runtime.generic in
      let first : (s.runtime.generic.depth == 0) ≡ false = ground arith in
      let second : (not f.record_written || s.context.sp != (f.record_address + 8) % 2 ^ 64)
          ≡ false =
        ground arith in
      rw (first, second, r)

-- The thread after the pop: it is back in the ARM64EC code that made the call.
pub record IsBack {Mem : Type 0} (s : Machine Mem) (pc sp : ℕ) (m : Mem) (back : Machine Mem)
    : Type 0 where
  at_pc : back.context.pc ≡ pc
  at_sp : back.context.sp ≡ sp
  original_sp : back.context.original_x64_sp ≡ s.context.original_x64_sp
  in_arm64ec : back.context.isa ≡ isa_arm64ec
  cookie : back.context.transition_cookie ≡ cookie_of (generic_current_frame s.runtime.generic)
  depth : back.runtime.generic.depth ≡ s.runtime.generic.depth
  stage :
      back.runtime.generic.stage
      ≡ (if is_arm_callback s.runtime.generic.stage then arm_callback else arm)
  memory : back.memory ≡ m

-- The current cookie depends on the depth and on the outer frame's cookie where one is below.
below_cookie :
    (g g' : GenericState)
    → g.depth < 2
    → g'.depth ≡ g.depth
    → (g.depth ≢ 0 → g'.outer.cookie ≡ g.outer.cookie)
    → cookie_of (generic_current_frame g') ≡ cookie_of (generic_current_frame g)
unfolding generic_current_frame
below_cookie g g' lt d c = elim (Bool-cases (g.depth == 0)) [
  | inl e ↦
      let zero_depth : g.depth ≡ 0 = ground arith in
      let zero_depth' = d ∙ zero_depth in rw (zero_depth', zero_depth)
  | inr e ↦
      let one_depth : g.depth ≡ 1 = ground arith in
      let one_depth' = d ∙ one_depth in rw (one_depth', one_depth) (c (λ z. ground arith))
]

module _ {Mem : Type 0} (ops : GuestOps Mem) (s s2 : Machine Mem) (pc sp v : ℕ) (m : Mem) where
  popped-IsBack :
      Called ops s pc sp s2.runtime.generic
      → IsBack s pc sp m (popped s2 (top s2.runtime.generic) (some (v, m))).1
  unfolding popped
  popped-IsBack c =
      let g = s2.runtime.generic in
      let d : g.depth - 1 ≡ s.runtime.generic.depth = omega (arith, c.depth_grown) in
      record {
        at_pc = c.resume_pc;
        at_sp = c.resume_sp;
        original_sp = c.prior_sp;
        in_arm64ec = refl;
        cookie =
            below_cookie s.runtime.generic
              (record (set_frame (g.depth - 1) zero_frame g) { depth = g.depth - 1 }) c.shallow d
              λ pos.
                ap (λ f. f.cookie)
                  (set_frame_outer (g.depth - 1) zero_frame g (λ z. pos (sym d ∙ z)))
                ∙ c.outer_cookie pos;
        depth = d;
        stage = ap (λ b. if b then arm_callback else arm) c.resumes;
        memory = refl;
      }

back_to_sp : (n : ℕ) → 8 ≤ n → n < 2 ^ 64 → n ≡ (n - 8 + 8) % 2 ^ 64
back_to_sp n le lt = omega arith

-- Where x64 code that was called returns with the coordinator's state as it was left, with the stack
-- pointer as before the call, and the stack can still be written, the pop puts the thread back after
-- the call: the program counter and stack pointer that the call asked for, the stack pointer of the
-- x64 code around it, the instruction set, the cookie of the frame around it, the depth and the
-- stage; and it writes to the stack what the call found there.
pub generic_pop_x64-generic_push_x64 :
    {Mem : Type 0} (ops : GuestOps Mem) (s s1 s2 : Machine Mem) (target_va pc sp old v : ℕ)
    (m1 m : Mem)
    → generic_push_x64 ops s target_va pc sp ≡ (true, s1)
    → s.context.sp < 2 ^ 64
    → replace_stack_record ops s.memory (s.context.sp - 8) s.runtime.config.x64_return_sentinel
      ≡ some (old, m1)
    → s2.runtime.generic ≡ s1.runtime.generic
    → s2.context.sp ≡ s.context.sp
    → replace_stack_record ops s2.memory (s.context.sp - 8) old ≡ some (v, m)
    → (back : Machine Mem) × (generic_pop_x64 ops s2 ≡ (true, back)) × IsBack s pc sp m back
unfolding popped
generic_pop_x64-generic_push_x64 ops s s1 s2 target_va pc sp old v m1 m pushed_it small held same at
      r =
    let called : Called ops s pc sp s1.runtime.generic =
      Succeeds-true (generic_push_x64-Called ops s pc sp target_va) pushed_it in
    let c = subst (Called ops s pc sp) (sym same) called in
    let (m', held') = c.replaced in
    let old_same : old ≡ (top s2.runtime.generic).old_record = cc (sym held ∙ held') in
    let r' : replace_stack_record ops s2.memory (top s2.runtime.generic).record_address
          (top s2.runtime.generic).old_record
        ≡ some (v, m) =
      rw (c.address, ← old_same) r in
    (
      (popped s2 (top s2.runtime.generic) (some (v, m))).1,
      generic_pop_x64_lem ops s2 (some (v, m)) (omega (arith, c.depth_grown)) c.written
          (at ∙ rw c.address (back_to_sp s.context.sp c.room small)) r',
      popped-IsBack ops s s2 pc sp v m c,
    )
