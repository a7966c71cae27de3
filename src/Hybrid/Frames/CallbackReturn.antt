-- ===== src/Hybrid/Frames/CallbackReturn.antt =====
-- src/gem/hybrid_runtime.c: `generic_enter_callback` for a call, and `generic_finish_callback` when
-- the ARM64EC code has returned.
use metal_sharp_wine_runtime.Prelude.{
  ℕ, ◌-◌, ◌*◌, ◌/◌, ◌≤◌, ◌≡◌, ◌≢◌, inl, inr, refl, sym, ap, ◌∙◌, true, false, ◌||◌, Option, none,
  some, ◌==◌, ◌!=◌, ltb, arith, Bool-cases, Option-cases,
}
use metal_sharp_wine_runtime.Context.{isa_x64}
use metal_sharp_wine_runtime.Target.{Status, Target}
use metal_sharp_wine_runtime.Hybrid.{
  x64, arm_callback, callback_none, callback_call, Frame, GenericState, Machine, GuestOps,
}
use metal_sharp_wine_runtime.Hybrid.Resolve.{arm_target}
use metal_sharp_wine_runtime.Hybrid.Frames.{
  frame_at, set_frame, generic_current_frame, has_callback, cookie_of,
}
use metal_sharp_wine_runtime.Hybrid.Frames.Callbacks.{
  with_current, with_generic, callback_entered, entered_by, read_record, enter_by_call, enter_in,
  generic_enter_callback, finish_kind, finished_call, finish_in, generic_finish_callback,
}
use metal_sharp_wine_runtime.Hybrid.Frames.Called.{frame_at-set_frame, depth-set_frame, top}
use metal_sharp_wine_runtime.Hybrid.Steps.{
  Succeeds, succeeded, declined, Succeeds-if, Succeeds-true,
}
use mathlib.Core.Path.{subst}

current_frame_cases :
    (g : GenericState) {f : Frame}
    → generic_current_frame g ≡ some f
    → (g.depth ≢ 0) × (g.depth ≤ 2) × (f ≡ top g)
unfolding generic_current_frame
current_frame_cases g e = elim (Bool-cases (g.depth == 0 || ltb 2 g.depth)) [
  | inl h ↦ absurd (cc (rw h at e))
  | inr h ↦ let e' = rw h at e in (ground arith, ground arith, cc e')
]

current_frame_top :
    (g : GenericState) → g.depth ≢ 0 → g.depth ≤ 2 → generic_current_frame g ≡ some (top g)
unfolding generic_current_frame
current_frame_top g pos le = let h : (g.depth == 0 || ltb 2 g.depth) ≡ false = ground arith in rw h

top-set_frame :
    (f : Frame) (g : GenericState) → top (record (with_current g f) { stage = arm_callback }) ≡ f
top-set_frame f g =
    ap (λ d. frame_at (d - 1) (set_frame (g.depth - 1) f g)) (depth-set_frame (g.depth - 1) f g)
    ∙ frame_at-set_frame (g.depth - 1) f g

-- What the entry of a callback that was called leaves: the top frame knows the way back, and the
-- return address is what the stack held.
module _ {Mem : Type 0} (ops : GuestOps Mem) (s : Machine Mem) (pre_step_sp : ℕ) where
  pub record InCallback (g : GenericState) : Type 0 where
    pub nonempty : g.depth ≢ 0
    pub shallow : g.depth ≤ 2
    pub depth_kept : g.depth ≡ s.runtime.generic.depth
    pub by_call : (top g).callback ≡ callback_call
    pub pre_call_sp : (top g).callback_pre_call_sp ≡ pre_step_sp
    pub prior_sp : (top g).callback_prior_original_x64_sp ≡ s.context.original_x64_sp
    pub cookie_kept : (top g).cookie ≡ cookie_of (generic_current_frame s.runtime.generic)
    pub return_read :
        (m : Mem) × (read_record ops s.memory s.context.sp ≡ (some (top g).callback_resume_pc, m))

  module _ (f : Frame) (current : generic_current_frame s.runtime.generic ≡ some f) where
    entered_by-InCallback :
        (target_va pc : ℕ) (m0 : Mem) (answer : (Status × Option Target) × Mem)
        → read_record ops s.memory s.context.sp ≡ (some pc, m0)
        → Succeeds
            (λ s'. InCallback s'.runtime.generic)
            (entered_by s
              (record f { callback = callback_call; callback_resume_pc = pc })
              pre_step_sp
              target_va
              answer)
    unfolding entered_by
    entered_by-InCallback target_va pc m0 (answer, m) read =
        elim (Option-cases (arm_target answer)) [
          | inl e ↦ rw (e, entered_by) declined
          | inr (thunk, e) ↦
              let g = s.runtime.generic in
              let filled = record f {
                callback = callback_call;
                callback_resume_pc = pc;
                callback_pre_call_sp = pre_step_sp;
                callback_arm_entry_sp = pre_step_sp / 16 * 16;
                callback_prior_original_x64_sp = s.context.original_x64_sp;
              } in
              let t = top-set_frame filled g in
              let d = depth-set_frame (g.depth - 1) filled g in
              let (pos, le, at) = current_frame_cases g current in
              rw (e, entered_by, callback_entered)
                (succeeded (record {
                  nonempty = λ z. pos (sym d ∙ z);
                  shallow = omega arith;
                  depth_kept = d;
                  by_call = ap (λ z. z.callback) t;
                  pre_call_sp = ap (λ z. z.callback_pre_call_sp) t;
                  prior_sp = ap (λ z. z.callback_prior_original_x64_sp) t;
                  cookie_kept = ap (λ z. z.cookie) t ∙ sym (ap cookie_of current);
                  return_read =
                      (m0, read ∙ ap (λ z. (some z, m0)) (sym (ap (λ z. z.callback_resume_pc) t)));
                }))
        ]

    enter_by_call-InCallback :
        (target_va : ℕ) (o : Option ℕ × Mem)
        → read_record ops s.memory s.context.sp ≡ o
        → Succeeds
            (λ s'. InCallback s'.runtime.generic)
            (enter_by_call ops s f target_va pre_step_sp o)
    unfolding enter_by_call
    enter_by_call-InCallback target_va (none, m) e = declined
    enter_by_call-InCallback target_va (some pc, m) e = entered_by-InCallback target_va pc m _ e

  enter_in-InCallback :
      (target_va : ℕ) (o : Option Frame)
      → generic_current_frame s.runtime.generic ≡ o
      → Succeeds (λ s'. InCallback s'.runtime.generic) (enter_in ops s target_va pre_step_sp true o)
  unfolding enter_in
  enter_in-InCallback target_va none e = declined
  enter_in-InCallback target_va (some f) e =
      Succeeds-if (has_callback f.callback || ltb target_va 4) s λ _.
        Succeeds-if (ltb pre_step_sp 8 || s.context.sp != pre_step_sp - 8) s
          λ _. enter_by_call-InCallback f e target_va _ refl

-- The thread after the end of the callback: it is back in the x64 code that made the call.
pub record IsResumed {Mem : Type 0} (s : Machine Mem) (sp return_pc : ℕ) (m : Mem)
    (back : Machine Mem) : Type 0 where
  at_pc : back.context.pc ≡ return_pc
  at_sp : back.context.sp ≡ sp
  original_sp : back.context.original_x64_sp ≡ s.context.original_x64_sp
  in_x64 : back.context.isa ≡ isa_x64
  cookie : back.context.transition_cookie ≡ cookie_of (generic_current_frame s.runtime.generic)
  stage : back.runtime.generic.stage ≡ x64
  depth : back.runtime.generic.depth ≡ s.runtime.generic.depth
  memory : back.memory ≡ m

generic_finish_callback_lem :
    {Mem : Type 0} (ops : GuestOps Mem) (s : Machine Mem)
    → s.runtime.generic.depth ≢ 0
    → s.runtime.generic.depth ≤ 2
    → (top s.runtime.generic).callback ≡ callback_call
    → generic_finish_callback ops s ≡ (
      true,
      finished_call ops
          (with_generic s (record s.runtime.generic { pending_callback_return = false }))
          (top s.runtime.generic),
    )
unfolding generic_finish_callback finish_in finish_kind
generic_finish_callback_lem ops s pos le call =
    let current = current_frame_top s.runtime.generic pos le in
    let calls : has_callback (top s.runtime.generic).callback ≡ true = ap has_callback call in
    rw (current, finish_in, calls, call)

-- Where x64 code has entered a callback by a call, which left its return address on the stack, and
-- the coordinator's state is still so when the ARM64EC code has returned, the end of the callback puts
-- the thread back after the call, whatever else the ARM64EC code did to its context and the memory:
-- the program counter is that return address; the stack pointer is that of before the call; the
-- instruction set is x64; the saved x64 stack pointer, the cookie of the frame and the depth are those
-- of before the call; the stage is that of x64 code; and the memory stays as it is.
pub generic_finish_callback-generic_enter_callback :
    {Mem : Type 0} (ops : GuestOps Mem) (s s1 s2 : Machine Mem) (target : Target)
    (pre_step_sp return_pc : ℕ) (m : Mem)
    → generic_enter_callback ops s target pre_step_sp true ≡ (true, s1)
    → read_record ops s.memory s.context.sp ≡ (some return_pc, m)
    → s2.runtime.generic ≡ s1.runtime.generic
    → (back : Machine Mem) × (generic_finish_callback ops s2 ≡ (true, back))
      × IsResumed s pre_step_sp return_pc s2.memory back
unfolding generic_enter_callback finished_call
generic_finish_callback-generic_enter_callback ops s s1 s2 target sp return_pc m entered read same =
    let inside : InCallback ops s sp s1.runtime.generic =
      Succeeds-true (enter_in-InCallback ops s sp target.resolved_va _ refl) entered in
    let c = subst (InCallback ops s sp) (sym same) inside in
    let (m', read') = c.return_read in
    let g = s2.runtime.generic in
    let cleared = record (top g) {
      callback = callback_none;
      callback_resume_pc = 0;
      callback_pre_call_sp = 0;
      callback_arm_entry_sp = 0;
      callback_prior_original_x64_sp = 0;
    } in
    (
      finished_call ops (with_generic s2 (record g { pending_callback_return = false })) (top g),
      generic_finish_callback_lem ops s2 c.nonempty c.shallow c.by_call,
      record {
        at_pc = cc (sym read' ∙ read);
        at_sp = c.pre_call_sp;
        original_sp = c.prior_sp;
        in_x64 = refl;
        cookie = c.cookie_kept;
        stage = refl;
        depth =
            depth-set_frame (g.depth - 1) cleared (record g { pending_callback_return = false })
            ∙ c.depth_kept;
        memory = refl;
      },
    )
