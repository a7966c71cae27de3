-- ===== src/Hybrid/Steps/Turn.antt =====
-- src/gem/hybrid_runtime.c: `generic_enter_callback` and `generic_finish_callback` on shapes.
use metal_sharp_wine_runtime.Prelude.{
  ℕ, ◌+◌, ◌-◌, ◌*◌, ◌/◌, ◌%◌, ◌^◌, ◌≡◌, ◌≢◌, ◌⊎◌, inl, inr, refl, ap, ◌∙◌, Bool, true, false, ◌||◌,
  Option, none, some, ◌!=◌, ltb, Option-cases,
}
use metal_sharp_wine_runtime.Target.{Status, Target}
use metal_sharp_wine_runtime.Hybrid.{
  Stage, x64, arm_callback, Callback, callback_none, callback_call, callback_tail, Frame,
  GenericState, Machine, GuestOps,
}
use metal_sharp_wine_runtime.Hybrid.Resolve.{arm_target}
use metal_sharp_wine_runtime.Hybrid.Frames.{frame_at, generic_current_frame, has_callback}
use metal_sharp_wine_runtime.Hybrid.Frames.Callbacks.{
  with_generic, with_current, callback_entered, entered_by, enter_by_call, enter_by_tail, enter_in,
  generic_enter_callback, finished_call, finish_kind, finish_in, generic_finish_callback,
}
use metal_sharp_wine_runtime.Hybrid.Nesting.{Shape, shape, shape-set_frame, Keeps, Turns, Pops}
use metal_sharp_wine_runtime.Hybrid.Steps.{
  Succeeds, succeeded, declined, Succeeds-if, Succeeds-when, Succeeds-weaken, shape_of,
}
use metal_sharp_wine_runtime.Hybrid.Steps.Push.{current_frame_lem}
use metal_sharp_wine_runtime.Hybrid.Steps.Pop.{generic_pop_x64-Pops}

-- A new current frame and a new stage.
turned_lem :
    (g : GenericState) (stage : Stage) (calls : Bool) (f : Frame)
    → g.depth ≢ 0
    → Keeps (frame_at (g.depth - 1) g) f
    → has_callback f.callback ≡ calls
    → Turns stage calls (shape g) (shape (record (with_current g f) { stage = stage }))
turned_lem g stage calls f pos k c = record {
  current = f;
  nonempty = pos;
  keeps = k;
  callback = c;
  turned = ap (λ (z : Shape). record z { stage = stage }) (shape-set_frame (g.depth - 1) f g);
}

-- What is known of the current frame.
record IsCurrent (g : GenericState) (f : Frame) : Type 0 where
  nonempty : g.depth ≢ 0
  keeps : Keeps (frame_at (g.depth - 1) g) f

IsCurrent-found : (g : GenericState) {f : Frame} → generic_current_frame g ≡ some f → IsCurrent g f
IsCurrent-found g e =
    let (pos, at) = current_frame_lem g e in
    record {
      nonempty = pos;
      keeps = record {
        written = ap (λ f. f.record_written) at;
        resumes = ap (λ f. f.resume_arm_callback) at;
      };
    }

-- The frame with stores that leave what its pop needs.
IsCurrent-changed :
    (g : GenericState) (f f' : Frame)
    → f'.record_written ≡ f.record_written
    → f'.resume_arm_callback ≡ f.resume_arm_callback
    → IsCurrent g f
    → IsCurrent g f'
IsCurrent-changed g f f' w r c = record {
  nonempty = c.nonempty;
  keeps = record { written = w ∙ c.keeps.written; resumes = r ∙ c.keeps.resumes };
}

module _ {Mem : Type 0} (ops : GuestOps Mem) where
  abbrev Enters : Machine Mem → Machine Mem → Type 0
  Enters s s' = Turns arm_callback true (shape_of s) (shape_of s')

  entered_by-Enters :
      (s : Machine Mem) (f : Frame) (sp target_va : ℕ) (answer : (Status × Option Target) × Mem)
      → has_callback f.callback ≡ true
      → IsCurrent s.runtime.generic f
      → Succeeds (Enters s) (entered_by s f sp target_va answer)
  unfolding entered_by
  entered_by-Enters s f sp target_va (answer, m) h c = elim (Option-cases (arm_target answer)) [
    | inl e ↦ rw (e, entered_by) declined
    | inr (thunk, e) ↦
        let filled = record f {
          callback_pre_call_sp = sp;
          callback_arm_entry_sp = sp / 16 * 16;
          callback_prior_original_x64_sp = s.context.original_x64_sp;
        } in
        let c' = IsCurrent-changed s.runtime.generic f filled refl refl c in
        rw (e, entered_by, callback_entered)
          (succeeded (turned_lem s.runtime.generic arm_callback true filled c'.nonempty c'.keeps h))
  ]

  enter_by_call-Enters :
      (s : Machine Mem) (f : Frame) (target_va sp : ℕ) (o : Option ℕ × Mem)
      → IsCurrent s.runtime.generic f
      → Succeeds (Enters s) (enter_by_call ops s f target_va sp o)
  unfolding enter_by_call
  enter_by_call-Enters s f target_va sp (none, m) c = declined
  enter_by_call-Enters s f target_va sp (some pc, m) c =
      let called = record f { callback = callback_call; callback_resume_pc = pc } in
      entered_by-Enters s called sp target_va _ refl
        (IsCurrent-changed s.runtime.generic f called refl refl c)

  enter_by_tail-Enters :
      (s : Machine Mem) (f : Frame) (target_va : ℕ) (o : Option ℕ × Mem)
      → IsCurrent s.runtime.generic f
      → Succeeds (Enters s) (enter_by_tail ops s f target_va o)
  unfolding enter_by_tail
  enter_by_tail-Enters s f target_va (none, m) c = declined
  enter_by_tail-Enters s f target_va (some pc, m) c =
      let sentinel = s.runtime.config.x64_return_sentinel in
      let sp = (s.context.sp + 8) % 2 ^ 64 in
      let called = record f { callback = callback_tail; callback_resume_pc = sentinel } in
      Succeeds-if (pc != sentinel) (record s { memory = m })
        λ _.
          entered_by-Enters (record s { context = record s.context { sp = sp } }) called sp
            target_va _ refl (IsCurrent-changed s.runtime.generic f called refl refl c)

  enter_in-Enters :
      (s : Machine Mem) (target_va sp : ℕ) (was_call : Bool) (o : Option Frame)
      → generic_current_frame s.runtime.generic ≡ o
      → Succeeds (Enters s) (enter_in ops s target_va sp was_call o)
  unfolding enter_in
  enter_in-Enters s target_va sp was_call none e = declined
  enter_in-Enters s target_va sp true (some f) e =
      Succeeds-if (has_callback f.callback || ltb target_va 4) s λ _.
        Succeeds-if (ltb sp 8 || s.context.sp != sp - 8) s
          λ _. enter_by_call-Enters s f target_va sp _ (IsCurrent-found s.runtime.generic e)
  enter_in-Enters s target_va sp false (some f) e =
      Succeeds-if (has_callback f.callback || ltb target_va 4) s λ _.
        Succeeds-if (s.context.sp != f.record_address) s
          λ _. enter_by_tail-Enters s f target_va _ (IsCurrent-found s.runtime.generic e)

  pub generic_enter_callback-Enters :
      (s : Machine Mem) (target : Target) (sp : ℕ) (was_call : Bool)
      → Succeeds
          (λ s'. Turns arm_callback true (shape_of s) (shape_of s'))
          (generic_enter_callback ops s target sp was_call)
  unfolding generic_enter_callback
  generic_enter_callback-Enters s target sp was_call =
      enter_in-Enters s target.resolved_va sp was_call _ refl

  -- What a callback's end does.
  abbrev pub Finishes : Machine Mem → Machine Mem → Type 0
  Finishes s s' = Turns x64 false (shape_of s) (shape_of s') ⊎ Pops (shape_of s) (shape_of s')

  finish_kind-Finishes :
      (s : Machine Mem) (f : Frame) (callback : Callback)
      → IsCurrent s.runtime.generic f
      → Succeeds (Finishes s) (finish_kind ops s f callback)
  unfolding finish_kind finished_call
  finish_kind-Finishes s f callback_none c = declined
  finish_kind-Finishes s f callback_call c =
      let cleared = record f {
        callback = callback_none;
        callback_resume_pc = 0;
        callback_pre_call_sp = 0;
        callback_arm_entry_sp = 0;
        callback_prior_original_x64_sp = 0;
      } in
      let c' = IsCurrent-changed s.runtime.generic f cleared refl refl c in
      succeeded (inl (turned_lem s.runtime.generic x64 false cleared c'.nonempty c'.keeps refl))
  finish_kind-Finishes s f callback_tail c =
      Succeeds-weaken (λ s' p. inr p)
        (generic_pop_x64-Pops
          (record s { context = record s.context { sp = (f.record_address + 8) % 2 ^ 64 } }) ops)

  finish_in-Finishes :
      (s : Machine Mem) (o : Option Frame)
      → generic_current_frame s.runtime.generic ≡ o
      → Succeeds (Finishes s) (finish_in ops s o)
  unfolding finish_in
  finish_in-Finishes s none e = declined
  finish_in-Finishes s (some f) e =
      let c = IsCurrent-found s.runtime.generic e in
      Succeeds-when (has_callback f.callback) s λ _.
        finish_kind-Finishes
          (with_generic s (record s.runtime.generic { pending_callback_return = false })) f
          f.callback (record { nonempty = c.nonempty; keeps = c.keeps })

  pub generic_finish_callback-Finishes :
      (s : Machine Mem) → Succeeds (Finishes s) (generic_finish_callback ops s)
  unfolding generic_finish_callback
  generic_finish_callback-Finishes s = finish_in-Finishes s _ refl
