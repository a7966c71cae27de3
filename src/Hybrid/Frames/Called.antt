-- ===== src/Hybrid/Frames/Called.antt =====
-- src/gem/hybrid_runtime.c: what `generic_push_x64` leaves when it succeeds.
use metal_sharp_wine_runtime.Prelude.{
  ℕ, ◌+◌, ◌-◌, ◌≤◌, ◌<◌, ◌≡◌, ◌≢◌, inl, inr, refl, sym, ap, ◌∙◌, true, false, ◌||◌, Option, none,
  some, ◌==◌, ◌!=◌, ltb, leb, arith, Bool-cases,
}
use metal_sharp_wine_runtime.Target.{Target}
use metal_sharp_wine_runtime.Hybrid.{x64, Frame, GenericState, Machine, GuestOps}
use metal_sharp_wine_runtime.Hybrid.Records.{replace_stack_record}
use metal_sharp_wine_runtime.Hybrid.Frames.{
  frame_at, set_frame, generic_current_frame, has_callback, is_arm_callback, mark_nested,
  mark_parent, pushed, new_frame, next_cookie, push_marked, push_target, generic_push_x64,
}
use metal_sharp_wine_runtime.Hybrid.Steps.{Succeeds, succeeded, declined, Succeeds-if}
use metal_sharp_wine_runtime.Hybrid.Steps.Push.{current_frame_lem}
use mathlib.Core.Path.{subst}

pub frame_at-set_frame : (i : ℕ) (f : Frame) (g : GenericState) → frame_at i (set_frame i f g) ≡ f
frame_at-set_frame i f g = elim (Bool-cases (i == 0)) [ inl e ↦ rw e | inr e ↦ rw e ]

pub set_frame_outer :
    (i : ℕ) (f : Frame) (g : GenericState) → i ≢ 0 → (set_frame i f g).outer ≡ g.outer
set_frame_outer i f g pos = let e : (i == 0) ≡ false = ground arith in rw e

pub depth-set_frame : (i : ℕ) (f : Frame) (g : GenericState) → (set_frame i f g).depth ≡ g.depth
depth-set_frame i f g = elim (Bool-cases (i == 0)) [ inl e ↦ rw e | inr e ↦ rw e ]

-- Marking a parent leaves the depth and the cookie of the outer frame.
record IsMarked (g marked : GenericState) : Type 0 where
  depth_kept : marked.depth ≡ g.depth
  cookie_kept : marked.outer.cookie ≡ g.outer.cookie

set_frame-IsMarked :
    (i : ℕ) (f : Frame) (g : GenericState)
    → f.cookie ≡ (frame_at i g).cookie
    → IsMarked g (set_frame i f g)
set_frame-IsMarked i f g c = record {
  depth_kept = depth-set_frame i f g;
  cookie_kept = elim (Bool-cases (i == 0)) [ inl e ↦ rw e (rw e at c) | inr e ↦ rw e ];
}

mark_nested-IsMarked :
    (g : GenericState) {marked : GenericState} (o : Option Frame)
    → generic_current_frame g ≡ o
    → mark_nested g o ≡ some marked
    → IsMarked g marked
unfolding mark_nested
mark_nested-IsMarked g none c e = absurd (cc e)
mark_nested-IsMarked g (some p) c e = elim (Bool-cases (has_callback p.callback)) [
  | inl h ↦
      let nested = record p { callback_nested = true } in
      let same : some (set_frame (g.depth - 1) nested g) ≡ some _ = rw h at e in
      subst (IsMarked g) (cc same)
        (set_frame-IsMarked (g.depth - 1) nested g (ap (λ f. f.cookie) (current_frame_lem g c).1))
  | inr h ↦ absurd (cc (rw h at e))
]

mark_parent-IsMarked :
    (g : GenericState) {marked : GenericState} → mark_parent g ≡ some marked → IsMarked g marked
unfolding mark_parent
mark_parent-IsMarked g {marked} e = elim (Bool-cases (is_arm_callback g.stage)) [
  | inl h ↦ mark_nested-IsMarked g (generic_current_frame g) refl (rw h at e)
  | inr h ↦
      let same : some g ≡ some marked = rw h at e in
      let kept : g ≡ marked = cc same in
      record {
        depth_kept = ap (λ z. z.depth) (sym kept);
        cookie_kept = ap (λ z. z.outer.cookie) (sym kept);
      }
]

abbrev pub top : GenericState → Frame
top g = frame_at (g.depth - 1) g

-- What a push leaves: the top frame knows the way back, and its old record is what the stack held.
module _ {Mem : Type 0} (ops : GuestOps Mem) (s : Machine Mem) (pc sp : ℕ) where
  pub record Called (g : GenericState) : Type 0 where
    pub shallow : s.runtime.generic.depth < 2
    pub depth_grown : g.depth ≡ s.runtime.generic.depth + 1
    pub room : 8 ≤ s.context.sp
    pub entry_sp : s.context.sp ≡ sp
    pub written : (top g).record_written ≡ true
    pub resume_pc : (top g).arm_resume_pc ≡ pc
    pub resume_sp : (top g).arm_resume_sp ≡ sp
    pub prior_sp : (top g).prior_original_x64_sp ≡ s.context.original_x64_sp
    pub address : (top g).record_address ≡ s.context.sp - 8
    pub resumes : (top g).resume_arm_callback ≡ is_arm_callback s.runtime.generic.stage
    pub outer_cookie : s.runtime.generic.depth ≢ 0 → g.outer.cookie ≡ s.runtime.generic.outer.cookie
    pub replaced :
        (m : Mem) × (replace_stack_record ops s.memory
            (s.context.sp - 8)
            s.runtime.config.x64_return_sentinel
          ≡ some ((top g).old_record, m))

  -- The tests at the begin of the push.
  record Admitted : Type 0 where
    few : s.runtime.generic.depth < 2
    fits : 8 ≤ s.context.sp
    same_sp : s.context.sp ≡ sp

  top_pushed :
      (f : Frame) (marked : GenericState)
      → top (record (set_frame marked.depth f marked) { depth = marked.depth + 1; stage = x64 }) ≡ f
  top_pushed f marked =
      ap (λ i. frame_at i (set_frame marked.depth f marked)) (omega arith)
      ∙ frame_at-set_frame marked.depth f marked

  pushed-Called :
      (marked : GenericState) (target_va : ℕ) (o : Option (ℕ × Mem))
      → Admitted
      → IsMarked s.runtime.generic marked
      → replace_stack_record ops s.memory (s.context.sp - 8) s.runtime.config.x64_return_sentinel
        ≡ o
      → Succeeds
          (λ s'. Called s'.runtime.generic)
          (pushed s marked
            (next_cookie s.runtime.generation)
            (new_frame s.context
              (next_cookie s.runtime.generation)
              pc
              sp
              (is_arm_callback s.runtime.generic.stage))
            target_va
            o)
  unfolding pushed
  pushed-Called marked target_va none a k e = declined
  pushed-Called marked target_va (some (old, m)) a k e =
      let f =
        record (new_frame s.context (next_cookie s.runtime.generation) pc sp
          (is_arm_callback s.runtime.generic.stage)) { old_record = old; record_written = true } in
      let t = top_pushed f marked in
      succeeded (record {
        shallow = a.few;
        depth_grown = ap (λ d. d + 1) k.depth_kept;
        room = a.fits;
        entry_sp = a.same_sp;
        written = ap (λ z. z.record_written) t;
        resume_pc = ap (λ z. z.arm_resume_pc) t;
        resume_sp = ap (λ z. z.arm_resume_sp) t;
        prior_sp = ap (λ z. z.prior_original_x64_sp) t;
        address = ap (λ z. z.record_address) t;
        resumes = ap (λ z. z.resume_arm_callback) t;
        outer_cookie = λ pos.
            ap (λ z. z.cookie)
              (set_frame_outer marked.depth f marked (λ z. pos (sym k.depth_kept ∙ z)))
            ∙ k.cookie_kept;
        replaced = (m, e ∙ ap (λ z. some (z, m)) (sym (ap (λ z. z.old_record) t)));
      })

  push_marked-Called :
      (target_va : ℕ) (o : Option GenericState)
      → Admitted
      → mark_parent s.runtime.generic ≡ o
      → Succeeds (λ s'. Called s'.runtime.generic) (push_marked ops s target_va pc sp o)
  unfolding push_marked
  push_marked-Called target_va none a e = declined
  push_marked-Called target_va (some marked) a e =
      pushed-Called marked target_va _ a (mark_parent-IsMarked s.runtime.generic e) refl

  push_target-Called :
      (o : Option Target)
      → Admitted
      → Succeeds (λ s'. Called s'.runtime.generic) (push_target ops s pc sp o)
  unfolding push_target
  push_target-Called none a = declined
  push_target-Called (some t) a = Succeeds-if _ s λ _. push_marked-Called t.resolved_va _ a refl

  pub generic_push_x64-Called :
      (target_va : ℕ)
      → Succeeds (λ s'. Called s'.runtime.generic) (generic_push_x64 ops s target_va pc sp)
  unfolding generic_push_x64
  generic_push_x64-Called target_va =
      Succeeds-if (leb 2 s.runtime.generic.depth || ltb s.context.sp 8 || s.context.sp != sp) s λ h.
        push_target-Called _
          (record { few = ground arith; fits = ground arith; same_sp = ground arith })
