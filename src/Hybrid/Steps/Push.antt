-- ===== src/Hybrid/Steps/Push.antt =====
-- src/gem/hybrid_runtime.c: `generic_push_x64` on shapes.
use metal_sharp_wine_runtime.Prelude.{
  ℕ, ◌+◌, ◌-◌, ◌<◌, ◌≡◌, ◌≢◌, inl, inr, refl, ap, ◌∙◌, true, false, ◌||◌, Option, none, some, ◌==◌,
  ◌!=◌, ltb, leb, arith, Bool-cases,
}
use metal_sharp_wine_runtime.Target.{Target}
use metal_sharp_wine_runtime.Hybrid.{x64, Frame, GenericState, Machine, GuestOps}
use metal_sharp_wine_runtime.Hybrid.Frames.{
  frame_at, set_frame, generic_current_frame, has_callback, is_arm_callback, mark_nested,
  mark_parent, pushed, new_frame, next_cookie, push_marked, push_target, generic_push_x64,
}
use metal_sharp_wine_runtime.Hybrid.Nesting.{
  Shape, shape, put_frame, shape-set_frame, IsNew, Keeps, Pushes, from_arm, from_callback,
}
use metal_sharp_wine_runtime.Hybrid.Nesting.Weight.{depth-put_frame}
use metal_sharp_wine_runtime.Hybrid.Steps.{Succeeds, succeeded, declined, Succeeds-if, shape_of}

pub current_frame_lem :
    (g : GenericState) {f : Frame}
    → generic_current_frame g ≡ some f
    → (g.depth ≢ 0) × (f ≡ frame_at (g.depth - 1) g)
unfolding generic_current_frame
current_frame_lem g e = elim (Bool-cases (g.depth == 0 || ltb 2 g.depth)) [
  | inl h ↦ absurd (cc (rw h at e))
  | inr h ↦ let e' = rw h at e in (ground arith, cc e')
]

-- How the frame below is marked.
data Marked (g marked : GenericState) : Type 0 where
  as_it_was : is_arm_callback g.stage ≡ false → marked ≡ g → Marked g marked
  as_nested :
      (parent : Frame)
      → is_arm_callback g.stage ≡ true
      → g.depth ≢ 0
      → has_callback parent.callback ≡ true
      → Keeps (frame_at (g.depth - 1) g) parent
      → marked ≡ set_frame (g.depth - 1) parent g
      → Marked g marked

mark_nested-Marked :
    (g : GenericState) {marked : GenericState} (o : Option Frame)
    → is_arm_callback g.stage ≡ true
    → generic_current_frame g ≡ o
    → mark_nested g o ≡ some marked
    → Marked g marked
unfolding mark_nested
mark_nested-Marked g none a c e = absurd (cc e)
mark_nested-Marked g (some p) a c e = elim (Bool-cases (has_callback p.callback)) [
  | inl h ↦
      let (pos, at) = current_frame_lem g c in
      let e' = rw h at e in
      as_nested (record p { callback_nested = true }) a pos h
        (record {
          written = ap (λ f. f.record_written) at;
          resumes = ap (λ f. f.resume_arm_callback) at;
        })
        (cc e')
  | inr h ↦ absurd (cc (rw h at e))
]

mark_parent-Marked :
    (g : GenericState) {marked : GenericState} → mark_parent g ≡ some marked → Marked g marked
unfolding mark_parent
mark_parent-Marked g e = elim (Bool-cases (is_arm_callback g.stage)) [
  | inl h ↦ let e' = rw h at e in mark_nested-Marked g (generic_current_frame g) h refl e'
  | inr h ↦ let e' = rw h at e in as_it_was h (cc e')
]

-- The shape after the frame is stored.
abbrev with_pushed : Frame → GenericState → GenericState
with_pushed f g = record (set_frame g.depth f g) { depth = g.depth + 1; stage = x64 }

shape-with_pushed :
    (f : Frame) (g : GenericState) {sh : Shape}
    → shape g ≡ sh
    → shape (with_pushed f g)
      ≡ record (put_frame sh.depth f sh) { stage = x64; depth = sh.depth + 1 }
shape-with_pushed f g e =
    ap (λ (z : Shape). record z { stage = x64; depth = g.depth + 1 }) (shape-set_frame g.depth f g)
    ∙ ap (λ (z : Shape). record (put_frame z.depth f z) { stage = x64; depth = z.depth + 1 }) e

Marked-Pushes :
    (f : Frame) (g marked : GenericState)
    → g.depth < 2
    → IsNew g.stage f
    → Marked g marked
    → Pushes (shape g) (shape (with_pushed f marked))
Marked-Pushes f g marked lt n (as_it_was a e) =
    from_arm f lt a n (shape-with_pushed f marked (ap shape e))
Marked-Pushes f g marked lt n (as_nested p a pos h k e) = from_callback f p lt pos a n h k (
    shape-with_pushed f marked (ap shape e ∙ shape-set_frame (g.depth - 1) p g)
    ∙ ap
        (λ d. record (put_frame d f (put_frame (g.depth - 1) p (shape g))) {
          stage = x64;
          depth = d + 1;
        })
        (depth-put_frame (g.depth - 1) p (shape g)))

module _ {Mem : Type 0} (ops : GuestOps Mem) (s : Machine Mem)
    (lt : s.runtime.generic.depth < 2) where
  pushed-Pushes :
      (marked : GenericState) (cookie : ℕ) (f : Frame) (target_va : ℕ) (o : Option (ℕ × Mem))
      → f.resume_arm_callback ≡ is_arm_callback s.runtime.generic.stage
      → has_callback f.callback ≡ false
      → Marked s.runtime.generic marked
      → Succeeds (λ s'. Pushes (shape_of s) (shape_of s')) (pushed s marked cookie f target_va o)
  unfolding pushed
  pushed-Pushes marked cookie f target_va none r p m = declined
  pushed-Pushes marked cookie f target_va (some (old, mem)) r p m = succeeded (
      Marked-Pushes (record f { old_record = old; record_written = true }) s.runtime.generic marked
        lt (record { written = refl; resumes = r; plain = p }) m)

  push_marked-Pushes :
      (target_va pc sp : ℕ) (o : Option GenericState)
      → mark_parent s.runtime.generic ≡ o
      → Succeeds (λ s'. Pushes (shape_of s) (shape_of s')) (push_marked ops s target_va pc sp o)
  unfolding push_marked
  push_marked-Pushes target_va pc sp none e = declined
  push_marked-Pushes target_va pc sp (some marked) e =
      pushed-Pushes marked _
        (new_frame s.context (next_cookie s.runtime.generation) pc sp
          (is_arm_callback s.runtime.generic.stage))
        target_va _ refl refl (mark_parent-Marked s.runtime.generic e)

  push_target-Pushes :
      (pc sp : ℕ) (o : Option Target)
      → Succeeds (λ s'. Pushes (shape_of s) (shape_of s')) (push_target ops s pc sp o)
  unfolding push_target
  push_target-Pushes pc sp none = declined
  push_target-Pushes pc sp (some t) =
      Succeeds-if _ s λ _. push_marked-Pushes t.resolved_va pc sp _ refl

pub generic_push_x64-Pushes :
    {Mem : Type 0} (ops : GuestOps Mem) (s : Machine Mem) (target_va pc sp : ℕ)
    → Succeeds (λ s'. Pushes (shape_of s) (shape_of s')) (generic_push_x64 ops s target_va pc sp)
unfolding generic_push_x64
generic_push_x64-Pushes ops s target_va pc sp =
    Succeeds-if (leb 2 s.runtime.generic.depth || ltb s.context.sp 8 || s.context.sp != sp) s
      λ h. push_target-Pushes ops s (ground arith) pc sp _
