-- ===== src/Hybrid/Nesting/Invariant.antt =====
-- src/gem/hybrid_runtime.c: the shapes that the coordinator can have, and the order in which its
-- rounds run down.
use metal_sharp_wine_runtime.Prelude.{
  ℕ, ◌+◌, ◌-◌, ◌≤◌, ◌≡◌, refl, sym, ap, ◌∙◌, Bool, true, false, if◌then◌else◌, arith, Bool-cases,
  inl, inr,
}
use metal_sharp_wine_runtime.Hybrid.Boundary.{runs_arm}
use metal_sharp_wine_runtime.Hybrid.{Stage, idle, arm, x64, arm_callback, Frame}
use metal_sharp_wine_runtime.Hybrid.Frames.{has_callback, is_arm_callback}
use metal_sharp_wine_runtime.Hybrid.Nesting.{
  Shape, frame_of, put_frame, IsNew, Keeps, Pushes, from_arm, from_callback, stage_below, Pops,
  Turns, ArmMove, pushes, finishes, tail_pops, X64Move, stays, enters, pops,
}
use mathlib.Core.Path.{subst}

-- The stage of the top frame, by whether it is in a callback.
abbrev pub level_stage : Frame → Stage
level_stage f = if has_callback f.callback then arm_callback else x64

pub record IsFrame (resumes : Bool) (f : Frame) : Type 0 where
  pub written : f.record_written ≡ true
  pub resumes_callback : f.resume_arm_callback ≡ resumes

-- No frame is there and the coordinator is idle or runs the ARM64EC code that it began with; or
-- there is one frame, or a second one inside the callback of the first. The stage tells whether the
-- top frame is in a callback, and each frame remembers the stage that it was pushed from.
pub data Nested (sh : Shape) : Type 0 where
  inactive : sh.stage ≡ idle → sh.depth ≡ 0 → Nested sh
  at_arm : sh.stage ≡ arm → sh.depth ≡ 0 → Nested sh
  one : sh.depth ≡ 1 → IsFrame false sh.outer → sh.stage ≡ level_stage sh.outer → Nested sh
  two :
      sh.depth ≡ 2
      → IsFrame false sh.outer
      → has_callback sh.outer.callback ≡ true
      → IsFrame true sh.inner
      → sh.stage ≡ level_stage sh.inner
      → Nested sh

pub Nested-depth : {sh : Shape} → Nested sh → sh.depth ≤ 2
Nested-depth (inactive s d) = omega arith
Nested-depth (at_arm s d) = omega arith
Nested-depth (one d f s) = omega arith
Nested-depth (two d f c i s) = omega arith

abbrev at_depth : ℕ → Shape → Shape
at_depth n sh = record sh { depth = n }

level_of :
    (f : Frame) {b : Bool}
    → has_callback f.callback ≡ b
    → level_stage f ≡ (if b then arm_callback else x64)
level_of f e = rw e

IsFrame-Keeps : {b : Bool} {f f' : Frame} → Keeps f f' → IsFrame b f → IsFrame b f'
IsFrame-Keeps k i = record {
  written = k.written ∙ i.written;
  resumes_callback = k.resumes ∙ i.resumes_callback;
}

Turns-Nested :
    (calls : Bool) {sh sh' : Shape}
    → Turns (if calls then arm_callback else x64) calls sh sh'
    → Nested sh
    → Nested sh'
Turns-Nested calls t (inactive s d) = absurd (t.nonempty d)
Turns-Nested calls t (at_arm s d) = absurd (t.nonempty d)
Turns-Nested calls {sh} {sh'} t (one d f s) =
    let u =
      subst (λ z. Turns (if calls then arm_callback else x64) calls z sh')
        (ap (λ n. at_depth n sh) d) t in
    subst Nested (sym u.turned)
      (one refl (IsFrame-Keeps u.keeps f) (sym (level_of u.current u.callback)))
Turns-Nested calls {sh} {sh'} t (two d f c i s) =
    let u =
      subst (λ z. Turns (if calls then arm_callback else x64) calls z sh')
        (ap (λ n. at_depth n sh) d) t in
    subst Nested (sym u.turned)
      (two refl f c (IsFrame-Keeps u.keeps i) (sym (level_of u.current u.callback)))

below_one : {f : Frame} → IsFrame false f → stage_below f ≡ arm
below_one i = rw i.resumes_callback

below_two : {f : Frame} → IsFrame true f → stage_below f ≡ arm_callback
below_two i = rw i.resumes_callback

Pops-Nested : {sh sh' : Shape} → Pops sh sh' → Nested sh → Nested sh'
Pops-Nested p (inactive s d) = absurd (p.nonempty d)
Pops-Nested p (at_arm s d) = absurd (p.nonempty d)
Pops-Nested {sh} {sh'} p (one d f s) =
    let q = subst (λ z. Pops z sh') (ap (λ n. at_depth n sh) d) p in
    subst Nested (sym q.dropped) (at_arm (below_one f) refl)
Pops-Nested {sh} {sh'} p (two d f c i s) =
    let q = subst (λ z. Pops z sh') (ap (λ n. at_depth n sh) d) p in
    subst Nested (sym q.dropped) (one refl f (below_two i ∙ sym (level_of sh.outer c)))

level_stage_callback :
    (f : Frame) {s : Stage} → runs_arm s ≡ true → s ≡ level_stage f → is_arm_callback s ≡ true
level_stage_callback f r e = elim (Bool-cases (has_callback f.callback)) [
  | inl h ↦ ap is_arm_callback (e ∙ level_of f h)
  | inr h ↦ absurd (cc (sym r ∙ ap runs_arm (e ∙ level_of f h)))
]

-- A frame that is pushed on one.
new_inner : {s : Stage} {f : Frame} → is_arm_callback s ≡ true → IsNew s f → IsFrame true f
new_inner c n = record { written = n.written; resumes_callback = n.resumes ∙ c }

-- The first frame.
pushed_first :
    (sh : Shape) {sh' : Shape} (f : Frame)
    → sh.depth ≡ 0
    → is_arm_callback sh.stage ≡ false
    → IsNew sh.stage f
    → sh' ≡ record (put_frame sh.depth f sh) { stage = x64; depth = sh.depth + 1 }
    → Nested sh'
pushed_first sh f d c n e =
    subst Nested (sym (e ∙ ap (λ i. record (put_frame i f sh) { stage = x64; depth = i + 1 }) d)) (
      one refl (record { written = n.written; resumes_callback = n.resumes ∙ c })
        (sym (level_of f n.plain)))

Pushes-Nested : {sh sh' : Shape} → runs_arm sh.stage ≡ true → Pushes sh sh' → Nested sh → Nested sh'
Pushes-Nested r (from_arm f lt c n e) (two d _ _ _ _) = absurd (omega (arith, d, lt))
Pushes-Nested {sh} r (from_arm f lt c n e) (one d _ s) =
    let c' = level_stage_callback sh.outer r s in absurd (cc)
Pushes-Nested {sh} r (from_arm f lt c n e) (inactive s d) = pushed_first sh f d c n e
Pushes-Nested {sh} r (from_arm f lt c n e) (at_arm s d) = pushed_first sh f d c n e
Pushes-Nested r (from_callback f parent lt pos c n h k e) (inactive s d) = absurd (pos d)
Pushes-Nested r (from_callback f parent lt pos c n h k e) (at_arm s d) = absurd (pos d)
Pushes-Nested r (from_callback f parent lt pos c n h k e) (two d _ _ _ _) =
    absurd (omega (arith, d, lt))
Pushes-Nested {sh} r (from_callback f parent lt pos c n h k e) (one d i s) =
    subst Nested
      (sym (
        e
        ∙ ap
            (λ j. record (put_frame j f (put_frame (j - 1) parent sh)) {
              stage = x64;
              depth = j + 1;
            })
            d))
      (two refl (IsFrame-Keeps (subst (λ j. Keeps (frame_of (j - 1) sh) parent) d k) i) h
        (new_inner c n) (sym (level_of f n.plain)))

-- A round that runs ARM64EC code, and one that runs x64 code, go from nesting to nesting.
pub ArmMove-Nested :
    {sh sh' : Shape} → runs_arm sh.stage ≡ true → ArmMove sh sh' → Nested sh → Nested sh'
ArmMove-Nested r (pushes p) n = Pushes-Nested r p n
ArmMove-Nested r (finishes t) n = Turns-Nested false t n
ArmMove-Nested r (tail_pops p) n = Pops-Nested p n

pub X64Move-Nested : {sh sh' : Shape} → X64Move sh sh' → Nested sh → Nested sh'
X64Move-Nested (stays e) n = subst Nested (sym e) n
X64Move-Nested (enters t) n = Turns-Nested true t n
X64Move-Nested (pops p) n = Pops-Nested p n
