-- ===== src/Hybrid/Nesting/Weight.antt =====
-- src/gem/hybrid_runtime.c: the order in which the rounds of the coordinator run down.
use metal_sharp_wine_runtime.Prelude.{
  ℕ, ◌+◌, ◌-◌, ◌≤◌, ◌<◌, ◌≡◌, refl, ap, ◌∙◌, Bool, true, ◌==◌, arith, Bool-cases, inl, inr,
}
use metal_sharp_wine_runtime.Hybrid.Boundary.{runs_arm}
use metal_sharp_wine_runtime.Hybrid.{Stage, idle, arm, x64, arm_callback, Frame}
use metal_sharp_wine_runtime.Hybrid.Nesting.{
  Shape, put_frame, from_arm, from_callback, Turns, ArmMove, pushes, finishes, tail_pops, X64Move,
  stays, enters, pops,
}

-- The weight of a stage in the order of the rounds.
unfoldable pub weight : Stage → ℕ → ℕ
weight x64 depth = 0
weight s depth = depth + 1

weight_le : (s : Stage) (d : ℕ) → weight s d ≤ d + 1
unfolding weight
weight_le x64 d = omega arith
weight_le idle d = omega arith
weight_le arm d = omega arith
weight_le arm_callback d = omega arith

weight_arm : (s : Stage) (d : ℕ) → runs_arm s ≡ true → weight s d ≡ d + 1
unfolding weight
weight_arm arm d r = refl
weight_arm arm_callback d r = refl
weight_arm x64 d r = absurd (cc)
weight_arm idle d r = absurd (cc)

-- A move to x64 code from a depth that it increases or keeps.
to_x64 :
    (sh sh' : Shape) (d : ℕ)
    → runs_arm sh.stage ≡ true
    → d ≤ 2
    → weight sh'.stage sh'.depth ≡ 0
    → sh'.depth ≡ d
    → (weight sh'.stage sh'.depth < weight sh.stage sh.depth) × (sh'.depth ≤ 2)
to_x64 sh sh' d r le w e = (omega (arith, w, weight_arm sh.stage sh.depth r), omega (arith, e, le))

pub depth-put_frame : (i : ℕ) (f : Frame) (sh : Shape) → (put_frame i f sh).depth ≡ sh.depth
depth-put_frame i f sh = elim (Bool-cases (i == 0)) [ inl e ↦ rw e | inr e ↦ rw e ]

Turns-depth :
    {stage : Stage} {calls : Bool} {sh sh' : Shape}
    → Turns stage calls sh sh'
    → sh'.depth ≡ sh.depth
Turns-depth {sh} t = ap (λ z. z.depth) t.turned ∙ depth-put_frame (sh.depth - 1) t.current sh

-- A round that runs ARM64EC code makes less of the weight.
pub ArmMove-weight :
    {sh sh' : Shape}
    → runs_arm sh.stage ≡ true
    → ArmMove sh sh'
    → sh.depth ≤ 2
    → (weight sh'.stage sh'.depth < weight sh.stage sh.depth) × (sh'.depth ≤ 2)
unfolding weight
ArmMove-weight {sh} {sh'} r (pushes (from_arm f lt c n e)) le =
    to_x64 sh sh' (sh.depth + 1) r (omega arith) (ap (λ z. weight z.stage z.depth) e)
      (ap (λ z. z.depth) e)
ArmMove-weight {sh} {sh'} r (pushes (from_callback f p lt pos c n h k e)) le =
    to_x64 sh sh' (sh.depth + 1) r (omega arith) (ap (λ z. weight z.stage z.depth) e)
      (ap (λ z. z.depth) e)
ArmMove-weight {sh} {sh'} r (finishes t) le =
    to_x64 sh sh' sh.depth r le (ap (λ z. weight z.stage z.depth) t.turned) (Turns-depth t)
ArmMove-weight {sh} {sh'} r (tail_pops p) le =
    let e = ap (λ z. z.depth) p.dropped in
    (
      omega (arith, e, p.nonempty, weight_le sh'.stage sh'.depth, weight_arm sh.stage sh.depth r),
      omega (arith, e),
    )

-- A round that runs x64 code keeps the weight in its bounds.
pub X64Move-depth : {sh sh' : Shape} → X64Move sh sh' → sh.depth ≤ 2 → sh'.depth ≤ 2
X64Move-depth (stays e) le = omega (arith, ap (λ z. z.depth) e)
X64Move-depth (enters t) le = omega (arith, Turns-depth t)
X64Move-depth (pops p) le = omega (arith, ap (λ z. z.depth) p.dropped)

pub weight_bounded : (sh : Shape) → sh.depth ≤ 2 → weight sh.stage sh.depth ≤ 3
weight_bounded sh le = omega (arith, weight_le sh.stage sh.depth)
