-- ===== src/Hybrid/Steps.antt =====
-- src/gem/hybrid_runtime.c: what the operations on frames do to the shape.
pub mod Push
pub mod Pop
pub mod Turn
pub mod Broker
pub mod Rounds
use mathlib.Core.Path.{subst}
use metal_sharp_wine_runtime.Prelude.{◌≡◌, refl, Bool, true, false, if◌then◌else◌}
use metal_sharp_wine_runtime.Hybrid.{Machine}
use metal_sharp_wine_runtime.Hybrid.Nesting.{Shape, shape}

-- A function that returns `true` leaves a machine with the property.
pub data Succeeds {Mem : Type 0} (P : Machine Mem → Type 0) : Bool × Machine Mem → Type 0 where
  succeeded : {s : Machine Mem} → P s → Succeeds P (true, s)
  declined : {s : Machine Mem} → Succeeds P (false, s)

module _ {Mem : Type 0} {P : Machine Mem → Type 0} where
  pub Succeeds-if :
      (b : Bool) (s : Machine Mem) {r : Bool × Machine Mem}
      → (b ≡ false → Succeeds P r)
      → Succeeds P (if b then (false, s) else r)
  Succeeds-if true s k = declined
  Succeeds-if false s k = k refl

  pub Succeeds-when :
      (b : Bool) (s : Machine Mem) {r : Bool × Machine Mem}
      → (b ≡ true → Succeeds P r)
      → Succeeds P (if b then r else (false, s))
  Succeeds-when true s k = k refl
  Succeeds-when false s k = declined

  pub Succeeds-weaken :
      {Q : Machine Mem → Type 0} {r : Bool × Machine Mem}
      → ((s : Machine Mem) → P s → Q s)
      → Succeeds P r
      → Succeeds Q r
  Succeeds-weaken w (succeeded {s} h) = succeeded (w s h)
  Succeeds-weaken w declined = declined

pub Succeeds-true :
    {Mem : Type 0} {P : Machine Mem → Type 0} {r : Bool × Machine Mem} {s : Machine Mem}
    → Succeeds P r
    → r ≡ (true, s)
    → P s
Succeeds-true {P} (succeeded h) e = subst P (cc e) h
Succeeds-true declined e = absurd (cc e)

abbrev pub shape_of : {Mem : Type 0} → Machine Mem → Shape
shape_of s = shape s.runtime.generic
