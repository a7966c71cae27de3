-- ===== src/Hybrid/Nesting.antt =====
-- src/gem/hybrid_runtime.c: the coordinator's nesting as an automaton. A shape is what the fields
-- `stage`, `depth` and `frames` hold; the moves are those of the operations on frames.
pub mod Invariant
pub mod Weight
use metal_sharp_wine_runtime.Prelude.{
  ℕ, zero, suc, ◌+◌, ◌-◌, ◌*◌, ◌≤◌, ◌<◌, ◌≡◌, ◌≢◌, refl, sym, ap, ◌∙◌, Bool, true, false, ◌==◌,
  if◌then◌else◌, arith,
}
use metal_sharp_wine_runtime.Hybrid.{
  Stage, idle, arm, x64, arm_callback, Frame, zero_frame, GenericState, zero_generic,
}
use metal_sharp_wine_runtime.Hybrid.Frames.{set_frame, frame_at, has_callback, is_arm_callback}

pub record Shape : Type 0 where
  pub stage : Stage
  pub depth : ℕ
  pub outer : Frame
  pub inner : Frame

abbrev pub shape : GenericState → Shape
shape g = record { stage = g.stage; depth = g.depth; outer = g.outer; inner = g.inner }

abbrev pub frame_of : ℕ → Shape → Frame
frame_of i sh = if i == 0 then sh.outer else sh.inner

abbrev pub put_frame : ℕ → Frame → Shape → Shape
put_frame i f sh = if i == 0 then record sh { outer = f } else record sh { inner = f }

shape_of_choice :
    (b : Bool) (f : Frame) (g : GenericState)
    → shape (if b then record g { outer = f } else record g { inner = f })
      ≡ (if b then record (shape g) { outer = f } else record (shape g) { inner = f })
shape_of_choice true f g = refl
shape_of_choice false f g = refl

pub shape-set_frame :
    (i : ℕ) (f : Frame) (g : GenericState) → shape (set_frame i f g) ≡ put_frame i f (shape g)
shape-set_frame i f g = shape_of_choice (i == 0) f g

pub frame_of-shape : (i : ℕ) (g : GenericState) → frame_of i (shape g) ≡ frame_at i g
frame_of-shape i g = refl

-- A frame that is pushed from a stage.
pub record IsNew (stage : Stage) (f : Frame) : Type 0 where
  pub written : f.record_written ≡ true
  pub resumes : f.resume_arm_callback ≡ is_arm_callback stage
  pub plain : has_callback f.callback ≡ false

-- A frame after a change that leaves what its pop needs.
pub record Keeps (f f' : Frame) : Type 0 where
  pub written : f'.record_written ≡ f.record_written
  pub resumes : f'.resume_arm_callback ≡ f.resume_arm_callback

pub data Pushes (sh sh' : Shape) : Type 0 where
  from_arm :
      (f : Frame)
      → sh.depth < 2
      → is_arm_callback sh.stage ≡ false
      → IsNew sh.stage f
      → sh' ≡ record (put_frame sh.depth f sh) { stage = x64; depth = sh.depth + 1 }
      → Pushes sh sh'
  from_callback :
      (f parent : Frame)
      → sh.depth < 2
      → sh.depth ≢ 0
      → is_arm_callback sh.stage ≡ true
      → IsNew sh.stage f
      → has_callback parent.callback ≡ true
      → Keeps (frame_of (sh.depth - 1) sh) parent
      → sh' ≡ record (put_frame sh.depth f (put_frame (sh.depth - 1) parent sh)) {
        stage = x64;
        depth = sh.depth + 1;
      }
      → Pushes sh sh'

abbrev pub stage_below : Frame → Stage
stage_below f = if f.resume_arm_callback then arm_callback else arm

pub record Pops (sh sh' : Shape) : Type 0 where
  pub nonempty : sh.depth ≢ 0
  pub dropped : sh' ≡ record (put_frame (sh.depth - 1) zero_frame sh) {
    stage = stage_below (frame_of (sh.depth - 1) sh);
    depth = sh.depth - 1;
  }

-- The current frame is changed, and the stage is the one that is named.
pub record Turns (stage : Stage) (calls : Bool) (sh sh' : Shape) : Type 0 where
  pub current : Frame
  pub nonempty : sh.depth ≢ 0
  pub keeps : Keeps (frame_of (sh.depth - 1) sh) current
  pub callback : has_callback current.callback ≡ calls
  pub turned : sh' ≡ record (put_frame (sh.depth - 1) current sh) { stage = stage }

-- The moves of a round that runs ARM64EC code, and of one that runs x64 code.
pub data ArmMove (sh sh' : Shape) : Type 0 where
  pushes : Pushes sh sh' → ArmMove sh sh'
  finishes : Turns x64 false sh sh' → ArmMove sh sh'
  tail_pops : Pops sh sh' → ArmMove sh sh'

pub data X64Move (sh sh' : Shape) : Type 0 where
  stays : sh' ≡ sh → X64Move sh sh'
  enters : Turns arm_callback true sh sh' → X64Move sh sh'
  pops : Pops sh sh' → X64Move sh sh'
