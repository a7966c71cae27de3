-- ===== src/Hybrid/Steps/Rounds.antt =====
-- src/gem/hybrid_runtime.c: what a round of `gem_hybrid_runtime_run` does to the shape.
pub mod X64
use metal_sharp_wine_runtime.Prelude.{
  ℕ, ◌+◌, ◌-◌, ◌%◌, ◌^◌, ◌≤◌, ◌<◌, ◌≡◌, ◌≢◌, ◌⊎◌, inl, inr, refl, sym, ap, ◌∙◌, Bool, true, false,
  ◌&&◌, ◌||◌, not, Option, none, some, ◌==◌, ◌!=◌, ltb, if◌then◌else◌, get_or, arith,
}
use metal_sharp_wine_runtime.Target.{Status, Target, is_x64_boundary}
use metal_sharp_wine_runtime.Target as TargetMap
use metal_sharp_wine_runtime.Hybrid.{
  Stage, idle, arm, x64, arm_callback, zero_generic, zero_stop_info, source_arm64ec, source_x64,
  Machine, GuestOps, EngineStop, stop_arch_transition, stop_host_return, stop_budget_expired,
  stop_async_request,
}
use metal_sharp_wine_runtime.Hybrid.Boundary.{runs_arm, with_stats}
use metal_sharp_wine_runtime.Hybrid.Frames.Callbacks.{with_generic}
use metal_sharp_wine_runtime.Hybrid.Nesting.{
  Shape, shape, Pushes, ArmMove, pushes, finishes, tail_pops, X64Move, stays, enters, pops,
}
use metal_sharp_wine_runtime.Hybrid.Run.{
  X64Run, Engines, Round, returns, continues, generic_return, generic_invariant, with_stop,
  stop_of_arm, stop_of_x64, arm_stop,
}
use metal_sharp_wine_runtime.Hybrid.Run.Loop.{
  violates, returning, proceed, native_return, clear_dispatch, direct_push, arm_transition,
  after_arm, x64_arrived, is_arm_kind, x64_retired, after_x64, arm_round, x64_round, stage_round,
  run_round,
}
use metal_sharp_wine_runtime.Hybrid.Steps.{Succeeds, succeeded, declined, Succeeds-weaken, shape_of}
use metal_sharp_wine_runtime.Hybrid.Steps.Push.{generic_push_x64-Pushes}
use metal_sharp_wine_runtime.Hybrid.Steps.Pop.{generic_pop_x64-Pops}
use metal_sharp_wine_runtime.Hybrid.Steps.Turn.{
  generic_enter_callback-Enters, Finishes, generic_finish_callback-Finishes,
}
use metal_sharp_wine_runtime.Hybrid.Steps.Broker.{shape-execute}
use mathlib.Core.Path.{subst}

-- The round of a machine with that shape returns with it or with the idle state, or goes on.
pub data RoundOf {Mem : Type 0} (sh : Shape) (Q : Shape → ℕ → Type 0) : Round Mem → Type 0 where
  ended :
      {reason : ℕ} {s : Machine Mem}
      → (shape_of s ≡ sh) ⊎ (shape_of s ≡ shape zero_generic)
      → RoundOf sh Q (returns reason s)
  went :
      {s : Machine Mem} {remaining : ℕ}
      → Q (shape_of s) remaining
      → RoundOf sh Q (continues s remaining)

module _ {Mem : Type 0} (ops : GuestOps Mem) (sh : Shape) (Q : Shape → ℕ → Type 0) where
  pub RoundOf-if :
      (b : Bool) {r r' : Round Mem}
      → RoundOf sh Q r
      → (b ≡ false → RoundOf sh Q r')
      → RoundOf sh Q (if b then r else r')
  RoundOf-if true h k = h
  RoundOf-if false h k = k refl

  pub violates-RoundOf : (s : Machine Mem) (line : ℕ) → RoundOf sh Q (violates ops s line)
  unfolding generic_invariant generic_return
  violates-RoundOf s line = ended (inr refl)

  pub proceed-RoundOf :
      (remaining line : ℕ) (r : Bool × Machine Mem)
      → Succeeds (λ s'. Q (shape_of s') remaining) r
      → RoundOf sh Q (proceed ops remaining line r)
  proceed-RoundOf remaining line (true, s) (succeeded h) = went h
  proceed-RoundOf remaining line (false, s) h = violates-RoundOf s line

  pub returning-RoundOf :
      (s : Machine Mem) (reason : ℕ) → shape_of s ≡ sh → RoundOf sh Q (returning ops s reason)
  unfolding generic_return
  returning-RoundOf s reason e = ended (inl e)

-- What a round of ARM64EC code does, and one of x64 code.
unfoldable pub ArmRound : Shape → ℕ → Shape → ℕ → Type 0
ArmRound sh remaining sh' remaining' = ArmMove sh sh' × (remaining' ≤ remaining)

unfoldable pub X64Round : Shape → ℕ → Shape → ℕ → Type 0
X64Round sh remaining sh' remaining' = X64Move sh sh' × (remaining' < remaining)

module _ {Mem : Type 0} (ops : GuestOps Mem) (s : Machine Mem) (total : ℕ) where
  abbrev ArmOf : Round Mem → Type 0
  ArmOf = RoundOf (shape_of s) (ArmRound (shape_of s) total)

  native_return-ArmOf : ArmOf (native_return ops s)
  unfolding native_return generic_return
  native_return-ArmOf =
      RoundOf-if ops (shape_of s) _
        (s.runtime.generic.depth != 0 || s.context.pc != s.runtime.generic.native_return_pc)
        (violates-RoundOf ops _ _ s 879) λ _. ended (inr refl)

  arm_moved :
      {r : Bool × Machine Mem} (remaining : ℕ)
      → remaining ≤ total
      → Succeeds (λ s'. ArmMove (shape_of s) (shape_of s')) r
      → Succeeds (λ s'. ArmRound (shape_of s) total (shape_of s') remaining) r
  unfolding ArmRound
  arm_moved remaining le h = Succeeds-weaken (λ s' m. (m, le)) h

  push-ArmMove :
      {r : Bool × Machine Mem}
      → Succeeds (λ s'. Pushes (shape_of s) (shape_of s')) r
      → Succeeds (λ s'. ArmMove (shape_of s) (shape_of s')) r
  push-ArmMove h = Succeeds-weaken (λ s' p. pushes p) h

  direct_push-ArmOf :
      (remaining : ℕ) (o : Option Target)
      → remaining ≤ total
      → ArmOf (direct_push ops s remaining o)
  unfolding direct_push
  direct_push-ArmOf remaining none le = violates-RoundOf ops _ _ s 907
  direct_push-ArmOf remaining (some t) le =
      proceed-RoundOf ops _ _ remaining 907 _
        (arm_moved remaining le (push-ArmMove (generic_push_x64-Pushes ops s _ _ _)))

  finish-ArmMove :
      {r : Bool × Machine Mem}
      → Succeeds (Finishes ops s) r
      → Succeeds (λ s'. ArmMove (shape_of s) (shape_of s')) r
  finish-ArmMove h = Succeeds-weaken (λ s' f. elim f [ inl t ↦ finishes t | inr p ↦ tail_pops p ]) h

  arm_transition-ArmOf :
      (remaining : ℕ) → remaining ≤ total → ArmOf (arm_transition ops s remaining)
  unfolding arm_transition
  arm_transition-ArmOf remaining le =
      let g = s.runtime.generic in
      RoundOf-if ops _ _ g.pending_native_return native_return-ArmOf λ _.
        RoundOf-if ops _ _ g.pending_callback_return
          (proceed-RoundOf ops _ _ remaining 888 _
            (arm_moved remaining le (finish-ArmMove (generic_finish_callback-Finishes ops s))))
          λ _.
            RoundOf-if ops _ _ g.pending_dispatch
              (proceed-RoundOf ops _ _ remaining 900 _ (
                arm_moved remaining le (
                  push-ArmMove
                    (generic_push_x64-Pushes ops (with_generic s (clear_dispatch ops g)) _ _ _))))
              λ _. direct_push-ArmOf remaining _ le

module _ {Mem : Type 0} (ops : GuestOps Mem) (sh : Shape) (total : ℕ) where
  -- The machine after the engine has the shape of the one before.
  pub after_arm-ArmOf :
      (r : (ℕ × Option EngineStop) × Machine Mem)
      → shape_of r.1 ≡ sh
      → RoundOf sh (ArmRound sh total) (after_arm ops total r)
  unfolding after_arm
  after_arm-ArmOf ((reason, none), s) e =
      violates-RoundOf ops _ _ (with_stop s (record zero_stop_info { source = source_arm64ec })) 866
  after_arm-ArmOf ((reason, some info), s) e =
      let stop = arm_stop s.runtime.generic.boundary_failure info in
      let retired = stop.instructions_retired in
      let stopped = with_stop s (stop_of_arm stop) in
      let stats = s.runtime.stats in
      let counted = with_stats stopped (record stats {
        arm64ec_instructions_retired = (stats.arm64ec_instructions_retired + retired) % 2 ^ 64;
      }) in
      RoundOf-if ops _ _ (ltb total retired) (violates-RoundOf ops _ _ stopped 866) λ _.
        RoundOf-if ops _ _ (stop.reason != reason) (violates-RoundOf ops _ _ counted 866) λ _.
          RoundOf-if ops _ _ (reason != stop_arch_transition)
            (returning-RoundOf ops _ _ counted reason e)
            λ _.
              subst
                (λ z. RoundOf z (ArmRound z total) (arm_transition ops counted (total - retired))) e
                (arm_transition-ArmOf ops counted total (total - retired) (omega arith))
