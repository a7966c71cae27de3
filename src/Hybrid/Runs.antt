-- ===== src/Hybrid/Runs.antt =====
-- src/gem/hybrid_runtime.c: `gem_hybrid_runtime_run` as a whole: its rounds come to an end, and it
-- leaves the coordinator nested as it found it able to go on.
pub mod Ends
pub mod Nesting
use metal_sharp_wine_runtime.Prelude.{
  ℕ, zero, suc, ◌+◌, ◌-◌, ◌*◌, ◌≤◌, ◌<◌, ◌≡◌, ◌≢◌, ◌⊎◌, inl, inr, refl, sym, ap, ◌∙◌, Bool, true,
  false, ◌&&◌, ◌||◌, not, Option, none, some, ◌==◌, ◌!=◌, ltb, if◌then◌else◌, arith, Bool-cases,
}
use metal_sharp_wine_runtime.Context.{is_valid}
use metal_sharp_wine_runtime.Target.{Status, Target}
use metal_sharp_wine_runtime.Hybrid.{
  Stage, idle, arm, x64, arm_callback, zero_generic, Machine, GuestOps, stop_async_request,
  stop_budget_expired, stop_none,
}
use metal_sharp_wine_runtime.Hybrid.Boundary.{is_arm, runs_arm}
use metal_sharp_wine_runtime.Hybrid.Nesting.{Shape, shape}
use metal_sharp_wine_runtime.Hybrid.Nesting.Invariant.{
  Nested, inactive, at_arm, ArmMove-Nested, X64Move-Nested,
}
use metal_sharp_wine_runtime.Hybrid.Nesting.Weight.{
  weight, ArmMove-weight, X64Move-depth, weight_bounded,
}
use metal_sharp_wine_runtime.Hybrid.Run.{
  Engines, Round, returns, continues, execute, generic_return, record_broker_stop,
}
use metal_sharp_wine_runtime.Hybrid.Run.Loop.{
  clear_request, arm_round, x64_round, stage_round, run_round, run_loop,
}
use metal_sharp_wine_runtime.Hybrid.Steps.{shape_of}
use metal_sharp_wine_runtime.Hybrid.Steps.Broker.{shape-execute}
use metal_sharp_wine_runtime.Hybrid.Steps.Rounds.{
  RoundOf, ended, went, RoundOf-if, violates-RoundOf, returning-RoundOf, ArmRound, X64Round,
  after_arm-ArmOf,
}
use metal_sharp_wine_runtime.Hybrid.Steps.Rounds.X64.{after_x64-X64Of}
use mathlib.Core.Path.{subst}

-- What a round that goes on does.
unfoldable pub Advances : Shape → ℕ → Shape → ℕ → Type 0
Advances sh remaining sh' remaining' =
    ((runs_arm sh.stage ≡ true) × ArmRound sh remaining sh' remaining')
    ⊎ X64Round sh remaining sh' remaining'

RoundOf-weaken :
    {Mem : Type 0} {sh : Shape} {P Q : Shape → ℕ → Type 0} {r : Round Mem}
    → ((sh' : Shape) (n : ℕ) → P sh' n → Q sh' n)
    → RoundOf sh P r
    → RoundOf sh Q r
RoundOf-weaken w (ended e) = ended e
RoundOf-weaken w (went h) = went (w _ _ h)

module _ {Mem : Type 0} (ops : GuestOps Mem) (engines : Engines Mem) (i : ℕ) (s : Machine Mem)
    (total : ℕ) where
  arm_round-ArmOf :
      RoundOf (shape_of s) (ArmRound (shape_of s) total) (arm_round ops engines i s total)
  unfolding arm_round
  arm_round-ArmOf =
      let svc_trap = s.runtime.config.svc_trap in
      let g = s.runtime.generic in
      let arm_budget = if svc_trap then total else if ltb total 4096 then total else 4096 in
      let return_pc = if is_arm g.stage && g.depth == 0 then g.native_return_pc else 0 in
      RoundOf-if ops _ _ (svc_trap && not (engines.set_return_pc i return_pc))
        (violates-RoundOf ops _ _ s 863)
        λ _.
          after_arm-ArmOf ops (shape_of s) total _
            (shape-execute s (engines.arm_run i return_pc arm_budget s.context s.memory))

  stage_round-Advances :
      (stage : Stage)
      → s.runtime.generic.stage ≡ stage
      → total ≢ 0
      → RoundOf (shape_of s) (Advances (shape_of s) total) (stage_round ops engines i s total stage)
  unfolding stage_round x64_round Advances
  stage_round-Advances idle e pos = violates-RoundOf ops _ _ s 946
  stage_round-Advances arm e pos =
      RoundOf-weaken (λ sh' n h. inl (ap runs_arm e, h)) arm_round-ArmOf
  stage_round-Advances arm_callback e pos =
      RoundOf-weaken (λ sh' n h. inl (ap runs_arm e, h)) arm_round-ArmOf
  stage_round-Advances x64 e pos =
      RoundOf-weaken (λ sh' n h. inr h)
        (let run = engines.x64_run i s.context s.memory in
          after_x64-X64Of ops s total run run.last_stop pos)

shape_of_either :
    {Mem : Type 0} {sh : Shape} (b : Bool) (s s' : Machine Mem)
    → shape_of s ≡ sh
    → shape_of s' ≡ sh
    → shape_of (if b then s else s') ≡ sh
shape_of_either true s s' e e' = e
shape_of_either false s s' e e' = e'

pub run_round-Advances :
    {Mem : Type 0} (ops : GuestOps Mem) (engines : Engines Mem) (i : ℕ) (s : Machine Mem)
    (total : ℕ)
    → RoundOf (shape_of s) (Advances (shape_of s) total) (run_round ops engines i s total)
unfolding run_round
run_round-Advances ops engines i s total =
    let taken = clear_request ops engines s in
    RoundOf-if ops _ _ (s.runtime.async_stop_requested || engines.stop_requested i)
      (returning-RoundOf ops _ _ (record_broker_stop taken stop_async_request) stop_async_request
        refl)
      λ _.
        RoundOf-if ops _ _ (total == 0)
          (returning-RoundOf ops _ _
            (if s.runtime.last_stop.reason != stop_budget_expired
              then record_broker_stop taken stop_budget_expired
              else taken)
            stop_budget_expired
            (shape_of_either (s.runtime.last_stop.reason != stop_budget_expired)
              (record_broker_stop taken stop_budget_expired) taken refl refl))
          λ h.
            stage_round-Advances ops engines i taken total s.runtime.generic.stage refl
              (ground arith)
