-- ===== src/Hybrid/Run/Loop.antt =====
-- src/gem/hybrid_runtime.c: the loop of `gem_hybrid_runtime_run`, round by round.
use metal_sharp_wine_runtime.Prelude.{
  ℕ, zero, suc, ◌+◌, ◌-◌, ◌%◌, ◌^◌, Bool, true, false, ◌&&◌, ◌||◌, not, Option, none, some, ◌==◌,
  ◌!=◌, ltb, if◌then◌else◌, get_or,
}
use metal_sharp_wine_runtime.Context.{isa_arm64ec, stop_invariant_violation}
use metal_sharp_wine_runtime.Target.{Status, Target, Kind, arm64, arm64ec, is_x64_boundary}
use metal_sharp_wine_runtime.Target as TargetMap
use metal_sharp_wine_runtime.Hybrid.{
  Stage, idle, arm, x64, arm_callback, GenericState, zero_generic, Machine, GuestOps, EngineStop,
  zero_stop_info, source_arm64ec, source_x64, stop_none, stop_arch_transition, stop_host_return,
  stop_async_request, stop_budget_expired,
}
use metal_sharp_wine_runtime.Hybrid.Resolve.{hybrid_resolve, x64_target}
use metal_sharp_wine_runtime.Hybrid.Frames.{generic_push_x64, generic_pop_x64}
use metal_sharp_wine_runtime.Hybrid.Frames.Callbacks.{
  with_generic, generic_enter_callback, generic_finish_callback,
}
use metal_sharp_wine_runtime.Hybrid.Boundary.{is_arm, with_stats}
use metal_sharp_wine_runtime.Hybrid.Run.{
  X64Run, Engines, Round, returns, continues, with_stop, record_broker_stop, generic_return,
  execute, arm_stop, stop_of_arm, stop_of_x64, generic_invariant,
}

abbrev pub is_arm_kind : Kind → Bool
is_arm_kind arm64 = true
is_arm_kind arm64ec = true
is_arm_kind k = false

module _ {Mem : Type 0} (ops : GuestOps Mem) where
  abbrev pub violates : Machine Mem → ℕ → Round Mem
  violates s line = returns stop_invariant_violation (generic_invariant ops s line)

  abbrev pub returning : Machine Mem → ℕ → Round Mem
  returning s reason = returns reason (generic_return s reason)

  -- `if (!call(...)) return generic_invariant(...); continue;`
  abbrev pub proceed : ℕ → ℕ → Bool × Machine Mem → Round Mem
  proceed remaining line (true, s) = continues s remaining
  proceed remaining line (false, s) = violates s line

  -- The ARM64EC engine stopped at its host return.
  unfoldable pub native_return : Machine Mem → Round Mem
  unfolding generic_return generic_invariant
  native_return s =
      if s.runtime.generic.depth != 0 || s.context.pc != s.runtime.generic.native_return_pc
      then violates s 879
      else returning
          (record_broker_stop
            (record (with_generic s zero_generic) {
              context = record s.context { transition_cookie = 0; isa = isa_arm64ec };
            })
            stop_arch_transition)
          stop_arch_transition

  abbrev pub clear_dispatch : GenericState → GenericState
  clear_dispatch g = record g {
    pending_dispatch = false;
    pending_x64_target = 0;
    pending_arm_resume_pc = 0;
    pending_arm_resume_sp = 0;
  }

  -- A stop at an x64 address that no helper dispatched.
  unfoldable pub direct_push : Machine Mem → ℕ → Option Target → Round Mem
  unfolding generic_push_x64 generic_invariant
  direct_push s remaining none = violates s 907
  direct_push s remaining (some target) =
      proceed remaining 907
        (generic_push_x64 ops s target.resolved_va (get_or s.context.x 30 0) s.context.sp)

  -- The ARM64EC engine stopped at a transition.
  unfoldable pub arm_transition : Machine Mem → ℕ → Round Mem
  unfolding native_return generic_finish_callback generic_push_x64 direct_push hybrid_resolve
      x64_target
  arm_transition s remaining =
      let g = s.runtime.generic in
      if g.pending_native_return
      then native_return s
      else if g.pending_callback_return
      then proceed remaining 888 (generic_finish_callback ops s)
      else if g.pending_dispatch
      then proceed remaining 900 (
          generic_push_x64 ops (with_generic s (clear_dispatch g)) g.pending_x64_target
            g.pending_arm_resume_pc g.pending_arm_resume_sp)
      else direct_push s remaining (x64_target (hybrid_resolve s.runtime s.context.pc))

  -- After the ARM64EC engine: `consume_arm_budget`, and the reason of the stop.
  unfoldable pub after_arm : ℕ → (ℕ × Option EngineStop) × Machine Mem → Round Mem
  unfolding arm_stop arm_transition generic_return generic_invariant
  after_arm remaining ((reason, none), s) =
      violates (with_stop s (record zero_stop_info { source = source_arm64ec })) 866
  after_arm remaining ((reason, some info), s) =
      let stop = arm_stop s.runtime.generic.boundary_failure info in
      let retired = stop.instructions_retired in
      let stopped = with_stop s (stop_of_arm stop) in
      let stats = s.runtime.stats in
      let counted = with_stats stopped (record stats {
        arm64ec_instructions_retired = (stats.arm64ec_instructions_retired + retired) % 2 ^ 64;
      }) in
      if ltb remaining retired
      then violates stopped 866
      else if stop.reason != reason
      then violates counted 866
      else if reason != stop_arch_transition
      then returning counted reason
      else arm_transition counted (remaining - retired)

  -- After the instruction retired at an address that is no sentinel, by what is there.
  unfoldable pub x64_arrived : Machine Mem → ℕ → ℕ → Bool → ℕ → Status × Option Target → Round Mem
  unfolding generic_enter_callback generic_invariant
  x64_arrived s remaining pre_step_sp was_call reason (TargetMap.ok, some target) =
      if reason != stop_budget_expired
      then violates s 932
      else if is_x64_boundary target.kind
      then (if target.resolved_va != s.context.pc
          then violates s 935
          else continues (record s { context = record s.context { stop_reason = stop_none } })
              remaining)
      else if not (is_arm_kind target.kind)
      then violates s 943
      else proceed remaining 943 (generic_enter_callback ops s target pre_step_sp was_call)
  x64_arrived s remaining pre_step_sp was_call reason _ = violates s 932

  -- One instruction retired.
  unfoldable pub x64_retired : Machine Mem → ℕ → ℕ → X64Run Mem → Round Mem
  unfolding x64_arrived generic_pop_x64 hybrid_resolve generic_invariant
  x64_retired s remaining pre_step_sp run =
      if s.context.pc == s.runtime.config.x64_return_sentinel
      then (if run.reason != stop_host_return || not run.was_ret
          then violates s 927
          else proceed remaining 927 (generic_pop_x64 ops s))
      else x64_arrived s remaining pre_step_sp run.was_call run.reason
          (hybrid_resolve s.runtime s.context.pc)

  -- After the x64 engine.
  unfoldable pub after_x64 : Machine Mem → ℕ → X64Run Mem → Option EngineStop → Round Mem
  unfolding x64_retired generic_return generic_invariant
  after_x64 s remaining run none =
      violates
        (with_stop (record s { context = run.context; memory = run.memory })
          (record zero_stop_info { source = source_x64 }))
        916
  after_x64 s remaining run (some info) =
      let ran = record s { context = run.context; memory = run.memory } in
      let stopped = with_stop ran (stop_of_x64 info) in
      let retired = info.instructions_retired in
      let stats = s.runtime.stats in
      let counted = with_stats stopped (record stats {
        x64_instructions_retired = (stats.x64_instructions_retired + retired) % 2 ^ 64;
      }) in
      if info.reason != run.reason || ltb remaining retired
      then violates stopped 916
      else if run.reason != stop_budget_expired && run.reason != stop_host_return
      then returning counted run.reason
      else if retired != 1
      then violates counted 922
      else x64_retired counted (remaining - retired) s.context.sp run

  module _ (engines : Engines Mem) where
    -- The round at a stage that runs ARM64EC code.
    unfoldable pub arm_round : ℕ → Machine Mem → ℕ → Round Mem
    unfolding execute after_arm generic_invariant
    arm_round i s remaining =
        let svc_trap = s.runtime.config.svc_trap in
        let g = s.runtime.generic in
        let arm_budget =
          if svc_trap then remaining else if ltb remaining 4096 then remaining else 4096 in
        let return_pc = if is_arm g.stage && g.depth == 0 then g.native_return_pc else 0 in
        if svc_trap && not (engines.set_return_pc i return_pc)
        then violates s 863
        else after_arm remaining
            (execute s (engines.arm_run i return_pc arm_budget s.context s.memory))

    unfoldable pub x64_round : ℕ → Machine Mem → ℕ → Round Mem
    unfolding after_x64
    x64_round i s remaining =
        let run = engines.x64_run i s.context s.memory in after_x64 s remaining run run.last_stop

    unfoldable pub stage_round : ℕ → Machine Mem → ℕ → Stage → Round Mem
    unfolding arm_round x64_round generic_invariant
    stage_round i s remaining arm = arm_round i s remaining
    stage_round i s remaining arm_callback = arm_round i s remaining
    stage_round i s remaining x64 = x64_round i s remaining
    stage_round i s remaining idle = violates s 946

    abbrev pub clear_request : Machine Mem → Machine Mem
    clear_request s = record s { runtime = record s.runtime { async_stop_requested = false } }

    -- The round with number `i`.
    unfoldable pub run_round : ℕ → Machine Mem → ℕ → Round Mem
    unfolding stage_round generic_return
    run_round i s remaining =
        let taken = clear_request s in
        if s.runtime.async_stop_requested || engines.stop_requested i
        then returning (record_broker_stop taken stop_async_request) stop_async_request
        else if remaining == 0
        then returning
            (if s.runtime.last_stop.reason != stop_budget_expired
              then record_broker_stop taken stop_budget_expired
              else taken)
            stop_budget_expired
        else stage_round i taken remaining s.runtime.generic.stage

    -- The loop with fuel; `none` means that the fuel ran out.
    unfoldable pub run_loop : ℕ → ℕ → Machine Mem → ℕ → Option (ℕ × Machine Mem)
    unfolding run_round
    run_loop zero i s remaining = none
    run_loop (suc fuel) i s remaining = elim (run_round i s remaining) [
      | returns reason s' ↦ some (reason, s')
      | continues s' remaining' ↦ run_loop fuel (i + 1) s' remaining'
    ]
