-- ===== src/Hybrid/Run.antt =====
-- src/gem/hybrid_runtime.c: `gem_hybrid_runtime_run`. The engines are an interface: a call of the
-- ARM64EC engine is a tree of its calls of the boundary broker that ends in a stop.
pub mod Loop
pub mod Entry
use metal_sharp_wine_runtime.Prelude.{
  ℕ, zero, suc, ◌+◌, ◌-◌, ◌%◌, ◌^◌, Bool, true, false, ◌&&◌, ◌||◌, not, Option, none, some, ◌==◌,
  ◌!=◌, ltb, if◌then◌else◌, get_or,
}
use metal_sharp_wine_runtime.Context.{
  ThreadContext, is_valid, isa_arm64ec, isa_x64, stop_invariant_violation,
}
use metal_sharp_wine_runtime.Target.{Status, Target}
use metal_sharp_wine_runtime.Hybrid.{
  Stage, idle, arm, x64, arm_callback, Frame, GenericState, zero_generic, Stats, zero_stats,
  RuntimeConfig, HybridRuntime, Machine, GuestOps, EngineStop, zero_stop, StopInfo, zero_stop_info,
  source_broker, source_arm64ec, source_x64, stop_none, stop_arch_transition, stop_host_return,
  stop_budget_expired,
}
use metal_sharp_wine_runtime.Hybrid.Resolve.{hybrid_resolve, x64_target, arm_target}
use metal_sharp_wine_runtime.Hybrid.Records.{replace_stack_record}
use metal_sharp_wine_runtime.Hybrid.Frames.{frame_at, generic_push_x64, generic_pop_x64}
use metal_sharp_wine_runtime.Hybrid.Frames.Callbacks.{
  with_generic, generic_enter_callback, generic_finish_callback,
}
use metal_sharp_wine_runtime.Hybrid.Boundary.{Action, BoundaryKind, generic_boundary, with_stats}

-- A call of `gem_arm64ec_runtime_run`: it ends with a reason and what
-- `gem_arm64ec_runtime_last_stop_info` tells, or asks the broker about an address and goes on by its
-- answer and the context that it leaves.
pub data ArmRun (Mem : Type 0) : Type 0 where
  arm_stopped : ℕ → Option EngineStop → ThreadContext → Mem → ArmRun Mem
  arm_asks :
      ℕ → ThreadContext → Mem → (Action × BoundaryKind → ThreadContext → ArmRun Mem) → ArmRun Mem

-- A call of `gem_x64_runtime_run` for one instruction, with what the engine tells of it.
pub record X64Run (Mem : Type 0) : Type 0 where
  pub reason : ℕ
  pub last_stop : Option EngineStop
  pub was_ret : Bool
  pub was_call : Bool
  pub context : ThreadContext
  pub memory : Mem

-- The engines, whose state is the number of the round, and whether another thread asks for a stop
-- before a round.
pub record Engines (Mem : Type 0) : Type 0 where
  -- `gem_arm64ec_runtime_set_boundary_return_pc`
  pub set_return_pc : ℕ → ℕ → Bool
  -- The return address and the budget.
  pub arm_run : ℕ → ℕ → ℕ → ThreadContext → Mem → ArmRun Mem
  pub x64_run : ℕ → ThreadContext → Mem → X64Run Mem
  pub stop_requested : ℕ → Bool

-- What a round of the loop ends with: the return of the run, or the machine and the budget left.
pub data Round (Mem : Type 0) : Type 0 where
  returns : ℕ → Machine Mem → Round Mem
  continues : Machine Mem → ℕ → Round Mem

-- `capture_arm_stop`: the information is that of the engine, with the broker's failure.
unfoldable pub arm_stop : ℕ → EngineStop → EngineStop
arm_stop boundary_failure info =
    if info.reason == stop_invariant_violation && info.engine_status == 3 && boundary_failure != 0
    then record info { engine_status = boundary_failure }
    else info

abbrev pub stop_of_arm : EngineStop → StopInfo
stop_of_arm info = record zero_stop_info {
  source = source_arm64ec;
  arm64ec = info;
  reason = info.reason;
}

abbrev pub stop_of_x64 : EngineStop → StopInfo
stop_of_x64 info = record zero_stop_info { source = source_x64; x64 = info; reason = info.reason }

module _ {Mem : Type 0} where
  abbrev pub with_stop : Machine Mem → StopInfo → Machine Mem
  with_stop s info = record s { runtime = record s.runtime { last_stop = info } }

  abbrev pub record_broker_stop : Machine Mem → ℕ → Machine Mem
  record_broker_stop s reason = with_stop s (record zero_stop_info { reason = reason })

  -- `generic_return`, with the statistics that it publishes in the runtime.
  unfoldable pub generic_return : Machine Mem → ℕ → Machine Mem
  generic_return s reason = record s {
    context = record s.context { stop_reason = reason };
    runtime = record s.runtime {
      running = false;
      stats = record s.runtime.stats { final_frame_depth = s.runtime.generic.depth };
    };
  }

  -- Runs the broker at each address that the engine asks about.
  unfoldable pub execute : Machine Mem → ArmRun Mem → (ℕ × Option EngineStop) × Machine Mem
  unfolding generic_boundary
  execute s (arm_stopped reason last_stop c m) =
      ((reason, last_stop), record s { context = c; memory = m })
  execute s (arm_asks pc c m next) =
      let (answer, s') = generic_boundary (record s { context = c; memory = m }) pc in
      execute s' (next answer s'.context)

  module _ (ops : GuestOps Mem) where
    abbrev pub memory_or : Mem → Option (ℕ × Mem) → Mem
    memory_or m none = m
    memory_or m (some (old, m')) = m'

    -- The memory after the record of a frame is put back; an error leaves it as it was.
    unfoldable pub restore_record : Mem → Frame → Mem
    unfolding replace_stack_record
    restore_record m f =
        if f.record_written
        then memory_or m (replace_stack_record ops m f.record_address f.old_record)
        else m

    -- `generic_restore_records`, whose answer is not used: from the top frame down.
    unfoldable pub restore_records : ℕ → GenericState → Mem → Mem
    unfolding restore_record
    restore_records zero g m = m
    restore_records (suc depth) g m = restore_records depth g (restore_record m (frame_at depth g))

    -- `generic_invariant_at`, with the line of the source that it reports.
    unfoldable pub generic_invariant : Machine Mem → ℕ → Machine Mem
    unfolding restore_records generic_return
    generic_invariant s source_line =
        let g = s.runtime.generic in
        let stop = record zero_stop_info {
          reason = stop_invariant_violation;
          arm64ec = record zero_stop { fault_address = s.context.pc; engine_status = source_line };
        } in
        generic_return
          (record {
            runtime = record s.runtime { generic = zero_generic; last_stop = stop };
            context = record s.context { transition_cookie = 0; isa = isa_arm64ec };
            memory = restore_records g.depth g s.memory;
          })
          stop_invariant_violation
