-- ===== src/Hybrid/Run/Entry.antt =====
-- src/gem/hybrid_runtime.c: how `gem_hybrid_runtime_run` begins.
use metal_sharp_wine_runtime.Prelude.{
  ℕ, ◌-◌, Bool, true, false, ◌&&◌, ◌||◌, not, Option, none, some, ◌==◌, ◌!=◌, ltb, if◌then◌else◌,
  get_or,
}
use metal_sharp_wine_runtime.Context.{is_valid, isa_arm64ec, isa_x64, stop_invariant_violation}
use metal_sharp_wine_runtime.Target.{Target}
use metal_sharp_wine_runtime.Hybrid.{
  Stage, idle, arm, x64, arm_callback, zero_generic, zero_stats, Machine, GuestOps, zero_stop_info,
  stop_none,
}
use metal_sharp_wine_runtime.Hybrid.Resolve.{hybrid_resolve, arm_target}
use metal_sharp_wine_runtime.Hybrid.Frames.{frame_at}
use metal_sharp_wine_runtime.Hybrid.Frames.Callbacks.{with_generic}
use metal_sharp_wine_runtime.Hybrid.Run.{Engines, record_broker_stop}
use metal_sharp_wine_runtime.Hybrid.Run.Loop.{run_loop}

module _ {Mem : Type 0} (ops : GuestOps Mem) where
  module _ (engines : Engines Mem) where
    -- `generic_begin`, after the target is resolved.
    unfoldable pub begun : Machine Mem → Option Target → Option (Machine Mem)
    begun s none = none
    begun s (some target) =
        let config = s.runtime.config in
        some
          (record (with_generic s (record zero_generic {
            active = true;
            stage = arm;
            native_return_pc =
                if config.svc_trap then config.host_return_sentinel else get_or s.context.x 30 0;
          })) { context = record s.context { pc = target.resolved_va } })

    unfoldable pub generic_begin : Machine Mem → Option (Machine Mem)
    unfolding begun hybrid_resolve arm_target
    generic_begin s =
        let c = s.context in
        if c.isa != isa_arm64ec
          || c.transition_cookie != 0
          || get_or c.x 18 0 != c.teb
          || get_or c.x 30 0 == 0
        then none
        else begun s (arm_target (hybrid_resolve s.runtime c.pc))

    abbrev pub isa_of : Stage → Option ℕ
    isa_of x64 = some isa_x64
    isa_of arm = some isa_arm64ec
    isa_of arm_callback = some isa_arm64ec
    isa_of idle = none

    abbrev pub is_isa : Option ℕ → ℕ → Bool
    is_isa none isa = false
    is_isa (some expected) isa = isa == expected

    unfoldable pub generic_context_valid : Machine Mem → Bool
    unfolding is_valid
    generic_context_valid s =
        let c = s.context in
        let g = s.runtime.generic in
        let expected_cookie = if g.depth == 0 then 0 else (frame_at (g.depth - 1) g).cookie in
        is_valid (some c)
        && get_or c.x 18 0 == c.teb
        && not (ltb 2 g.depth)
        && is_isa (isa_of g.stage) c.isa
        && c.transition_cookie == expected_cookie

    -- `fail`, with the record of the broker's stop.
    abbrev pub run_refused : Machine Mem → Option (ℕ × Machine Mem)
    run_refused s = some (
      stop_invariant_violation,
      record_broker_stop
          (record s { context = record s.context { stop_reason = stop_invariant_violation } })
          stop_invariant_violation,
    )

    abbrev pub started : Machine Mem → Machine Mem
    started s = record s {
      runtime = record s.runtime {
        stats = record zero_stats { maximum_frame_depth = s.runtime.generic.depth };
        last_stop = zero_stop_info;
        running = true;
      };
    }

    -- After the coordinator has begun, or was active before.
    unfoldable pub run_active :
        ℕ → Machine Mem → ℕ → Option (Machine Mem) → Option (ℕ × Machine Mem)
    unfolding generic_context_valid run_loop
    run_active fuel s budget none = run_refused s
    run_active fuel s budget (some ready) =
        if not (generic_context_valid ready)
        then run_refused ready
        else run_loop ops engines fuel 0 (started ready) budget

    -- The reason and the machine at the return, whose runtime holds the statistics.
    unfoldable pub hybrid_run : ℕ → Machine Mem → ℕ → Option (ℕ × Machine Mem)
    unfolding is_valid generic_begin run_active
    hybrid_run fuel s budget =
        if s.runtime.running
          || not (is_valid (some s.context))
          || budget == 0
          || ltb s.runtime.config.max_budget budget
          || s.context.stop_reason != stop_none
        then run_refused s
        else run_active fuel s budget (if s.runtime.generic.active then some s else generic_begin s)
