-- ===== src/Hybrid/Boundary.antt =====
-- src/gem/hybrid_runtime.c: `generic_boundary`, which the ARM64EC engine calls at a helper address.
use metal_sharp_wine_runtime.Prelude.{
  ℕ, ◌^◌, Bool, true, false, ◌&&◌, ◌||◌, not, Option, none, some, ◌==◌, ◌!=◌, leb, if◌then◌else◌,
  get_or, bit_or, or_if,
}
use metal_sharp_wine_runtime.Context.{ThreadContext}
use metal_sharp_wine_runtime.Target.{Status, Target}
use metal_sharp_wine_runtime.Target as TargetMap
use metal_sharp_wine_runtime.Hybrid.{
  Stage, arm, arm_callback, Frame, GenericState, Stats, increment, Machine,
}
use metal_sharp_wine_runtime.Hybrid.Resolve.{hybrid_resolve, hybrid_checker_dispatch, x64_target}
use metal_sharp_wine_runtime.Hybrid.Frames.{generic_current_frame, has_callback, is_arm_callback}
use metal_sharp_wine_runtime.Hybrid.Frames.Callbacks.{with_generic}

-- `enum gem_arm64ec_boundary_action`
pub data Action : Type 0 where
  not_handled resume stop fail : Action

-- `enum gem_arm64ec_boundary_kind`; `unset` is what the engine had there.
pub data BoundaryKind : Type 0 where
  unset check_icall check_icall_cfg dispatch_call dispatch_return : BoundaryKind

abbrev pub runs_arm : Stage → Bool
runs_arm arm = true
runs_arm arm_callback = true
runs_arm s = false

abbrev pub is_arm : Stage → Bool
is_arm arm = true
is_arm s = false

-- `frame != NULL && test`
abbrev pub frame_test : Option Frame → (Frame → Bool) → Bool
frame_test none test = false
frame_test (some f) test = test f

abbrev pub is_null : Option Frame → Bool
is_null none = true
is_null (some f) = false

-- The bits of `failure` at a return helper.
unfoldable pub return_failure : GenericState → ThreadContext → Option Frame → ℕ
return_failure g c frame =
    or_if (frame_test frame (λ f. c.original_x64_sp != f.callback_pre_call_sp)) (2 ^ 7) (
      or_if (frame_test frame (λ f. c.sp != f.callback_arm_entry_sp)) (2 ^ 6) (
        or_if (frame_test frame (λ f. get_or c.x 30 0 != f.callback_resume_pc)) (2 ^ 5) (
          or_if (frame_test frame (λ f. c.transition_cookie != f.cookie)) (2 ^ 4) (
            or_if g.pending_callback_return (2 ^ 3) (
              or_if (frame_test frame (λ f. not (has_callback f.callback))) (2 ^ 2) (
                or_if (is_null frame) (2 ^ 1)
                  (or_if (not (is_arm_callback g.stage)) (2 ^ 0) 0)))))))

module _ {Mem : Type 0} where
  abbrev pub with_failure : Machine Mem → ℕ → Machine Mem
  with_failure s failure = with_generic s (record s.runtime.generic { boundary_failure = failure })

  abbrev pub with_stats : Machine Mem → Stats → Machine Mem
  with_stats s stats = record s { runtime = record s.runtime { stats = stats } }

  -- At the checker helper, after the dispatch. It may have changed the context only if it succeeded.
  unfoldable pub icall_checked :
      Machine Mem → Status × ThreadContext × Option Target → (Action × BoundaryKind) × Machine Mem
  icall_checked s (TargetMap.ok, c, target) =
      let stats = s.runtime.stats in
      (
        (resume, check_icall),
        record (with_stats s
            (record stats { checker_boundaries = increment stats.checker_boundaries })) {
              context = record c { pc = get_or c.x 30 0 };
            },
      )
  icall_checked s (e, c, target) = ((fail, check_icall), record s { context = c })

  -- At a helper that dispatches a call, after the target is resolved.
  unfoldable pub dispatched : Machine Mem → Option Target → (Action × BoundaryKind) × Machine Mem
  dispatched s none = ((fail, dispatch_call), s)
  dispatched s (some target) =
      let g = s.runtime.generic in
      let stats = s.runtime.stats in
      (
        (stop, dispatch_call),
        with_stats
            (with_generic s (record g {
              pending_x64_target = target.resolved_va;
              pending_arm_resume_pc = get_or s.context.x 30 0;
              pending_arm_resume_sp = s.context.sp;
              pending_dispatch = true;
            }))
            (record stats { dispatch_call_boundaries = increment stats.dispatch_call_boundaries }),
      )

  -- At the helper that returns from a callback, with the bits of the failure.
  unfoldable pub dispatch_returned : Machine Mem → ℕ → (Action × BoundaryKind) × Machine Mem
  dispatch_returned s failure =
      let stats = s.runtime.stats in
      if failure != 0
      then ((fail, dispatch_return), with_failure s (bit_or 0x47520000 failure))
      else (
        (stop, dispatch_return),
        with_stats (with_generic s (record s.runtime.generic { pending_callback_return = true }))
            (record stats { dispatch_ret_boundaries = increment stats.dispatch_ret_boundaries }),
      )

  -- The tests of the address.
  unfoldable pub boundary_at : Machine Mem → ℕ → (Action × BoundaryKind) × Machine Mem
  unfolding icall_checked dispatched dispatch_returned return_failure hybrid_checker_dispatch
      hybrid_resolve x64_target generic_current_frame
  boundary_at s pc =
      let config = s.runtime.config in
      let g = s.runtime.generic in
      if pc == config.checker_helper
      then icall_checked s (hybrid_checker_dispatch s.runtime s.context)
      else if pc == config.dispatch_call_helper
          || (config.dispatch_jump_helper != 0 && pc == config.dispatch_jump_helper)
      then (if g.pending_dispatch || leb 2 g.depth
          then ((fail, dispatch_call), s)
          else dispatched s (x64_target (hybrid_resolve s.runtime (get_or s.context.x 9 0))))
      else if pc == config.dispatch_ret_helper
      then dispatch_returned s (return_failure g s.context (generic_current_frame g))
      else if g.depth == 0 && is_arm g.stage && pc == g.native_return_pc
      then ((stop, dispatch_return), with_generic s (record g { pending_native_return = true }))
      else ((not_handled, unset), s)

  unfoldable pub generic_boundary : Machine Mem → ℕ → (Action × BoundaryKind) × Machine Mem
  unfolding boundary_at
  generic_boundary s pc =
      if not s.runtime.generic.active
      then ((not_handled, unset), s)
      else if get_or s.context.x 18 0 != s.context.teb || not (runs_arm s.runtime.generic.stage)
      then ((fail, unset), with_failure s 0x47420001)
      else boundary_at (with_failure s 0) pc
