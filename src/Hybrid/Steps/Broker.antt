-- ===== src/Hybrid/Steps/Broker.antt =====
-- src/gem/hybrid_runtime.c: the broker and the ARM64EC engine leave the shape as it is.
use metal_sharp_wine_runtime.Prelude.{
  ℕ, ◌≡◌, refl, ◌∙◌, Bool, true, false, ◌&&◌, ◌||◌, not, Option, none, some, ◌==◌, ◌!=◌, leb,
  if◌then◌else◌, get_or,
}
use metal_sharp_wine_runtime.Context.{ThreadContext}
use metal_sharp_wine_runtime.Target.{Status, Target}
use metal_sharp_wine_runtime.Target as TargetMap
use metal_sharp_wine_runtime.Hybrid.{Machine}
use metal_sharp_wine_runtime.Hybrid.Nesting.{Shape}
use metal_sharp_wine_runtime.Hybrid.Boundary.{
  Action, BoundaryKind, is_arm, runs_arm, with_failure, icall_checked, dispatched,
  dispatch_returned, boundary_at, generic_boundary,
}
use metal_sharp_wine_runtime.Hybrid.Run.{ArmRun, arm_stopped, arm_asks, execute}
use metal_sharp_wine_runtime.Hybrid.Steps.{shape_of}

module _ {Mem : Type 0} where
  -- An answer of the broker with a machine of that shape.
  record HasShape (sh : Shape) (r : (Action × BoundaryKind) × Machine Mem) : Type 0 where
    same : shape_of r.1 ≡ sh

  HasShape-if :
      {sh : Shape} (b : Bool) {r r' : (Action × BoundaryKind) × Machine Mem}
      → HasShape sh r
      → HasShape sh r'
      → HasShape sh (if b then r else r')
  HasShape-if true h h' = h
  HasShape-if false h h' = h'

  icall_checked-HasShape :
      (s : Machine Mem) (answer : Status × ThreadContext × Option Target)
      → HasShape (shape_of s) (icall_checked s answer)
  unfolding icall_checked
  icall_checked-HasShape s (TargetMap.ok, c, t) = record { same = refl }
  icall_checked-HasShape s (TargetMap.invalid_argument, c, t) = record { same = refl }
  icall_checked-HasShape s (TargetMap.overflow, c, t) = record { same = refl }
  icall_checked-HasShape s (TargetMap.outside_image, c, t) = record { same = refl }
  icall_checked-HasShape s (TargetMap.not_executable, c, t) = record { same = refl }
  icall_checked-HasShape s (TargetMap.malformed_metadata, c, t) = record { same = refl }
  icall_checked-HasShape s (TargetMap.misaligned, c, t) = record { same = refl }
  icall_checked-HasShape s (TargetMap.memory_fault, c, t) = record { same = refl }
  icall_checked-HasShape s (TargetMap.cfg_denied, c, t) = record { same = refl }
  icall_checked-HasShape s (TargetMap.descriptor_unsupported, c, t) = record { same = refl }
  icall_checked-HasShape s (TargetMap.relocation_unsupported, c, t) = record { same = refl }

  dispatched-HasShape :
      (s : Machine Mem) (o : Option Target) → HasShape (shape_of s) (dispatched s o)
  unfolding dispatched
  dispatched-HasShape s none = record { same = refl }
  dispatched-HasShape s (some t) = record { same = refl }

  dispatch_returned-HasShape :
      (s : Machine Mem) (n : ℕ) → HasShape (shape_of s) (dispatch_returned s n)
  unfolding dispatch_returned
  dispatch_returned-HasShape s n =
      HasShape-if (n != 0) (record { same = refl }) (record { same = refl })

  boundary_at-HasShape : (s : Machine Mem) (pc : ℕ) → HasShape (shape_of s) (boundary_at s pc)
  unfolding boundary_at
  boundary_at-HasShape s pc =
      let config = s.runtime.config in
      let g = s.runtime.generic in
      HasShape-if (pc == config.checker_helper) (icall_checked-HasShape s _) (
        HasShape-if
          (pc == config.dispatch_call_helper
            || (config.dispatch_jump_helper != 0 && pc == config.dispatch_jump_helper))
          (HasShape-if (g.pending_dispatch || leb 2 g.depth) (record { same = refl })
            (dispatched-HasShape s _))
          (HasShape-if (pc == config.dispatch_ret_helper) (dispatch_returned-HasShape s _) (
            HasShape-if (g.depth == 0 && is_arm g.stage && pc == g.native_return_pc)
              (record { same = refl }) (record { same = refl }))))

  generic_boundary-HasShape :
      (s : Machine Mem) (pc : ℕ) → HasShape (shape_of s) (generic_boundary s pc)
  unfolding generic_boundary
  generic_boundary-HasShape s pc =
      HasShape-if (not s.runtime.generic.active) (record { same = refl })
        (HasShape-if
          (get_or s.context.x 18 0 != s.context.teb || not (runs_arm s.runtime.generic.stage))
          (record { same = refl })
          (record { same = (boundary_at-HasShape (with_failure s 0) pc).same }))

  -- However often the engine asks the broker.
  pub shape-execute : (s : Machine Mem) (run : ArmRun Mem) → shape_of (execute s run).1 ≡ shape_of s
  unfolding execute
  shape-execute s (arm_stopped reason last_stop c m) = refl
  shape-execute s (arm_asks pc c m next) =
      let asked = record s { context = c; memory = m } in
      let r = generic_boundary asked pc in
      shape-execute r.1 (next r.0 r.1.context) ∙ (generic_boundary-HasShape asked pc).same
