-- ===== src/Hybrid/Steps/Rounds/X64.antt =====
-- src/gem/hybrid_runtime.c: what a round that runs one x64 instruction does to the shape.
use metal_sharp_wine_runtime.Prelude.{
  ℕ, ◌+◌, ◌-◌, ◌%◌, ◌^◌, ◌<◌, ◌≢◌, refl, Bool, ◌&&◌, ◌||◌, not, Option, none, some, ◌==◌, ◌!=◌, ltb,
  arith,
}
use metal_sharp_wine_runtime.Target.{Status, Target, is_x64_boundary}
use metal_sharp_wine_runtime.Target as TargetMap
use metal_sharp_wine_runtime.Hybrid.{
  zero_stop_info, source_x64, Machine, GuestOps, EngineStop, stop_host_return, stop_budget_expired,
}
use metal_sharp_wine_runtime.Hybrid.Boundary.{with_stats}
use metal_sharp_wine_runtime.Hybrid.Nesting.{X64Move, stays, enters, pops}
use metal_sharp_wine_runtime.Hybrid.Run.{X64Run, Round, with_stop, stop_of_x64}
use metal_sharp_wine_runtime.Hybrid.Run.Loop.{x64_arrived, is_arm_kind, x64_retired, after_x64}
use metal_sharp_wine_runtime.Hybrid.Steps.{Succeeds, Succeeds-weaken, shape_of}
use metal_sharp_wine_runtime.Hybrid.Steps.Pop.{generic_pop_x64-Pops}
use metal_sharp_wine_runtime.Hybrid.Steps.Turn.{generic_enter_callback-Enters}
use metal_sharp_wine_runtime.Hybrid.Steps.Rounds.{
  RoundOf, went, RoundOf-if, violates-RoundOf, proceed-RoundOf, returning-RoundOf, X64Round,
}

module _ {Mem : Type 0} (ops : GuestOps Mem) (s : Machine Mem) (total : ℕ) where
  abbrev X64Of : Round Mem → Type 0
  X64Of = RoundOf (shape_of s) (X64Round (shape_of s) total)

  x64_moved :
      {r : Bool × Machine Mem} (remaining : ℕ)
      → remaining < total
      → Succeeds (λ s'. X64Move (shape_of s) (shape_of s')) r
      → Succeeds (λ s'. X64Round (shape_of s) total (shape_of s') remaining) r
  unfolding X64Round
  x64_moved remaining lt h = Succeeds-weaken (λ s' m. (m, lt)) h

  x64_found-X64Of :
      (remaining sp : ℕ) (was_call : Bool) (reason : ℕ) (target : Target)
      → remaining < total
      → X64Of (x64_arrived ops s remaining sp was_call reason (TargetMap.ok, some target))
  unfolding x64_arrived X64Round
  x64_found-X64Of remaining sp was_call reason target lt =
      RoundOf-if ops _ _ (reason != stop_budget_expired) (violates-RoundOf ops _ _ s 932) λ _.
        RoundOf-if ops _ _ (is_x64_boundary target.kind)
          (RoundOf-if ops _ _ (target.resolved_va != s.context.pc) (violates-RoundOf ops _ _ s 935)
            λ _. went (stays refl, lt))
          λ _.
            RoundOf-if ops _ _ (not (is_arm_kind target.kind)) (violates-RoundOf ops _ _ s 943) λ _.
              proceed-RoundOf ops _ _ remaining 943 _ (
                x64_moved remaining lt (
                  Succeeds-weaken (λ s' t. enters t)
                    (generic_enter_callback-Enters ops s target sp was_call)))

  x64_arrived-X64Of :
      (remaining sp : ℕ) (was_call : Bool) (reason : ℕ) (answer : Status × Option Target)
      → remaining < total
      → X64Of (x64_arrived ops s remaining sp was_call reason answer)
  unfolding x64_arrived
  x64_arrived-X64Of remaining sp was_call reason (TargetMap.ok, some target) lt =
      x64_found-X64Of remaining sp was_call reason target lt
  x64_arrived-X64Of remaining sp was_call reason (TargetMap.ok, none) lt =
      violates-RoundOf ops _ _ s 932
  x64_arrived-X64Of remaining sp was_call reason (TargetMap.invalid_argument, o) lt =
      violates-RoundOf ops _ _ s 932
  x64_arrived-X64Of remaining sp was_call reason (TargetMap.overflow, o) lt =
      violates-RoundOf ops _ _ s 932
  x64_arrived-X64Of remaining sp was_call reason (TargetMap.outside_image, o) lt =
      violates-RoundOf ops _ _ s 932
  x64_arrived-X64Of remaining sp was_call reason (TargetMap.not_executable, o) lt =
      violates-RoundOf ops _ _ s 932
  x64_arrived-X64Of remaining sp was_call reason (TargetMap.malformed_metadata, o) lt =
      violates-RoundOf ops _ _ s 932
  x64_arrived-X64Of remaining sp was_call reason (TargetMap.misaligned, o) lt =
      violates-RoundOf ops _ _ s 932
  x64_arrived-X64Of remaining sp was_call reason (TargetMap.memory_fault, o) lt =
      violates-RoundOf ops _ _ s 932
  x64_arrived-X64Of remaining sp was_call reason (TargetMap.cfg_denied, o) lt =
      violates-RoundOf ops _ _ s 932
  x64_arrived-X64Of remaining sp was_call reason (TargetMap.descriptor_unsupported, o) lt =
      violates-RoundOf ops _ _ s 932
  x64_arrived-X64Of remaining sp was_call reason (TargetMap.relocation_unsupported, o) lt =
      violates-RoundOf ops _ _ s 932

  x64_retired-X64Of :
      (remaining sp : ℕ) (run : X64Run Mem)
      → remaining < total
      → X64Of (x64_retired ops s remaining sp run)
  unfolding x64_retired
  x64_retired-X64Of remaining sp run lt =
      RoundOf-if ops _ _ (s.context.pc == s.runtime.config.x64_return_sentinel)
        (RoundOf-if ops _ _ (run.reason != stop_host_return || not run.was_ret)
          (violates-RoundOf ops _ _ s 927)
          λ _. proceed-RoundOf ops _ _ remaining 927 _ (
            x64_moved remaining lt (Succeeds-weaken (λ s' p. pops p) (generic_pop_x64-Pops s ops))))
        λ _. x64_arrived-X64Of remaining sp run.was_call run.reason _ lt

module _ {Mem : Type 0} (ops : GuestOps Mem) (s : Machine Mem) (total : ℕ) where
  pub after_x64-X64Of :
      (run : X64Run Mem) (o : Option EngineStop)
      → total ≢ 0
      → RoundOf (shape_of s) (X64Round (shape_of s) total) (after_x64 ops s total run o)
  unfolding after_x64
  after_x64-X64Of run none pos =
      violates-RoundOf ops _ _
        (with_stop (record s { context = run.context; memory = run.memory })
          (record zero_stop_info { source = source_x64 }))
        916
  after_x64-X64Of run (some info) pos =
      let ran = record s { context = run.context; memory = run.memory } in
      let stopped = with_stop ran (stop_of_x64 info) in
      let retired = info.instructions_retired in
      let stats = s.runtime.stats in
      let counted = with_stats stopped (record stats {
        x64_instructions_retired = (stats.x64_instructions_retired + retired) % 2 ^ 64;
      }) in
      RoundOf-if ops _ _ (info.reason != run.reason || ltb total retired)
        (violates-RoundOf ops _ _ stopped 916)
        λ _.
          RoundOf-if ops _ _ (run.reason != stop_budget_expired && run.reason != stop_host_return)
            (returning-RoundOf ops _ _ counted run.reason refl)
            λ _. RoundOf-if ops _ _ (retired != 1) (violates-RoundOf ops _ _ counted 922) λ one.
              x64_retired-X64Of ops counted total (total - retired) s.context.sp run (ground arith)
