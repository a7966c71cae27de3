-- ===== src/Hybrid/Runs/Nesting.antt =====
-- src/gem/hybrid_runtime.c: `gem_hybrid_runtime_run` keeps the nesting of the coordinator.
use metal_sharp_wine_runtime.Prelude.{
  ℕ, zero, suc, ◌+◌, ◌≡◌, ◌⊎◌, inl, inr, refl, sym, Bool, true, false, ◌||◌, not, Option, none,
  some, ◌==◌, ◌!=◌, ltb, if◌then◌else◌, Bool-cases, get_or,
}
use metal_sharp_wine_runtime.Context.{is_valid, isa_arm64ec}
use metal_sharp_wine_runtime.Target.{Target}
use metal_sharp_wine_runtime.Hybrid.{zero_generic, Machine, GuestOps, stop_none}
use metal_sharp_wine_runtime.Hybrid.Nesting.{Shape, shape}
use metal_sharp_wine_runtime.Hybrid.Nesting.Invariant.{
  Nested, inactive, at_arm, ArmMove-Nested, X64Move-Nested,
}
use metal_sharp_wine_runtime.Hybrid.Run.{Engines, Round, returns, continues}
use metal_sharp_wine_runtime.Hybrid.Run.Loop.{run_round, run_loop}
use metal_sharp_wine_runtime.Hybrid.Steps.{shape_of}
use metal_sharp_wine_runtime.Hybrid.Steps.Rounds.{RoundOf, ended, went, ArmRound, X64Round}
use mathlib.Core.Path.{subst}
use metal_sharp_wine_runtime.Hybrid.Run.Entry.{
  begun, generic_begin, generic_context_valid, run_refused, started, run_active, hybrid_run,
}
use metal_sharp_wine_runtime.Hybrid.Runs.{Advances, run_round-Advances}

module _ {Mem : Type 0} (ops : GuestOps Mem) (engines : Engines Mem) where
  -- What the loop leaves with that fuel.
  Leaves : ℕ → Type 0
  Leaves fuel =
      (i : ℕ) (s : Machine Mem) (remaining : ℕ) (result : ℕ × Machine Mem)
      → Nested (shape_of s)
      → run_loop ops engines fuel i s remaining ≡ some result
      → Nested (shape_of result.1)

  Advances-Nested : (sh sh' : Shape) (n n' : ℕ) → Advances sh n sh' n' → Nested sh → Nested sh'
  unfolding Advances ArmRound X64Round
  Advances-Nested sh sh' n n' (inl (r, a)) h = ArmMove-Nested r a.0 h
  Advances-Nested sh sh' n n' (inr x) h = X64Move-Nested x.0 h

  ended-Nested : (sh sh' : Shape) → (sh' ≡ sh) ⊎ (sh' ≡ shape zero_generic) → Nested sh → Nested sh'
  ended-Nested sh sh' (inl e) h = subst Nested (sym e) h
  ended-Nested sh sh' (inr e) h = subst Nested (sym e) (inactive refl refl)

  after_round :
      (fuel i : ℕ) (s : Machine Mem) (remaining : ℕ) (round : Round Mem)
      → Leaves fuel
      → run_round ops engines i s remaining ≡ round
      → RoundOf (shape_of s) (Advances (shape_of s) remaining) round
      → (result : ℕ × Machine Mem) → Nested (shape_of s)
      → run_loop ops engines (suc fuel) i s remaining ≡ some result
      → Nested (shape_of result.1)
  unfolding run_loop Leaves
  after_round fuel i s remaining (returns reason s') ih e (ended o) result n r =
      let r' : some (reason, s') ≡ some result = rw (e, run_loop) at r in
      let same : s' ≡ result.1 = cc r' in
      subst (λ z. Nested (shape_of z)) same (ended-Nested (shape_of s) (shape_of s') o n)
  after_round fuel i s remaining (continues s' remaining') ih e (went a) result n r =
      ih (i + 1) s' remaining' result
        (Advances-Nested (shape_of s) (shape_of s') remaining remaining' a n)
        (rw (e, run_loop) at r)

  run_loop-Leaves : (fuel : ℕ) → Leaves fuel
  unfolding Leaves run_loop
  run_loop-Leaves zero i s remaining result n r = absurd (cc r)
  run_loop-Leaves (suc fuel) i s remaining result n r =
      after_round fuel i s remaining _ (run_loop-Leaves fuel) refl
        (run_round-Advances ops engines i s remaining) result n r

  -- The coordinator before the loop, where it can begin.
  data Ready : Option (Machine Mem) → Type 0 where
    not_ready : Ready none
    ready_nested : {s : Machine Mem} → Nested (shape_of s) → Ready (some s)

  Ready-if :
      (b : Bool) {o o' : Option (Machine Mem)} → Ready o → Ready o' → Ready (if b then o else o')
  Ready-if true r r' = r
  Ready-if false r r' = r'

  begun-Ready : (s : Machine Mem) (o : Option Target) → Ready (begun ops engines s o)
  unfolding begun
  begun-Ready s none = not_ready
  begun-Ready s (some t) = ready_nested (at_arm refl refl)

  generic_begin-Ready : (s : Machine Mem) → Ready (generic_begin ops engines s)
  unfolding generic_begin
  generic_begin-Ready s =
      let c = s.context in
      Ready-if
        (c.isa != isa_arm64ec
          || c.transition_cookie != 0
          || get_or c.x 18 0 != c.teb
          || get_or c.x 30 0 == 0)
        not_ready (begun-Ready s _)

  run_active-Nested :
      (fuel : ℕ) (s : Machine Mem) (budget : ℕ) (o : Option (Machine Mem))
      (result : ℕ × Machine Mem)
      → Nested (shape_of s)
      → Ready o
      → run_active ops engines fuel s budget o ≡ some result
      → Nested (shape_of result.1)
  unfolding run_active Leaves
  run_active-Nested fuel s budget none result n r e =
      let same : s.runtime.generic ≡ result.1.runtime.generic = cc e in
      subst (λ g. Nested (shape g)) same n
  run_active-Nested fuel s budget (some ready) result n (ready_nested h) e =
      elim (Bool-cases (generic_context_valid ops engines ready)) [
        | inl v ↦
            run_loop-Leaves fuel 0 (started ops engines ready) budget result h
              (rw (v, run_active) at e)
        | inr v ↦
            let e' : run_refused ops engines ready ≡ some result = rw (v, run_active) at e in
            let same : ready.runtime.generic ≡ result.1.runtime.generic = cc e' in
            subst (λ g. Nested (shape g)) same h
      ]

  -- If the coordinator is nested before a run that returns, it is so afterwards: it has no frame and
  -- is idle or in the ARM64EC code that it began with; or it has one frame, pushed from that code, or
  -- two, the second pushed from a callback of the first; every frame has a written record, and the
  -- stage is that of x64 code or of a callback as the top frame tells.
  pub hybrid_run-Nested :
      (fuel : ℕ) (s : Machine Mem) (budget : ℕ) (result : ℕ × Machine Mem)
      → Nested (shape_of s)
      → hybrid_run ops engines fuel s budget ≡ some result
      → Nested (shape_of result.1)
  unfolding hybrid_run
  hybrid_run-Nested fuel s budget result n e =
      elim (Bool-cases (
        s.runtime.running
        || not (is_valid (some s.context))
        || budget == 0
        || ltb s.runtime.config.max_budget budget
        || s.context.stop_reason != stop_none)) [
          | inl v ↦
              let e' : run_refused ops engines s ≡ some result = rw (v, hybrid_run) at e in
              let same : s.runtime.generic ≡ result.1.runtime.generic = cc e' in
              subst (λ g. Nested (shape g)) same n
          | inr v ↦
              run_active-Nested fuel s budget
                (if s.runtime.generic.active then some s else generic_begin ops engines s) result n
                (Ready-if s.runtime.generic.active (ready_nested n) (generic_begin-Ready s))
                (rw (v, hybrid_run) at e)
        ]
