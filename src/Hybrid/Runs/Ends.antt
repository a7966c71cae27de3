-- ===== src/Hybrid/Runs/Ends.antt =====
-- src/gem/hybrid_runtime.c: the rounds of `gem_hybrid_runtime_run` come to an end, whatever the
-- engines do.
use metal_sharp_wine_runtime.Prelude.{
  ℕ, zero, suc, ◌+◌, ◌*◌, ◌≤◌, ◌<◌, ◌≡◌, inl, inr, refl, Bool, true, false, ◌||◌, not, Option, none,
  some, ◌==◌, ◌!=◌, ltb, if◌then◌else◌, arith,
}
use metal_sharp_wine_runtime.Context.{is_valid}
use metal_sharp_wine_runtime.Hybrid.{Machine, GuestOps, stop_none}
use metal_sharp_wine_runtime.Hybrid.Nesting.{Shape}
use metal_sharp_wine_runtime.Hybrid.Nesting.Weight.{
  weight, ArmMove-weight, X64Move-depth, weight_bounded,
}
use metal_sharp_wine_runtime.Hybrid.Run.{Engines, Round, returns, continues}
use metal_sharp_wine_runtime.Hybrid.Run.Loop.{run_round, run_loop}
use metal_sharp_wine_runtime.Hybrid.Steps.{shape_of}
use metal_sharp_wine_runtime.Hybrid.Steps.Rounds.{RoundOf, went, ArmRound, X64Round}
use metal_sharp_wine_runtime.Hybrid.Run.Entry.{
  generic_begin, generic_context_valid, started, run_active, hybrid_run,
}
use metal_sharp_wine_runtime.Hybrid.Runs.{Advances, run_round-Advances}

-- A round that goes on leaves less to do.
Advances-less :
    (sh sh' : Shape) (n n' : ℕ)
    → Advances sh n sh' n'
    → sh.depth ≤ 2
    → (4 * n' + weight sh'.stage sh'.depth < 4 * n + weight sh.stage sh.depth) × (sh'.depth ≤ 2)
unfolding Advances ArmRound X64Round
Advances-less sh sh' n n' (inl (r, a)) d =
    let (m, le) = a in let (lt, d') = ArmMove-weight r m d in (omega arith, d')
Advances-less sh sh' n n' (inr (m, lt)) d =
    let d' = X64Move-depth m d in (omega (arith, weight_bounded sh' d'), d')

abbrev Yields : {A : Type 0} → Option A → Type 0
Yields {A} o = (a : A) × (o ≡ some a)

Yields-if :
    {A : Type 0} (b : Bool) {o o' : Option A}
    → Yields o
    → (b ≡ false → Yields o')
    → Yields (if b then o else o')
Yields-if true y k = y
Yields-if false y k = k refl

-- What a run of the loop from any machine with few frames yields, with that fuel.
module _ {Mem : Type 0} (ops : GuestOps Mem) (engines : Engines Mem) where
  Returns : ℕ → Type 0
  Returns fuel =
      (i : ℕ) (s : Machine Mem) (remaining : ℕ)
      → s.runtime.generic.depth ≤ 2
      → 4 * remaining + weight s.runtime.generic.stage s.runtime.generic.depth < fuel
      → (result : ℕ × Machine Mem) × (run_loop ops engines fuel i s remaining ≡ some result)

  after_round :
      (fuel i : ℕ) (s : Machine Mem) (remaining : ℕ) (round : Round Mem)
      → Returns fuel
      → run_round ops engines i s remaining ≡ round
      → RoundOf (shape_of s) (Advances (shape_of s) remaining) round
      → s.runtime.generic.depth ≤ 2
      → 4 * remaining + weight s.runtime.generic.stage s.runtime.generic.depth < suc fuel
      → (result : ℕ × Machine Mem) × (run_loop ops engines (suc fuel) i s remaining ≡ some result)
  unfolding run_loop Returns
  after_round fuel i s remaining (returns reason s') ih e h d lt = ((reason, s'), rw (e, run_loop))
  after_round fuel i s remaining (continues s' remaining') ih e (went a) d lt =
      let (less, d') = Advances-less (shape_of s) (shape_of s') remaining remaining' a d in
      let (result, r) = ih (i + 1) s' remaining' d' (omega arith) in (result, rw (e, run_loop) r)

  run_loop-Returns : (fuel : ℕ) → Returns fuel
  unfolding Returns
  run_loop-Returns zero i s remaining d lt = absurd (omega arith)
  run_loop-Returns (suc fuel) i s remaining d lt =
      after_round fuel i s remaining _ (run_loop-Returns fuel) refl
        (run_round-Advances ops engines i s remaining) d lt

  ready_depth :
      (s : Machine Mem) → generic_context_valid ops engines s ≡ true → s.runtime.generic.depth ≤ 2
  unfolding generic_context_valid
  ready_depth s e = ground arith

  run_active_returns :
      (fuel : ℕ) (s : Machine Mem) (budget : ℕ) (o : Option (Machine Mem))
      → 4 * budget + 3 < fuel
      → Yields (run_active ops engines fuel s budget o)
  unfolding run_active Returns
  run_active_returns fuel s budget none lt = (_, refl)
  run_active_returns fuel s budget (some ready) lt =
      Yields-if (not (generic_context_valid ops engines ready)) (_, refl)
        λ e.
          let d = ready_depth ready (ground arith) in
          run_loop-Returns fuel 0 (started ops engines ready) budget d
            (omega (arith, weight_bounded (shape_of ready) d))

  -- With fuel of more than four times the budget and three, a run returns: whatever the machine is,
  -- and whatever the engines, each of whose calls ends, do to the thread and its memory and tell of
  -- their stops, and whenever another thread asks for a stop.
  pub hybrid_run_returns :
      (fuel : ℕ) (s : Machine Mem) (budget : ℕ)
      → 4 * budget + 3 < fuel
      → (result : ℕ × Machine Mem) × (hybrid_run ops engines fuel s budget ≡ some result)
  unfolding hybrid_run
  hybrid_run_returns fuel s budget lt =
      Yields-if
        (s.runtime.running
          || not (is_valid (some s.context))
          || budget == 0
          || ltb s.runtime.config.max_budget budget
          || s.context.stop_reason != stop_none)
        (_, refl)
        λ _.
          run_active_returns fuel s budget
            (if s.runtime.generic.active then some s else generic_begin ops engines s) lt
