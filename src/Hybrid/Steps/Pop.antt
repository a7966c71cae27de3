-- ===== src/Hybrid/Steps/Pop.antt =====
-- src/gem/hybrid_runtime.c: `generic_pop_x64` on shapes.
use metal_sharp_wine_runtime.Prelude.{
  ℕ, ◌+◌, ◌-◌, ◌%◌, ◌^◌, ◌≡◌, ◌≢◌, ap, ◌||◌, not, Option, none, some, ◌==◌, ◌!=◌, arith,
}
use metal_sharp_wine_runtime.Hybrid.{Stage, zero_frame, GenericState, Machine, GuestOps}
use metal_sharp_wine_runtime.Hybrid.Records.{replace_stack_record}
use metal_sharp_wine_runtime.Hybrid.Frames.{frame_at, set_frame, popped, generic_pop_x64}
use metal_sharp_wine_runtime.Hybrid.Nesting.{Shape, shape, put_frame, shape-set_frame, Pops}
use metal_sharp_wine_runtime.Hybrid.Steps.{Succeeds, succeeded, declined, Succeeds-if, shape_of}

shape-dropped :
    (i : ℕ) (stage : Stage) (g : GenericState)
    → shape (record (record (set_frame i zero_frame g) { depth = i }) { stage = stage })
      ≡ record (put_frame i zero_frame (shape g)) { stage = stage; depth = i }
shape-dropped i stage g =
    ap (λ (z : Shape). record z { stage = stage; depth = i }) (shape-set_frame i zero_frame g)

module _ {Mem : Type 0} (s : Machine Mem) where
  popped-Pops :
      (o : Option (ℕ × Mem))
      → s.runtime.generic.depth ≢ 0
      → Succeeds
          (λ s'. Pops (shape_of s) (shape_of s'))
          (popped s (frame_at (s.runtime.generic.depth - 1) s.runtime.generic) o)
  unfolding popped
  popped-Pops none pos = declined
  popped-Pops (some (old, m)) pos = succeeded (record {
    nonempty = pos;
    dropped = shape-dropped (s.runtime.generic.depth - 1) _ s.runtime.generic;
  })

  pub generic_pop_x64-Pops :
      (ops : GuestOps Mem)
      → Succeeds (λ s'. Pops (shape_of s) (shape_of s')) (generic_pop_x64 ops s)
  unfolding generic_pop_x64
  generic_pop_x64-Pops ops = Succeeds-if (s.runtime.generic.depth == 0) s λ h.
      let f = frame_at (s.runtime.generic.depth - 1) s.runtime.generic in
      Succeeds-if (not f.record_written || s.context.sp != (f.record_address + 8) % 2 ^ 64) s λ _.
        popped-Pops (replace_stack_record ops s.memory f.record_address f.old_record) (ground arith)
