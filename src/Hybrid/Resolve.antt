-- ===== src/Hybrid/Resolve.antt =====
-- src/gem/hybrid_runtime.c: `hybrid_resolve`, `hybrid_checker_dispatch` and
-- `hybrid_descriptor_resolve`.
use metal_sharp_wine_runtime.Prelude.{
  ℕ, ◌+◌, ◌-◌, ◌^◌, ◌||◌, not, Option, none, some, List, ◌!=◌, ltb, if◌then◌else◌, get_or, bit_and,
}
use metal_sharp_wine_runtime.Context.{ThreadContext, is_valid, isa_arm64ec}
use metal_sharp_wine_runtime.Target.{
  Status, ok, invalid_argument, overflow, not_executable, memory_fault, Target, is_x64_boundary,
  resolve, cross,
}
use metal_sharp_wine_runtime.Target.Descriptor.{encoded}
use metal_sharp_wine_runtime.Hybrid.{HybridRuntime, GuestOps}

unfoldable pub hybrid_resolve : HybridRuntime → ℕ → Status × Option Target
unfolding resolve
hybrid_resolve runtime requested_va = elim (runtime.config.target_resolver) [
  | none ↦ resolve runtime.map requested_va
  | some resolver ↦ resolver requested_va
]

-- `status != GEM_ARM64EC_TARGET_OK || target.kind != GEM_ARM64EC_TARGET_X64_BOUNDARY`: the target if
-- neither is so.
unfoldable pub x64_target : Status × Option Target → Option Target
x64_target (ok, some t) = if is_x64_boundary t.kind then some t else none
x64_target (e, t) = none

-- The same for a target that must not be x64 code.
unfoldable pub arm_target : Status × Option Target → Option Target
arm_target (ok, some t) = if is_x64_boundary t.kind then none else some t
arm_target (e, t) = none

-- After the exit thunk of an x64 target is resolved.
unfoldable pub checked_thunk :
    ThreadContext → Target → Status × Option Target → Status × ThreadContext × Option Target
checked_thunk c target (ok, some thunk) =
    if is_x64_boundary thunk.kind
    then (not_executable, c, none)
    else (ok, cross c thunk.resolved_va, some target)
checked_thunk c target (e, t) = (e, c, none)

-- After the target is resolved.
unfoldable pub checked_target :
    HybridRuntime → ThreadContext → Status × Option Target → Status × ThreadContext × Option Target
unfolding checked_thunk hybrid_resolve
checked_target runtime c (ok, some target) =
    if is_x64_boundary target.kind
    then checked_thunk c target (hybrid_resolve runtime (get_or c.x 10 0))
    else (ok, c, some target)
checked_target runtime c (e, t) = (e, c, none)

-- The status, the context after the call and the target that is stored on success.
unfoldable pub hybrid_checker_dispatch :
    HybridRuntime → ThreadContext → Status × ThreadContext × Option Target
unfolding is_valid checked_target hybrid_resolve
hybrid_checker_dispatch runtime c =
    if not (is_valid (some c)) || c.isa != isa_arm64ec
    then (invalid_argument, c, none)
    else checked_target runtime c (hybrid_resolve runtime (get_or c.x 11 0))

module _ {Mem : Type 0} (ops : GuestOps Mem) where
  -- After the four bytes are read.
  unfoldable pub descriptor_target : HybridRuntime → ℕ → Option (List ℕ) → Status × Option Target
  unfolding hybrid_resolve encoded
  descriptor_target runtime descriptor_va none = (memory_fault, none)
  descriptor_target runtime descriptor_va (some bytes) =
      let offset = bit_and (encoded bytes) (2 ^ 32 - 1 - 3) in
      let function_va = descriptor_va + 4 in
      if ltb (2 ^ 64 - 1 - offset) function_va
      then (overflow, none)
      else hybrid_resolve runtime (function_va + offset)

  -- The status and the target, and the memory after the read.
  unfoldable pub hybrid_descriptor_resolve :
      HybridRuntime → ℕ → Mem → (Status × Option Target) × Mem
  unfolding descriptor_target
  hybrid_descriptor_resolve runtime descriptor_va m =
      if ltb (2 ^ 64 - 1 - 4) descriptor_va
      then ((invalid_argument, none), m)
      else (let (bytes, m') = ops.read_bytes m descriptor_va 4 in
          (descriptor_target runtime descriptor_va bytes, m'))
