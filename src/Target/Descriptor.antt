-- ===== src/Target/Descriptor.antt =====
-- src/gem/arm64ec_target.c: `gem_arm64ec_descriptor_resolve`, the four bytes in front of a function
-- that tell its entry thunk.
use metal_sharp_wine_runtime.Prelude.{
  ℕ, ◌+◌, ◌-◌, ◌*◌, ◌^◌, Bool, true, false, Option, none, some, List, ltb, if◌then◌else◌, get_or,
  replicate, bit_and, bit_or,
}
use metal_sharp_wine_runtime.Memory.{Error, Memory, M}
use metal_sharp_wine_runtime.Memory as GuestMemory
use metal_sharp_wine_runtime.Memory.Access.Transfer.{read}
use metal_sharp_wine_runtime.Target.{
  Status, ok, overflow, not_executable, memory_fault, Target, TargetMap, is_x64_boundary, is_ok,
  add_u64, resolve, cfg_authorize,
}

-- The little-endian word of the descriptor.
unfoldable pub encoded : List ℕ → ℕ
encoded d =
    bit_or (bit_or (bit_or (get_or d 0 0) (get_or d 1 0 * 2 ^ 8)) (get_or d 2 0 * 2 ^ 16))
      (get_or d 3 0 * 2 ^ 24)

-- The policy is asked if there is one.
unfoldable pub authorized :
    Option (Option (ℕ → Bool)) → Status × Option Target → Status × Option Target
unfolding cfg_authorize
authorized policy (ok, some t) =
    if is_x64_boundary t.kind then (not_executable, none) else elim policy [
      | none ↦ (ok, some t)
      | some p ↦
          let s = cfg_authorize p t.resolved_va in if is_ok s then (ok, some t) else (s, none)
    ]
authorized policy (e, t) = (e, none)

unfoldable pub resolve_thunk :
    TargetMap → ℕ → Option (Option (ℕ → Bool)) → List ℕ → Status × Option Target
unfolding encoded add_u64 resolve authorized
resolve_thunk map descriptor_va policy d =
    elim (add_u64 (descriptor_va + 4) (bit_and (encoded d) (2 ^ 32 - 1 - 3))) [
      | none ↦ (overflow, none)
      | some thunk_va ↦ authorized policy (resolve map thunk_va)
    ]

abbrev was_read : Error → Bool
was_read e = elim e [ GuestMemory.ok ↦ true | _ ↦ false ]

-- The status and the target that is stored on success.
unfoldable pub descriptor_resolve :
    TargetMap → ℕ → Option (Option (ℕ → Bool)) → M (Status × Option Target)
unfolding read resolve_thunk
descriptor_resolve map descriptor_va policy m =
    if ltb (2 ^ 64 - 1 - 4) descriptor_va
    then some ((overflow, none), m)
    else elim (read descriptor_va (some (replicate 4 0)) 4 m) [
      | none ↦ none
      | some ((e, none), m') ↦ some ((memory_fault, none), m')
      | some ((e, some d), m') ↦
          if was_read e
          then some (resolve_thunk map descriptor_va policy d, m')
          else some ((memory_fault, none), m')
    ]
