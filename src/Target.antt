-- ===== src/Target.antt =====
-- src/gem/arm64ec_target.c and include/metalsharp/gem/arm64ec_target.h: where an indirect ARM64EC
-- call goes. The parsed image is an interface: what src/gem/pe_arm64x.c answers about it.
pub mod Resolution
pub mod Dispatch
pub mod Descriptor
pub mod Create
pub mod Loaded
pub mod Chain
use metal_sharp_wine_runtime.Prelude.{
  ℕ, zero, suc, ◌+◌, ◌-◌, ◌*◌, ◌%◌, ◌^◌, Bool, true, false, ◌&&◌, ◌||◌, not, Option, none, some,
  List, ◌==◌, ◌!=◌, ltb, leb, if◌then◌else◌, get_or, set,
}
use metal_sharp_wine_runtime.Pe.{
  Classification, rva_invalid, rva_data, rva_arm64, rva_arm64ec, rva_x64, rva_thunk,
  rva_fast_forward,
}
use metal_sharp_wine_runtime.Context.{ThreadContext, is_valid, isa_arm64ec}

-- `enum gem_arm64ec_target_status`
pub data Status : Type 0 where
  ok invalid_argument overflow outside_image not_executable malformed_metadata misaligned : Status
  memory_fault cfg_denied descriptor_unsupported relocation_unsupported : Status

-- `enum gem_arm64ec_target_kind`; `unset` is the zero that `memset` leaves.
pub data Kind : Type 0 where
  unset arm64 arm64ec x64_boundary : Kind

abbrev pub is_x64_boundary : Kind → Bool
is_x64_boundary x64_boundary = true
is_x64_boundary k = false

-- `struct gem_arm64ec_target_result`
pub record Target : Type 0 where
  pub requested_va : ℕ
  pub resolved_va : ℕ
  pub requested_rva : ℕ
  pub resolved_rva : ℕ
  pub kind : Kind
  pub redirection_hops : ℕ

-- What the resolution reads of `struct gem_pe_arm64x_rva_info`.
pub record RvaInfo : Type 0 where
  pub classification : Classification
  pub code_map_isa : Classification
  pub executable_section : Bool
  -- The destination of the redirection at this address, if it has one.
  pub redirection : Option ℕ

-- `struct gem_arm64ec_target_map`, with what the parsed image answers: the information on an
-- address, `none` for an error, and the number of its redirections.
pub record TargetMap : Type 0 where
  pub classify_rva : ℕ → Option RvaInfo
  pub redirection_count : ℕ
  pub size_of_image : ℕ
  pub loaded_base : ℕ
  pub loaded_end : ℕ

unfoldable pub add_u64 : ℕ → ℕ → Option ℕ
add_u64 left right = if ltb (2 ^ 64 - 1 - right) left then none else some (left + right)

-- The switch over the classification of the address that the redirections lead to.
unfoldable pub kind_of_isa : Classification → Option Kind
kind_of_isa rva_arm64 = some arm64
kind_of_isa rva_arm64ec = some arm64ec
kind_of_isa rva_x64 = some x64_boundary
kind_of_isa c = none

unfoldable pub kind_of : RvaInfo → Status × Kind
unfolding kind_of_isa
kind_of info = elim (info.classification) [
  | rva_arm64 ↦ (ok, arm64)
  | rva_arm64ec ↦ (ok, arm64ec)
  | rva_x64 ↦ (ok, x64_boundary)
  | rva_thunk ↦ elim (kind_of_isa info.code_map_isa) [
    | none ↦ (malformed_metadata, unset)
    | some k ↦ (ok, k)
  ]
  | _ ↦ (not_executable, unset)
]

-- `info.classification == GEM_PE_RVA_INVALID`
abbrev pub is_invalid : Classification → Bool
is_invalid rva_invalid = true
is_invalid c = false

-- The test of the alignment that follows the switch.
unfoldable pub aligned_kind : ℕ → Status × Kind → Status × Kind
aligned_kind resolved_va (ok, kind) =
    if not (is_x64_boundary kind) && resolved_va % 4 != 0 then (misaligned, kind) else (ok, kind)
aligned_kind resolved_va (e, kind) = (e, kind)

-- The status, and the kind that is stored.
unfoldable pub classify_terminal : TargetMap → ℕ → ℕ → Status × Kind
unfolding kind_of aligned_kind
classify_terminal map rva resolved_va = elim (map.classify_rva rva) [
  | none ↦ (malformed_metadata, unset)
  | some info ↦
      if is_invalid info.classification
      then (if leb map.size_of_image rva then (outside_image, unset) else (not_executable, unset))
      else if not info.executable_section
      then (not_executable, unset)
      else aligned_kind resolved_va (kind_of info)
]

-- The loop over the redirections, with the rounds left. It ends with the address that has no
-- further one and the hops made, or with `none` at an error of the image or at its limit.
unfoldable pub follow : TargetMap → ℕ → ℕ → ℕ → Option (ℕ × ℕ)
follow map zero rva hops = none
follow map (suc left) rva hops = elim (map.classify_rva rva) [
  | none ↦ none
  | some info ↦ elim (info.redirection) [
    | none ↦ some (rva, hops)
    | some destination ↦ follow map left destination (hops + 1)
  ]
]

-- The status, and the result that is stored on success.
unfoldable pub finish : ℕ → ℕ → ℕ → ℕ → ℕ → Status × Kind → Status × Option Target
finish requested_va requested_rva resolved_va rva hops (ok, kind) = (
  ok,
  some (record {
    requested_va = requested_va;
    resolved_va = resolved_va;
    requested_rva = requested_rva;
    resolved_rva = rva;
    kind = kind;
    redirection_hops = hops;
  }),
)
finish requested_va requested_rva resolved_va rva hops (e, kind) = (e, none)

unfoldable pub arrive : TargetMap → ℕ → ℕ → Option (ℕ × ℕ) → Status × Option Target
unfolding add_u64 classify_terminal finish
arrive map requested_va requested_rva none = (malformed_metadata, none)
arrive map requested_va requested_rva (some (rva, hops)) = elim (add_u64 map.loaded_base rva) [
  | none ↦ (overflow, none)
  | some resolved_va ↦
      finish requested_va requested_rva resolved_va rva hops (classify_terminal map rva resolved_va)
]

unfoldable pub resolve : TargetMap → ℕ → Status × Option Target
unfolding follow arrive
resolve map requested_va =
    if ltb requested_va map.loaded_base || leb map.loaded_end requested_va
    then (outside_image, none)
    else (let requested_rva = (requested_va - map.loaded_base) % 2 ^ 32 in
        arrive map requested_va requested_rva
          (follow map (map.redirection_count + 1) requested_rva 0))

-- A policy that may be a null pointer, or have none for its function.
unfoldable pub cfg_authorize : Option (ℕ → Bool) → ℕ → Status
cfg_authorize none target_va = cfg_denied
cfg_authorize (some authorize) target_va = if authorize target_va then ok else cfg_denied

abbrev pub is_ok : Status → Bool
is_ok ok = true
is_ok e = false

-- The stores of `gem_arm64ec_checker_dispatch` for an x64 target.
abbrev pub cross : ThreadContext → ℕ → ThreadContext
cross c thunk_va = record c { x = set (set c.x 9 (get_or c.x 11 0)) 11 thunk_va }

-- After the exit thunk is resolved.
unfoldable pub cross_by :
    ThreadContext → Target → Status × Option Target → Status × ThreadContext × Option Target
cross_by c target (ok, some thunk) =
    if is_x64_boundary thunk.kind
    then (not_executable, c, none)
    else (ok, cross c thunk.resolved_va, some target)
cross_by c target (e, t) = (e, c, none)

-- After the target is resolved.
unfoldable pub dispatch_to :
    TargetMap
    → Option (ℕ → Bool)
    → Bool
    → ThreadContext
    → Status × Option Target
    → Status × ThreadContext × Option Target
unfolding cfg_authorize cross_by resolve
dispatch_to map policy require_cfg c (ok, some target) =
    let cfg = if require_cfg then cfg_authorize policy (get_or c.x 11 0) else ok in
    if not (is_ok cfg)
    then (cfg, c, none)
    else if is_x64_boundary target.kind
    then cross_by c target (resolve map (get_or c.x 10 0))
    else (ok, c, some target)
dispatch_to map policy require_cfg c (e, t) = (e, c, none)

-- The status, the context after the call and the target that is stored on success.
unfoldable pub checker_dispatch :
    TargetMap → Option (ℕ → Bool) → Bool → ThreadContext → Status × ThreadContext × Option Target
unfolding is_valid dispatch_to
checker_dispatch map policy require_cfg c =
    if not (is_valid (some c)) || c.isa != isa_arm64ec
    then (invalid_argument, c, none)
    else dispatch_to map policy require_cfg c (resolve map (get_or c.x 11 0))
