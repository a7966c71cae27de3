-- ===== src/Hybrid.antt =====
-- src/gem/hybrid_runtime.c and include/metalsharp/gem/hybrid_runtime.h: the coordinator that runs a
-- thread of mixed ARM64EC and x64 code on two engines. The state of its data; the operations are in
-- the modules below. The two engines and the transactions of the guest memory are interfaces.
pub mod Records
pub mod Resolve
pub mod Frames
pub mod Boundary
pub mod Run
pub mod Nesting
pub mod Steps
pub mod Runs
use metal_sharp_wine_runtime.Prelude.{
  ℕ, ◌+◌, ◌%◌, ◌^◌, Bool, true, false, Option, none, some, List, ◌==◌, if◌then◌else◌,
}
use metal_sharp_wine_runtime.Context.{ThreadContext}
use metal_sharp_wine_runtime.Target.{Status, Target, TargetMap}

-- `enum hybrid_generic_stage`
pub data Stage : Type 0 where
  idle arm x64 arm_callback : Stage

-- `enum hybrid_generic_callback`
pub data Callback : Type 0 where
  callback_none callback_call callback_tail : Callback

-- `struct hybrid_generic_frame`
pub record Frame : Type 0 where
  pub cookie : ℕ
  pub arm_resume_pc : ℕ
  pub arm_resume_sp : ℕ
  pub prior_original_x64_sp : ℕ
  pub record_address : ℕ
  pub old_record : ℕ
  pub callback_resume_pc : ℕ
  pub callback_pre_call_sp : ℕ
  pub callback_arm_entry_sp : ℕ
  pub callback_prior_original_x64_sp : ℕ
  pub callback : Callback
  pub record_written : Bool
  pub resume_arm_callback : Bool
  pub callback_nested : Bool

-- `memset` of a frame to zero
abbrev pub zero_frame : Frame
zero_frame = record {
  cookie = 0;
  arm_resume_pc = 0;
  arm_resume_sp = 0;
  prior_original_x64_sp = 0;
  record_address = 0;
  old_record = 0;
  callback_resume_pc = 0;
  callback_pre_call_sp = 0;
  callback_arm_entry_sp = 0;
  callback_prior_original_x64_sp = 0;
  callback = callback_none;
  record_written = false;
  resume_arm_callback = false;
  callback_nested = false;
}

-- `struct hybrid_generic_state`; `outer` and `inner` are `frames[0]` and `frames[1]`.
pub record GenericState : Type 0 where
  pub outer : Frame
  pub inner : Frame
  pub stage : Stage
  pub depth : ℕ
  pub native_return_pc : ℕ
  pub pending_x64_target : ℕ
  pub pending_arm_resume_pc : ℕ
  pub pending_arm_resume_sp : ℕ
  pub active : Bool
  pub pending_dispatch : Bool
  pub pending_callback_return : Bool
  pub pending_native_return : Bool
  pub boundary_failure : ℕ

abbrev pub zero_generic : GenericState
zero_generic = record {
  outer = zero_frame;
  inner = zero_frame;
  stage = idle;
  depth = 0;
  native_return_pc = 0;
  pending_x64_target = 0;
  pending_arm_resume_pc = 0;
  pending_arm_resume_sp = 0;
  active = false;
  pending_dispatch = false;
  pending_callback_return = false;
  pending_native_return = false;
  boundary_failure = 0;
}

-- `struct gem_hybrid_roundtrip_stats`
pub record Stats : Type 0 where
  pub arm64ec_instructions_retired : ℕ
  pub x64_instructions_retired : ℕ
  pub checker_boundaries : ℕ
  pub dispatch_call_boundaries : ℕ
  pub x64_to_arm64ec_boundaries : ℕ
  pub descriptor_resolutions : ℕ
  pub dispatch_ret_boundaries : ℕ
  pub frame_pushes : ℕ
  pub frame_pops : ℕ
  pub maximum_frame_depth : ℕ
  pub final_frame_depth : ℕ

abbrev pub zero_stats : Stats
zero_stats = record {
  arm64ec_instructions_retired = 0;
  x64_instructions_retired = 0;
  checker_boundaries = 0;
  dispatch_call_boundaries = 0;
  x64_to_arm64ec_boundaries = 0;
  descriptor_resolutions = 0;
  dispatch_ret_boundaries = 0;
  frame_pushes = 0;
  frame_pops = 0;
  maximum_frame_depth = 0;
  final_frame_depth = 0;
}

-- `++` of a counter of 64 bits
abbrev pub increment : ℕ → ℕ
increment n = (n + 1) % 2 ^ 64

-- `struct gem_arm64ec_stop_info` and `struct gem_x64_stop_info`, which have the same members
pub record EngineStop : Type 0 where
  pub reason : ℕ
  pub instructions_retired : ℕ
  pub fault_address : ℕ
  pub access : ℕ
  pub memory_error : ℕ
  pub engine_status : ℕ

abbrev pub zero_stop : EngineStop
zero_stop = record {
  reason = 0;
  instructions_retired = 0;
  fault_address = 0;
  access = 0;
  memory_error = 0;
  engine_status = 0;
}

-- `enum gem_hybrid_stop_source`
pub data StopSource : Type 0 where
  source_broker source_arm64ec source_x64 : StopSource

-- `struct gem_hybrid_stop_info`
pub record StopInfo : Type 0 where
  pub reason : ℕ
  pub source : StopSource
  pub arm64ec : EngineStop
  pub x64 : EngineStop

abbrev pub zero_stop_info : StopInfo
zero_stop_info = record { reason = 0; source = source_broker; arm64ec = zero_stop; x64 = zero_stop }

-- `struct gem_hybrid_runtime_config`, as far as the coordinator reads it. The delivery is whether
-- it is `GEM_ARM64EC_BOUNDARY_SVC_TRAP`; the resolver is `none` for a null pointer.
pub record RuntimeConfig : Type 0 where
  pub svc_trap : Bool
  pub checker_helper : ℕ
  pub dispatch_call_helper : ℕ
  pub dispatch_jump_helper : ℕ
  pub dispatch_ret_helper : ℕ
  pub x64_return_sentinel : ℕ
  pub host_return_sentinel : ℕ
  pub max_budget : ℕ
  pub target_resolver : Option (ℕ → Status × Option Target)

-- `struct gem_hybrid_runtime`, without the members of the older entry points.
pub record HybridRuntime : Type 0 where
  pub map : TargetMap
  pub config : RuntimeConfig
  pub stats : Stats
  pub last_stop : StopInfo
  pub generation : ℕ
  pub running : Bool
  pub generic : GenericState
  pub async_stop_requested : Bool

-- The runtime with the thread's context and the guest memory that it works on.
pub record Machine (Mem : Type 0) : Type 0 where
  pub runtime : HybridRuntime
  pub context : ThreadContext
  pub memory : Mem

-- What the coordinator calls of src/gem/memory.c: `gem_memory_read`, whose bytes are `none` after an
-- error; a transaction's snapshot of a page, its bytes and its protection; and the commit of a page
-- that the transaction has a snapshot of. Both are `none` after an error.
pub record GuestOps (Mem : Type 0) : Type 0 where
  pub read_bytes : Mem → ℕ → ℕ → Option (List ℕ) × Mem
  pub snapshot_page : Mem → ℕ → Option (List ℕ × ℕ)
  pub commit_page : Mem → ℕ → List ℕ → Option Mem

-- `enum gem_stop_reason`
abbrev pub stop_none : ℕ
stop_none = 0

abbrev pub stop_arch_transition : ℕ
stop_arch_transition = 2

abbrev pub stop_host_return : ℕ
stop_host_return = 3

abbrev pub stop_async_request : ℕ
stop_async_request = 6

abbrev pub stop_budget_expired : ℕ
stop_budget_expired = 8
