-- ===== src/Hybrid/Frames.antt =====
-- src/gem/hybrid_runtime.c: the frames of the coordinator. A function that returns `bool` yields the
-- truth value and the machine afterwards.
pub mod Callbacks
pub mod Called
pub mod RoundTrip
pub mod CallbackReturn
use metal_sharp_wine_runtime.Prelude.{
  ℕ, ◌+◌, ◌-◌, ◌*◌, ◌/◌, ◌%◌, ◌^◌, Bool, true, false, ◌&&◌, ◌||◌, not, Option, none, some, ◌==◌,
  ◌!=◌, ltb, leb, if◌then◌else◌, get_or, set,
}
use metal_sharp_wine_runtime.Context.{ThreadContext, isa_arm64ec, isa_x64}
use metal_sharp_wine_runtime.Target.{Target}
use metal_sharp_wine_runtime.Hybrid.{
  Stage, idle, arm, x64, arm_callback, Callback, callback_none, callback_call, callback_tail, Frame,
  zero_frame, GenericState, Stats, increment, RuntimeConfig, HybridRuntime, Machine, GuestOps,
  stop_none,
}
use metal_sharp_wine_runtime.Hybrid.Resolve.{hybrid_resolve, x64_target}
use metal_sharp_wine_runtime.Hybrid.Records.{stack_record_supported, replace_stack_record}

-- `frames[i]`, for an index below 2
abbrev pub frame_at : ℕ → GenericState → Frame
frame_at i g = if i == 0 then g.outer else g.inner

abbrev pub set_frame : ℕ → Frame → GenericState → GenericState
set_frame i f g = if i == 0 then record g { outer = f } else record g { inner = f }

unfoldable pub generic_current_frame : GenericState → Option Frame
generic_current_frame g =
    if g.depth == 0 || ltb 2 g.depth then none else some (frame_at (g.depth - 1) g)

abbrev pub has_callback : Callback → Bool
has_callback callback_none = false
has_callback c = true

abbrev pub is_arm_callback : Stage → Bool
is_arm_callback arm_callback = true
is_arm_callback s = false

-- The frame of an ARM64EC callback learns that x64 code runs inside it.
unfoldable pub mark_nested : GenericState → Option Frame → Option GenericState
mark_nested g none = none
mark_nested g (some parent) =
    if has_callback parent.callback
    then some (set_frame (g.depth - 1) (record parent { callback_nested = true }) g)
    else none

unfoldable pub mark_parent : GenericState → Option GenericState
unfolding generic_current_frame mark_nested
mark_parent g = if is_arm_callback g.stage then mark_nested g (generic_current_frame g) else some g

abbrev pub next_cookie : ℕ → ℕ
next_cookie generation = if generation == 2 ^ 64 - 1 then 1 else generation + 1

-- The frame as it is filled before the record is written.
abbrev pub new_frame : ThreadContext → ℕ → ℕ → ℕ → Bool → Frame
new_frame c cookie arm_resume_pc arm_resume_sp resume_arm_callback = record zero_frame {
  cookie = cookie;
  arm_resume_pc = arm_resume_pc;
  arm_resume_sp = arm_resume_sp;
  prior_original_x64_sp = c.original_x64_sp;
  record_address = c.sp - 8;
  resume_arm_callback = resume_arm_callback;
}

abbrev pub cookie_of : Option Frame → ℕ
cookie_of none = 0
cookie_of (some f) = f.cookie

module _ {Mem : Type 0} where
  -- The stores after the record is written, or fails to be.
  unfoldable pub pushed :
      Machine Mem → GenericState → ℕ → Frame → ℕ → Option (ℕ × Mem) → Bool × Machine Mem
  pushed s marked cookie f target_va none = (
    false,
    record s {
      runtime = record s.runtime {
        generation = cookie;
        generic = set_frame marked.depth zero_frame marked;
      };
    },
  )
  pushed s marked cookie f target_va (some (old_record, m)) =
      let depth = marked.depth + 1 in
      let written = record f { old_record = old_record; record_written = true } in
      let stats = s.runtime.stats in
      (
        true,
        record {
          runtime = record s.runtime {
            generation = cookie;
            generic = record (set_frame marked.depth written marked) { depth = depth; stage = x64 };
            stats = record stats {
              frame_pushes = increment stats.frame_pushes;
              maximum_frame_depth =
                  if ltb stats.maximum_frame_depth depth then depth else stats.maximum_frame_depth;
            };
          };
          context = record s.context {
            sp = f.record_address;
            pc = target_va;
            isa = isa_x64;
            transition_cookie = cookie;
            stop_reason = stop_none;
          };
          memory = m;
        },
      )

  module _ (ops : GuestOps Mem) where
    -- After the tests.
    unfoldable pub push_marked : Machine Mem → ℕ → ℕ → ℕ → Option GenericState → Bool × Machine Mem
    unfolding pushed replace_stack_record
    push_marked s target_va arm_resume_pc arm_resume_sp none = (false, s)
    push_marked s target_va arm_resume_pc arm_resume_sp (some marked) =
        let cookie = next_cookie s.runtime.generation in
        let f =
          new_frame s.context cookie arm_resume_pc arm_resume_sp
            (is_arm_callback s.runtime.generic.stage) in
        pushed s marked cookie f target_va
          (replace_stack_record ops s.memory f.record_address s.runtime.config.x64_return_sentinel)

    -- After the target is resolved.
    unfoldable pub push_target : Machine Mem → ℕ → ℕ → Option Target → Bool × Machine Mem
    unfolding stack_record_supported push_marked mark_parent
    push_target s arm_resume_pc arm_resume_sp none = (false, s)
    push_target s arm_resume_pc arm_resume_sp (some target) =
        if not (stack_record_supported ops s.memory (s.context.sp - 8))
        then (false, s)
        else push_marked s target.resolved_va arm_resume_pc arm_resume_sp
            (mark_parent s.runtime.generic)

    unfoldable pub generic_push_x64 : Machine Mem → ℕ → ℕ → ℕ → Bool × Machine Mem
    unfolding push_target hybrid_resolve x64_target
    generic_push_x64 s target_va arm_resume_pc arm_resume_sp =
        if leb 2 s.runtime.generic.depth || ltb s.context.sp 8 || s.context.sp != arm_resume_sp
        then (false, s)
        else push_target s arm_resume_pc arm_resume_sp
            (x64_target (hybrid_resolve s.runtime target_va))

  -- The stores after the record is restored, or fails to be. The top frame is dropped before the
  -- cookie of the one below is read.
  unfoldable pub popped : Machine Mem → Frame → Option (ℕ × Mem) → Bool × Machine Mem
  unfolding generic_current_frame
  popped s f none = (false, s)
  popped s f (some (_, m)) =
      let g = s.runtime.generic in
      let dropped = record (set_frame (g.depth - 1) zero_frame g) { depth = g.depth - 1 } in
      let c = s.context in
      let stats = s.runtime.stats in
      (
        true,
        record {
          runtime = record s.runtime {
            generic = record dropped {
              stage = if f.resume_arm_callback then arm_callback else arm;
            };
            stats = record stats { frame_pops = increment stats.frame_pops };
          };
          context = record c {
            x = set (set c.x 0 (get_or c.x 8 0)) 18 c.teb;
            pc = f.arm_resume_pc;
            sp = f.arm_resume_sp;
            original_x64_sp = f.prior_original_x64_sp;
            isa = isa_arm64ec;
            transition_cookie = cookie_of (generic_current_frame dropped);
            stop_reason = stop_none;
          };
          memory = m;
        },
      )

  unfoldable pub generic_pop_x64 : GuestOps Mem → Machine Mem → Bool × Machine Mem
  unfolding popped replace_stack_record
  generic_pop_x64 ops s =
      if s.runtime.generic.depth == 0
      then (false, s)
      else (let f = frame_at (s.runtime.generic.depth - 1) s.runtime.generic in
          if not f.record_written || s.context.sp != (f.record_address + 8) % 2 ^ 64
          then (false, s)
          else popped s f (replace_stack_record ops s.memory f.record_address f.old_record))
