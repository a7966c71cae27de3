-- ===== src/Hybrid/Frames/Callbacks.antt =====
-- src/gem/hybrid_runtime.c: callbacks of x64 code into ARM64EC code, and how a run begins and ends.
use metal_sharp_wine_runtime.Prelude.{
  ℕ, ◌+◌, ◌-◌, ◌*◌, ◌/◌, ◌%◌, ◌^◌, Bool, true, false, ◌||◌, Option, none, some, List, ◌!=◌, ltb,
  if◌then◌else◌, set,
}
use metal_sharp_wine_runtime.Context.{isa_arm64ec, isa_x64}
use metal_sharp_wine_runtime.Target.{Status, Target}
use metal_sharp_wine_runtime.Hybrid.{
  x64, arm_callback, Callback, callback_none, callback_call, callback_tail, Frame, GenericState,
  increment, Machine, GuestOps, stop_none,
}
use metal_sharp_wine_runtime.Hybrid.Resolve.{arm_target, hybrid_descriptor_resolve}
use metal_sharp_wine_runtime.Hybrid.Records.{word_at}
use metal_sharp_wine_runtime.Hybrid.Frames.{
  set_frame, generic_current_frame, has_callback, generic_pop_x64,
}

abbrev pub with_current : GenericState → Frame → GenericState
with_current g f = set_frame (g.depth - 1) f g

module _ {Mem : Type 0} where
  abbrev pub with_generic : Machine Mem → GenericState → Machine Mem
  with_generic s g = record s { runtime = record s.runtime { generic = g } }

  -- The stores at the end of `generic_enter_callback`.
  unfoldable pub callback_entered : Machine Mem → Frame → ℕ → ℕ → ℕ → Machine Mem
  callback_entered s f original_x64_sp target_va thunk_va =
      let c = s.context in
      let stats = s.runtime.stats in
      let arm_entry_sp = original_x64_sp / 16 * 16 in
      let filled = record f {
        callback_pre_call_sp = original_x64_sp;
        callback_arm_entry_sp = arm_entry_sp;
        callback_prior_original_x64_sp = c.original_x64_sp;
      } in
      record s {
        runtime = record s.runtime {
          generic = record (with_current s.runtime.generic filled) { stage = arm_callback };
          stats = record stats {
            x64_to_arm64ec_boundaries = increment stats.x64_to_arm64ec_boundaries;
            descriptor_resolutions = increment stats.descriptor_resolutions;
          };
        };
        context = record c {
          x =
              set (set (set (set c.x 30 f.callback_resume_pc) 4 original_x64_sp) 9 target_va) 18
                c.teb;
          original_x64_sp = original_x64_sp;
          sp = arm_entry_sp;
          pc = thunk_va;
          isa = isa_arm64ec;
          stop_reason = stop_none;
        };
      }

  -- After the thunk is resolved; a frame whose callback could not be entered has none. The stack
  -- pointer of a tail transfer stays moved.
  unfoldable pub entered_by :
      Machine Mem → Frame → ℕ → ℕ → (Status × Option Target) × Mem → Bool × Machine Mem
  unfolding callback_entered arm_target
  entered_by s f original_x64_sp target_va (answer, m) = elim (arm_target answer) [
    | none ↦ (
      false,
      record (with_generic s
          (with_current s.runtime.generic (record f { callback = callback_none }))) { memory = m },
    )
    | some thunk ↦ (
      true,
      callback_entered (record s { memory = m }) f original_x64_sp target_va thunk.resolved_va,
    )
  ]

  abbrev pub record_of : Option (List ℕ) × Mem → Option ℕ × Mem
  record_of (none, m) = (none, m)
  record_of (some bytes, m) = (some (word_at 0 bytes), m)

  module _ (ops : GuestOps Mem) where
    -- The 8 bytes at the stack pointer.
    unfoldable pub read_record : Mem → ℕ → Option ℕ × Mem
    unfolding word_at
    read_record m address = record_of (ops.read_bytes m address 8)

    -- A call: the record is the return address that it pushed.
    unfoldable pub enter_by_call : Machine Mem → Frame → ℕ → ℕ → Option ℕ × Mem → Bool × Machine Mem
    unfolding entered_by hybrid_descriptor_resolve
    enter_by_call s f target_va pre_step_sp (none, m) = (false, record s { memory = m })
    enter_by_call s f target_va pre_step_sp (some return_pc, m) =
        let called = record f { callback = callback_call; callback_resume_pc = return_pc } in
        entered_by s called pre_step_sp target_va
          (hybrid_descriptor_resolve ops s.runtime (target_va - 4) m)

    -- A jump: the record is the one that the coordinator pushed.
    unfoldable pub enter_by_tail : Machine Mem → Frame → ℕ → Option ℕ × Mem → Bool × Machine Mem
    unfolding entered_by hybrid_descriptor_resolve
    enter_by_tail s f target_va (none, m) = (false, record s { memory = m })
    enter_by_tail s f target_va (some return_pc, m) =
        let sentinel = s.runtime.config.x64_return_sentinel in
        let original_x64_sp = (s.context.sp + 8) % 2 ^ 64 in
        let called = record f { callback = callback_tail; callback_resume_pc = sentinel } in
        if return_pc != sentinel
        then (false, record s { memory = m })
        else entered_by (record s { context = record s.context { sp = original_x64_sp } }) called
            original_x64_sp target_va (hybrid_descriptor_resolve ops s.runtime (target_va - 4) m)

    -- After the current frame is found.
    unfoldable pub enter_in : Machine Mem → ℕ → ℕ → Bool → Option Frame → Bool × Machine Mem
    unfolding read_record enter_by_call enter_by_tail
    enter_in s target_va pre_step_sp was_call none = (false, s)
    enter_in s target_va pre_step_sp was_call (some f) =
        if has_callback f.callback || ltb target_va 4
        then (false, s)
        else if was_call
        then (if ltb pre_step_sp 8 || s.context.sp != pre_step_sp - 8
            then (false, s)
            else enter_by_call s f target_va pre_step_sp (read_record s.memory s.context.sp))
        else if s.context.sp != f.record_address
        then (false, s)
        else enter_by_tail s f target_va (read_record s.memory s.context.sp)

    unfoldable pub generic_enter_callback : Machine Mem → Target → ℕ → Bool → Bool × Machine Mem
    unfolding enter_in generic_current_frame
    generic_enter_callback s target pre_step_sp was_call =
        enter_in s target.resolved_va pre_step_sp was_call (generic_current_frame s.runtime.generic)

    -- A callback that was called goes back to its caller.
    unfoldable pub finished_call : Machine Mem → Frame → Machine Mem
    finished_call s f =
        let cleared = record f {
          callback = callback_none;
          callback_resume_pc = 0;
          callback_pre_call_sp = 0;
          callback_arm_entry_sp = 0;
          callback_prior_original_x64_sp = 0;
        } in
        record s {
          runtime = record s.runtime {
            generic = record (with_current s.runtime.generic cleared) { stage = x64 };
          };
          context = record s.context {
            pc = f.callback_resume_pc;
            sp = f.callback_pre_call_sp;
            original_x64_sp = f.callback_prior_original_x64_sp;
            isa = isa_x64;
            transition_cookie = f.cookie;
            stop_reason = stop_none;
          };
        }

    unfoldable pub finish_kind : Machine Mem → Frame → Callback → Bool × Machine Mem
    unfolding finished_call generic_pop_x64
    finish_kind s f callback_none = (false, s)
    finish_kind s f callback_call = (true, finished_call s f)
    finish_kind s f callback_tail =
        generic_pop_x64 ops
          (record s { context = record s.context { sp = (f.record_address + 8) % 2 ^ 64 } })

    -- After the current frame is found.
    unfoldable pub finish_in : Machine Mem → Option Frame → Bool × Machine Mem
    unfolding finish_kind
    finish_in s none = (false, s)
    finish_in s (some f) =
        if has_callback f.callback
        then finish_kind
            (with_generic s (record s.runtime.generic { pending_callback_return = false })) f
            f.callback
        else (false, s)

    unfoldable pub generic_finish_callback : Machine Mem → Bool × Machine Mem
    unfolding finish_in generic_current_frame
    generic_finish_callback s = finish_in s (generic_current_frame s.runtime.generic)
