-- ===== src/Tests/HybridTests.antt =====
-- src/gem/hybrid_runtime.c: ARM64EC code calls x64 code that retires two instructions and returns.
use metal_sharp_wine_runtime.Prelude.{
  ℕ, zero, suc, ◌-◌, ◌/◌, ◌≡◌, refl, true, false, Option, none, some, List, [], ◌==◌, if◌then◌else◌,
  set, replicate, take, drop, arith,
}
use metal_sharp_wine_runtime.Context.{ThreadContext, isa_arm64ec}
use metal_sharp_wine_runtime.Target.{Status, ok, Target, arm64ec, x64_boundary}
use metal_sharp_wine_runtime.Hybrid.{
  arm, x64, zero_generic, zero_stats, zero_stop, zero_stop_info, Machine, GuestOps,
  stop_arch_transition, stop_host_return, stop_budget_expired,
}
use metal_sharp_wine_runtime.Hybrid.Nesting.Invariant.{Nested, inactive}
use metal_sharp_wine_runtime.Hybrid.Run.{ArmRun, arm_stopped, X64Run, Engines}
use metal_sharp_wine_runtime.Hybrid.Records.{replace_stack_record}
use metal_sharp_wine_runtime.Hybrid.Frames.{generic_push_x64, generic_pop_x64}
use metal_sharp_wine_runtime.Hybrid.Frames.RoundTrip.{generic_pop_x64-generic_push_x64, IsBack}
use metal_sharp_wine_runtime.Hybrid.Frames.Callbacks.{
  read_record, generic_enter_callback, generic_finish_callback,
}
use metal_sharp_wine_runtime.Hybrid.Frames.CallbackReturn.{
  generic_finish_callback-generic_enter_callback, IsResumed,
}
use metal_sharp_wine_runtime.Hybrid.Run.Entry.{hybrid_run}
use metal_sharp_wine_runtime.Hybrid.Steps.{shape_of}
use metal_sharp_wine_runtime.Hybrid.Runs.Ends.{hybrid_run_returns}
use metal_sharp_wine_runtime.Hybrid.Runs.Nesting.{hybrid_run-Nested}
use metal_sharp_wine_runtime.Tests.ContextTests.{guest}

-- x64 code is at 0x2000 to 0x2fff.
abbrev pub target_at : ℕ → Status × Option Target
target_at va = (
  ok,
  some (record {
    requested_va = va;
    resolved_va = va;
    requested_rva = va;
    resolved_rva = va;
    kind = if va / 4096 == 2 then x64_boundary else arm64ec;
    redirection_hops = 0;
  }),
)

-- The memory is the page of the stack.
abbrev pub stack_ops : GuestOps (List ℕ)
stack_ops = record {
  read_bytes = λ m address n.
      (some (if address / 4096 == 8 then take n (drop (address - 0x8000) m) else replicate n 0), m);
  snapshot_page = λ m address. if address == 0x8000 then some (m, 4) else none;
  commit_page = λ m address bytes. if address == 0x8000 then some bytes else none;
}

abbrev pub entry : ThreadContext
entry = record guest {
  isa = isa_arm64ec;
  pc = 0x1000;
  sp = 0x8010;
  x = set guest.x 30 0x1100;
  stop_reason = 0;
}

abbrev pub idle_machine : Machine (List ℕ)
idle_machine = record {
  runtime = record {
    map = record {
      classify_rva = λ rva. none;
      redirection_count = 0;
      size_of_image = 0x1000;
      loaded_base = 0x1000;
      loaded_end = 0x2000;
    };
    config = record {
      svc_trap = false;
      checker_helper = 0x5000;
      dispatch_call_helper = 0x5010;
      dispatch_jump_helper = 0x5020;
      dispatch_ret_helper = 0x5030;
      x64_return_sentinel = 0x6000;
      host_return_sentinel = 0x6010;
      max_budget = 100;
      target_resolver = some target_at;
    };
    stats = zero_stats;
    last_stop = zero_stop_info;
    generation = 0;
    running = false;
    generic = zero_generic;
    async_stop_requested = false;
  };
  context = entry;
  memory = replicate 4096 7;
}

-- The first call of the ARM64EC engine stops at the x64 code, and the next one at the budget's end.
abbrev arm_engine : ℕ → ThreadContext → List ℕ → ArmRun (List ℕ)
arm_engine zero c m =
    arm_stopped stop_arch_transition
      (some (record zero_stop { reason = stop_arch_transition; instructions_retired = 1 }))
      (record c { pc = 0x2000 }) m
arm_engine (suc i) c m =
    arm_stopped stop_budget_expired
      (some (record zero_stop { reason = stop_budget_expired; instructions_retired = 1 })) c m

-- The first instruction goes to the next one, and the second one returns to the sentinel.
abbrev x64_engine : ℕ → ThreadContext → List ℕ → X64Run (List ℕ)
x64_engine (suc zero) c m = record {
  reason = stop_budget_expired;
  last_stop = some (record zero_stop { reason = stop_budget_expired; instructions_retired = 1 });
  was_ret = false;
  was_call = false;
  context = record c { pc = 0x2004 };
  memory = m;
}
x64_engine i c m = record {
  reason = stop_host_return;
  last_stop = some (record zero_stop { reason = stop_host_return; instructions_retired = 1 });
  was_ret = true;
  was_call = false;
  context = record c { pc = 0x6000; sp = 0x8010 };
  memory = m;
}

abbrev engines : Engines (List ℕ)
engines = record {
  set_return_pc = λ i pc. true;
  arm_run = λ i pc budget c m. arm_engine i c m;
  x64_run = x64_engine;
  stop_requested = λ i. false;
}

abbrev run_of : Option (ℕ × Machine (List ℕ)) → ℕ × Machine (List ℕ)
run_of none = (0, idle_machine)
run_of (some r) = r

-- With two instructions the run stops inside the x64 code.
abbrev stopped_inside : ℕ × Machine (List ℕ)
stopped_inside = run_of (hybrid_run stack_ops engines 40 idle_machine 2)

stopped_inside_ran : hybrid_run stack_ops engines 40 idle_machine 2 ≡ some stopped_inside
unfolding hybrid_run
stopped_inside_ran = refl

stopped_inside_shape :
    (stopped_inside.0 ≡ stop_budget_expired)
    × ((shape_of stopped_inside.1).stage ≡ x64)
    × ((shape_of stopped_inside.1).depth ≡ 1)
unfolding hybrid_run
stopped_inside_shape = (refl, refl, refl)

hybrid_run_returns_example :
    (result : ℕ × Machine (List ℕ)) × (hybrid_run stack_ops engines 40 idle_machine 9 ≡ some result)
hybrid_run_returns_example = hybrid_run_returns stack_ops engines 40 idle_machine 9 (omega arith)

hybrid_run-Nested_example : Nested (shape_of stopped_inside.1)
hybrid_run-Nested_example =
    hybrid_run-Nested stack_ops engines 40 idle_machine 2 stopped_inside (inactive refl refl)
      stopped_inside_ran

abbrev calling : Machine (List ℕ)
calling = record idle_machine {
  runtime = record idle_machine.runtime {
    generic = record zero_generic { active = true; stage = arm; native_return_pc = 0x1100 };
  };
}

abbrev called : Machine (List ℕ)
called = (generic_push_x64 stack_ops calling 0x2000 0x1004 0x8010).1

-- The x64 code has returned to the sentinel.
abbrev returned : Machine (List ℕ)
returned = record called { context = record called.context { sp = 0x8010; pc = 0x6000 } }

abbrev stack_of : Option (ℕ × List ℕ) → List ℕ
stack_of none = []
stack_of (some (old, m)) = m

abbrev restored : List ℕ
restored = stack_of (replace_stack_record stack_ops returned.memory 0x8008 0x0707070707070707)

generic_pop_x64-generic_push_x64_example :
    (back : Machine (List ℕ)) × (generic_pop_x64 stack_ops returned ≡ (true, back))
    × IsBack calling 0x1004 0x8010 restored back
generic_pop_x64-generic_push_x64_example =
    generic_pop_x64-generic_push_x64 stack_ops calling called returned 0x2000 0x1004 0x8010
      0x0707070707070707 0x6000 called.memory restored (unfold generic_push_x64 in refl)
      (omega arith) (unfold generic_push_x64 replace_stack_record in refl) refl refl
      (unfold generic_push_x64 replace_stack_record in refl)

-- The stack holds what it held before the call.
restored_stack : restored ≡ calling.memory
unfolding generic_push_x64 replace_stack_record
restored_stack = refl

-- The x64 code calls ARM64EC code at 0x3004.
abbrev calling_out : Machine (List ℕ)
calling_out = record called { context = record called.context { sp = 0x8000; pc = 0x3004 } }

abbrev callback_target : Target
callback_target = record {
  requested_va = 0x3004;
  resolved_va = 0x3004;
  requested_rva = 0x3004;
  resolved_rva = 0x3004;
  kind = arm64ec;
  redirection_hops = 0;
}

abbrev inside : Machine (List ℕ)
inside = (generic_enter_callback stack_ops calling_out callback_target 0x8008 true).1

-- The ARM64EC code has moved its program counter.
abbrev finishing : Machine (List ℕ)
finishing = record inside { context = record inside.context { pc = 0x5030 } }

generic_finish_callback-generic_enter_callback_example :
    (back : Machine (List ℕ)) × (generic_finish_callback stack_ops finishing ≡ (true, back))
    × IsResumed calling_out 0x8008 0x0707070707070707 finishing.memory back
generic_finish_callback-generic_enter_callback_example =
    generic_finish_callback-generic_enter_callback stack_ops calling_out inside finishing
      callback_target 0x8008 0x0707070707070707 calling_out.memory
      (unfold generic_push_x64 generic_enter_callback in refl)
      (unfold generic_push_x64 read_record in refl) refl
