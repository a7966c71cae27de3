-- ===== src/Lib.antt =====
-- GEM runs x64 and ARM64EC code of Windows programs for Wine on ARM64 hosts. This library models
-- five of its parts: the architectural context of a guest thread, with its wire format and its
-- conversions between the two instruction sets; the guest memory; the parser of ARM64X images; the
-- resolution of indirect ARM64EC calls; and the coordinator that runs mixed code on two engines.
--
-- How the parts interact. An engine runs guest code on a thread context. When control passes from
-- ARM64EC to x64 code the context is turned into an x64 view (src/gem/context_conversion.c), and
-- back on the return; a context is stored or sent in its wire format
-- (src/gem/context_serialization.c). Engines and Wine reach guest bytes through the guest memory
-- (src/gem/memory.c), and 32-bit programs through a front of it that keeps to the first 4 GiB
-- (src/gem/i386_memory.c). An indirect call of ARM64EC code is dispatched by the classification of
-- its target in the image (src/gem/arm64ec_target.c), which tells whether control stays in ARM64EC
-- code or crosses to x64. What the parser of src/gem/pe_arm64x.c answers about an image is an
-- interface of that part, the record `TargetMap`, which `map_create` fills with the parsed image.
-- The coordinator (src/gem/hybrid_runtime.c) runs a thread round by round: it gives the context to
-- the ARM64EC engine, whose broker it is, or to the x64 engine for one instruction, and moves the
-- thread between them. It asks the target map where control goes, keeps a frame for each x64 call
-- and puts a return record on the guest's stack, through a transaction of the guest memory.
--
-- Which module models which part.
--   Prelude               Boolean tests, the conditional of C, arrays as lists, binary digits.
--   Context               include/metalsharp/gem/context.h and src/gem/context.c: the record
--                         `ThreadContext`, `gem_context_initialize`, `gem_context_is_valid`.
--   Context.Words, .Wire  src/gem/context_serialization.c: `put16` to `get128`, `encode`, `decode`,
--                         `gem_context_serialize`, `gem_context_deserialize`.
--   Context.Flags, .Float src/gem/context_conversion.c: the condition flags and the
--                         floating-point words.
--   Context.X64           src/gem/context_conversion.c: `struct gem_x64_context`, materialize and
--                         commit, ARM64EC to x64 and back.
--   Context.I386          include/metalsharp/gem/i386_context.h and src/gem/i386_context.c.
--   Memory                include/metalsharp/gem/memory.h and the structs of src/gem/memory.c.
--   Memory.Rules          `range_ok`, `prot_ok`, `allowed`.
--   Memory.Table          `at`, `check`, `touch_page` and the loops over pages.
--   Memory.Backings       `new_backing`, `drop`; Memory.Counts counts the references to them.
--   Memory.Reserve, .Commit, .Release, .Protect, .Alias, .External
--                         the operations of src/gem/memory.c whose names end in `_locked`; when a
--                         reservation or a release succeeds stands in the child `Outcome` of each.
--   Memory.Access         `access_memory_locked` and its callers, and `peek_locked`.
--   Memory.Create         `gem_memory_create` and `gem_memory_destroy`.
--   Memory.Topology       the reservations of the table and each operation on them (.Operations).
--   Memory.I386           src/gem/i386_memory.c.
--   Pe                    include/metalsharp/gem/pe_arm64x.h and the structs of src/gem/pe_arm64x.c.
--   Pe.Bytes, .Span       its checked sums, its reads, and the way from addresses to file offsets.
--   Pe.Headers, .LoadConfig, .Tables, .Parse
--                         `parse_image` and its stages.
--   Pe.Find, .Classify, .Accessors
--                         the searches, `gem_pe_arm64x_classify_rva`, the accessors and the copy.
--   Target                src/gem/arm64ec_target.c: `gem_arm64ec_target_map_create`,
--                         `gem_arm64ec_target_resolve`,
--                         `gem_arm64ec_cfg_authorize`, `gem_arm64ec_checker_dispatch` and
--                         `gem_arm64ec_descriptor_resolve`.
--   Hybrid                include/metalsharp/gem/hybrid_runtime.h and the structs of
--                         src/gem/hybrid_runtime.c for `gem_hybrid_runtime_run`.
--   Hybrid.Resolve, .Records, .Frames
--                         `hybrid_resolve` to `replace_stack_record`, and the functions that push,
--                         pop, enter and finish.
--   Hybrid.Boundary       `generic_boundary`.
--   Hybrid.Run            `gem_hybrid_runtime_run`: its engines, its rounds and how it begins.
--   Hybrid.Nesting, .Steps, .Runs
--                         the frames as an automaton, each operation as a move of it, and whole runs.
--   Tests                 the theorems at small inputs.
--
-- How state is modelled. `Memory` is `struct gem_memory` together with the live backings, the
-- host's bytes and the number of allocations that succeed before one fails. A statement is a
-- function `M A` from a memory to an answer and a memory; its value `none` stands for a call of
-- `abort`, or for an access through a null or dangling pointer, so that a theorem that gives an
-- answer also says that neither happens. A failing `calloc` or `malloc` is part of the model. A
-- backing is named by the number that it got when it was allocated, and a page by its address.
-- The parser returns an `Attempt`: an image, a status, or `fault` for a read outside a buffer; its
-- arrays are the lists of their elements, and which of its allocations succeed is an argument.
-- The coordinator works on a `Machine`: its runtime, the thread's context and a memory of any type,
-- with the calls of src/gem/memory.c in the record `GuestOps`. The engines are the record `Engines`: a
-- call of the ARM64EC engine is a tree of its questions to the broker, and both may change the
-- context and the memory at will. `Engines` also says before which rounds another thread asks for a
-- stop.
-- Numbers are natural numbers, with `% 2 ^ w` written where the source wraps around and the
-- operation is not known to stay in range.
--
-- Bounds and fuel. The loops over a range have the number of their rounds as an argument, computed
-- as the loop counts them. The search of `reserve_locked` for a free page has 2 ^ 52 rounds, one
-- for each page of the 64-bit space, and the search for a 32-bit range has a round for each
-- candidate up to the last one that fits. A resolution has one round more than the image has
-- redirections, as in the source, which takes a longer chain for malformed. The loop of
-- `gem_hybrid_runtime_run`, endless in the source, has fuel: a round of x64 code uses an instruction
-- of the budget, and at most three rounds of ARM64EC code that use none come before the next one.
-- That a single call of an engine ends is taken for granted, as its tree of questions is finite. The
-- generation counter may not reach 2 ^ 64, where the source aborts; a theorem that needs it has it
-- as a hypothesis.
--
-- What is not modelled. The hash index of the page table (the table is searched by address), the
-- locks and stripes of src/gem/memory.c and with them the null test of the memory pointer, and its
-- transactions, of which the coordinator takes what it calls as an interface; the loader of ARM64X
-- images, the engines and the Wine bridge. Of src/gem/hybrid_runtime.c, the older entry points for
-- integer calls (`gem_hybrid_runtime_run_integer_roundtrip` to `gem_hybrid_runtime_run_integer_nested`
-- with `hybrid_boundary`), creation and destruction. The translators Dynarmic and Blink are
-- third-party programs. Whether the host's storage can be read is asked of the operating system:
-- the peek takes that test as an argument.
pub mod Prelude
pub mod Context
pub mod Memory
pub mod Pe
pub mod Target
pub mod Hybrid
mod Tests
