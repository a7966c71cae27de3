-- ===== src/Context/Wire.antt =====
-- src/gem/context_serialization.c: the little-endian wire form of a thread context.
-- A length is the `size_t` argument, apart from the list that holds the caller's buffer, and
-- `none` is a null pointer.

pub mod RoundTrip
pub mod Total
use metal_sharp_wine_runtime.Prelude.{
  ℕ, ◌-◌, Bool, true, false, ◌||◌, not, Option, none, some, List, ◌++◌, ◌==◌, ◌!=◌, ltb,
  if◌then◌else◌, length, drop,
}
use metal_sharp_wine_runtime.Context.{
  ThreadContext, is_valid, layout_version_v1, thread_context_size_v1, stop_invariant_violation,
}
use metal_sharp_wine_runtime.Context.Words.{
  put16, put32, put64, put64s, put128s, Reader, ◌>>=◌, pure, get16, get32, get64, get64s, get128s,
}

abbrev pub wire_magic : ℕ
wire_magic = 0x314d4547

abbrev pub wire_header_size_v1 : ℕ
wire_header_size_v1 = 20

abbrev pub wire_size_v1 : ℕ
wire_size_v1 = 740

abbrev pub serialization_version : ℕ
serialization_version = 1

unfoldable pub serialized_size : ℕ → ℕ
serialized_size version = if version == serialization_version then wire_size_v1 else 0

unfoldable pub encode : ThreadContext → List ℕ
encode c =
    put32 c.layout_version
    ++ (put32 c.context_size
        ++ (put64s c.x
            ++ (put64 c.sp
                ++ (put64 c.pc
                    ++ (put32 c.nzcv
                        ++ (put32 c.fpcr
                            ++ (put32 c.fpsr
                                ++ (put32 c.reserved0
                                    ++ (put128s c.v
                                        ++ (put64 c.x64_rflags
                                            ++ (put32 c.x64_mxcsr
                                                ++ (put16 c.x64_fcw
                                                    ++ (put16 c.x64_fsw
                                                        ++ (put128s c.x87
                                                            ++ (put64 c.teb
                                                            ++ (put64 c.original_x64_sp
                                                            ++ (put64 c.transition_cookie
                                                            ++ (put32 c.isa
                                                            ++ put32 c.stop_reason))))))))))))))))))

unfoldable pub decode : Reader ThreadContext
decode = do
  layout_version ← get32
  context_size ← get32
  x ← get64s 31
  sp ← get64
  pc ← get64
  nzcv ← get32
  fpcr ← get32
  fpsr ← get32
  reserved0 ← get32
  v ← get128s 16
  x64_rflags ← get64
  x64_mxcsr ← get32
  x64_fcw ← get16
  x64_fsw ← get16
  x87 ← get128s 8
  teb ← get64
  original_x64_sp ← get64
  transition_cookie ← get64
  isa ← get32
  stop_reason ← get32
  pure (record {
    layout_version = layout_version;
    context_size = context_size;
    x = x;
    sp = sp;
    pc = pc;
    nzcv = nzcv;
    fpcr = fpcr;
    fpsr = fpsr;
    reserved0 = reserved0;
    v = v;
    x64_rflags = x64_rflags;
    x64_mxcsr = x64_mxcsr;
    x64_fcw = x64_fcw;
    x64_fsw = x64_fsw;
    x87 = x87;
    teb = teb;
    original_x64_sp = original_x64_sp;
    transition_cookie = transition_cookie;
    isa = isa;
    stop_reason = stop_reason;
  })

-- The five words in front of the context.
unfoldable pub wire_header : List ℕ
wire_header =
    put32 wire_magic
    ++ (put32 serialization_version
        ++ (put32 wire_header_size_v1 ++ (put32 layout_version_v1 ++ put32 thread_context_size_v1)))

-- The return value, the caller's buffer and `*written`.
pub record Written : Type 0 where
  pub succeeded : Bool
  pub buffer : Option (List ℕ)
  pub written : ℕ

-- What the two functions ask of a context beyond `gem_context_is_valid`.
unfoldable pub out_of_range : ThreadContext → Bool
out_of_range c = c.reserved0 != 0 || ltb stop_invariant_violation c.stop_reason

store : ThreadContext → List ℕ → Written
store c buffer =
    let bytes = wire_header ++ encode c in
    record {
      succeeded = true;
      buffer = some (bytes ++ drop (length bytes) buffer);
      written = length bytes;
    }

unfoldable pub serialize : Option ThreadContext → Option (List ℕ) → ℕ → Written
unfolding store
serialize none b n = record { succeeded = false; buffer = b; written = 0 }
serialize (some c) none n = record { succeeded = false; buffer = none; written = 0 }
serialize (some c) (some b) n =
    if not (is_valid (some c)) || (out_of_range c || ltb n wire_size_v1)
    then record { succeeded = false; buffer = some b; written = 0 }
    else store c b

-- The header words are read in order, up to the first that differs.
unfoldable pub header_matches : Reader Bool
header_matches = do
  magic ← get32
  version ← get32
  header_size ← get32
  layout ← get32
  size ← get32
  pure (
      not (
        magic != wire_magic
        || (version != serialization_version
            || (header_size != wire_header_size_v1
                || (layout != layout_version_v1 || size != thread_context_size_v1)))))

-- The caller's context, if the call succeeded, and `*read`.
pub record ReadBack : Type 0 where
  pub result : Option ThreadContext
  pub read : ℕ

pub data Outcome : Type 0 where
  returned : ReadBack → Outcome
  -- A read past the end of the buffer.
  fault : Outcome

abbrev pub refused : Outcome
refused = returned (record { result = none; read = 0 })

accept : ThreadContext → ℕ → Outcome
accept c count =
    if not (is_valid (some c)) || out_of_range c
    then refused
    else returned (record { result = some c; read = count })

-- `*c` is written on success only. `p - b` is what the readers have consumed.
after_decode : List ℕ → Option (ThreadContext × List ℕ) → Outcome
after_decode b none = fault
after_decode b (some (c, q)) = accept c (length b - length q)

after_header : List ℕ → Option (Bool × List ℕ) → Outcome
after_header b none = fault
after_header b (some (false, p)) = refused
after_header b (some (true, p)) = after_decode b (decode p)

parse : List ℕ → Outcome
unfolding after_header after_decode accept
parse b = after_header b (header_matches b)

-- The context argument is false for a null pointer.
unfoldable pub deserialize : Bool → Option (List ℕ) → ℕ → Outcome
unfolding parse
deserialize false b n = refused
deserialize true none n = refused
deserialize true (some b) n = if n != wire_size_v1 then refused else parse b
