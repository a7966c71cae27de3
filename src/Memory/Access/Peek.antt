-- ===== src/Memory/Access/Peek.antt =====
-- src/gem/memory.c: `peek_locked`, a read that changes nothing.
use metal_sharp_wine_runtime.Prelude.{
  ℕ, zero, suc, ◌+◌, ◌-◌, ◌/◌, ◌%◌, ◌≡◌, ◌≢◌, sym, ◌∙◌, Bool, ◌&&◌, ◌||◌, not, Option, none, some,
  List, [], ◌++◌, ◌==◌, ◌!=◌, ltb, if◌then◌else◌, drop, Bool-cases, Option-cases, inl, inr,
}
use metal_sharp_wine_runtime.Memory.{
  Error, ok, invalid_argument, not_reserved, not_committed, Backing, Memory, M, ◌>>=◌,
}
use metal_sharp_wine_runtime.Memory.Rules.{u64_max}
use metal_sharp_wine_runtime.Memory.Table.{at, page_at}
use metal_sharp_wine_runtime.Memory.Access.{page_of, piece, backing_of, is_external}
use metal_sharp_wine_runtime.Memory.Access.Transfer.{read_page}

-- `external_range_accessible` asks the operating system: whether `size` bytes from `offset` of a
-- backing can be read.
abbrev pub Accessible : Type 0
Accessible = Backing → ℕ → ℕ → Bool

-- The test of a backing that is there.
unfoldable pub peek_backing : Accessible → Memory → Option ℕ → ℕ → ℕ → Option Error
peek_backing accessible m none offset z = some not_committed
peek_backing accessible m (some id) offset z = elim (m.backings id) [
  | none ↦ none
  | some b ↦ if is_external b && not (accessible b offset z) then some not_committed else some ok
]

abbrev go_on : Option Error → Option Error → Option Error
go_on (some ok) rest = rest
go_on e rest = e

-- The first loop, with the rounds left, the address `a + done` and the bytes left.
unfoldable pub peek_check : Accessible → Memory → ℕ → ℕ → ℕ → Option Error
unfolding peek_backing
peek_check accessible m zero cur left = some ok
peek_check accessible m (suc rounds) cur left =
    let z = piece cur left in
    let rest = peek_check accessible m rounds (cur + z) (left - z) in
    elim (at m.pages (page_of cur)) [
      | none ↦ some not_reserved
      | some p ↦ go_on (peek_backing accessible m p.backing (cur % 4096) z) rest
    ]

-- The second loop.
unfoldable pub peek_bytes : ℕ → ℕ → ℕ → M (List ℕ)
unfolding read_page
peek_bytes zero cur left m = some ([], m)
peek_bytes (suc rounds) cur left m =
    let z = piece cur left in
    elim (read_page (page_of cur) (cur % 4096) z m) [
      | none ↦ none
      | some (bytes, m') ↦ elim (peek_bytes rounds (cur + z) (left - z) m') [
        | none ↦ none
        | some (rest, r) ↦ some (bytes ++ rest, r)
      ]
    ]

unfoldable pub peek_found : ℕ → List ℕ → ℕ → Option Error → M (Error × Option (List ℕ))
unfolding peek_bytes
peek_found a b n none m = none
peek_found a b n (some ok) m = elim (peek_bytes ((n + a % 4096 + 4095) / 4096) a n m) [
  | none ↦ none
  | some (bytes, m') ↦ some ((ok, some (bytes ++ drop n b)), m')
]
peek_found a b n (some e) m = some ((e, some b), m)

unfoldable pub peek : Accessible → ℕ → Option (List ℕ) → ℕ → M (Error × Option (List ℕ))
unfolding peek_check peek_found
peek accessible a none n m =
    if n != 0 || ltb (u64_max - n) a
    then some ((invalid_argument, none), m)
    else some ((ok, none), m)
peek accessible a (some b) n m =
    if ltb (u64_max - n) a
    then some ((invalid_argument, some b), m)
    else if n == 0
    then some ((ok, some b), m)
    else peek_found a b n (peek_check accessible m ((n + a % 4096 + 4095) / 4096) a n) m

-- A statement that leaves the memory as it was.
abbrev Keeps : {A : Type 0} → M A → Type 0
Keeps {A} s = (m : Memory) (a : A) (m' : Memory) → s m ≡ some (a, m') → m' ≡ m

bind-Keeps :
    {A B : Type 0} (s : M A) (f : A → M B) → Keeps s → ((a : A) → Keeps (f a)) → Keeps (s >>= f)
bind-Keeps s f hs hf m b m' e = elim (Option-cases (s m)) [
  | inl stopped ↦ absurd (cc (rw (stopped, ◌>>=◌) at e))
  | inr ((a, m1), ran) ↦
      let e' : f a m1 ≡ some (b, m') = rw (ran, ◌>>=◌) at e in hf a m1 b m' e' ∙ hs m a m1 ran
]

page_at-Keeps : (q : ℕ) → Keeps (page_at q)
unfolding page_at
page_at-Keeps q m p m' e = elim (Option-cases (at m.pages q)) [
  | inl gone ↦ absurd (cc (rw (gone, page_at) at e))
  | inr (p', found) ↦ let e' : some (p', m) ≡ some (p, m') = rw (found, page_at) at e in cc e'
]

backing_of-Keeps : (o : Option ℕ) → Keeps (backing_of o)
unfolding backing_of
backing_of-Keeps none m b m' e = absurd (cc e)
backing_of-Keeps (some id) m b m' e = elim (Option-cases (m.backings id)) [
  | inl gone ↦ absurd (cc (rw (gone, backing_of) at e))
  | inr (b', found) ↦ let e' : some (b', m) ≡ some (b, m') = rw (found, backing_of) at e in cc e'
]

read_page-Keeps : (q o z : ℕ) → Keeps (read_page q o z)
unfolding read_page
read_page-Keeps q o z =
    bind-Keeps (page_at q) _ (page_at-Keeps q)
      λ p. bind-Keeps (backing_of p.backing) _ (backing_of-Keeps p.backing) λ b m bytes m' e. cc e

peek_bytes-Keeps : (rounds cur left : ℕ) → Keeps (peek_bytes rounds cur left)
unfolding peek_bytes
peek_bytes-Keeps zero cur left m bytes m' e = cc e
peek_bytes-Keeps (suc rounds) cur left m bytes m' e =
    let z = piece cur left in
    elim (Option-cases (read_page (page_of cur) (cur % 4096) z m)) [
      | inl stopped ↦ absurd (cc (rw (stopped, peek_bytes) at e))
      | inr ((first, m1), ran) ↦ elim (Option-cases (peek_bytes rounds (cur + z) (left - z) m1)) [
        | inl stopped ↦ absurd (cc (rw stopped at (rw (ran, peek_bytes) at e)))
        | inr ((rest, m2), ran') ↦
            let e1 = rw (ran, peek_bytes) at e in
            let e2 : some (first ++ rest, m2) ≡ some (bytes, m') = rw ran' at e1 in
            let same : m2 ≡ m' = cc e2 in
            sym same
            ∙ peek_bytes-Keeps rounds (cur + z) (left - z) m1 rest m2 ran'
            ∙ read_page-Keeps (page_of cur) (cur % 4096) z m first m1 ran
      ]
    ]

-- What a peek leaves: the memory as it was, and after a failure the buffer too.
pub record Peeked (b : Option (List ℕ)) (m : Memory) (e : Error) (b' : Option (List ℕ))
    (m' : Memory) : Type 0 where
  pub memory_kept : m' ≡ m
  pub buffer_kept : e ≢ ok → b' ≡ b

peek_found-Peeked :
    (a : ℕ) (b : List ℕ) (n : ℕ) (answer : Option Error) (m : Memory) (e : Error)
    (b' : Option (List ℕ)) (m' : Memory)
    → peek_found a b n answer m ≡ some ((e, b'), m')
    → Peeked (some b) m e b' m'
unfolding peek_found
peek_found-Peeked a b n none m e b' m' h = absurd (cc h)
peek_found-Peeked a b n (some ok) m e b' m' h =
    elim (Option-cases (peek_bytes ((n + a % 4096 + 4095) / 4096) a n m)) [
      | inl stopped ↦ absurd (cc (rw (stopped, peek_found) at h))
      | inr ((bytes, m1), ran) ↦
          let h' : some ((ok, some (bytes ++ drop n b)), m1) ≡ some ((e, b'), m') =
            rw (ran, peek_found) at h in
          let fine : ok ≡ e = cc h' in
          let same : m1 ≡ m' = cc h' in
          record {
            memory_kept =
                sym same ∙ peek_bytes-Keeps ((n + a % 4096 + 4095) / 4096) a n m bytes m1 ran;
            buffer_kept = λ bad. absurd (bad (sym fine));
          }
    ]
peek_found-Peeked a b n (some _) m e b' m' h = record {
  memory_kept = cc h;
  buffer_kept = λ bad. cc h;
}

-- `gem_memory_peek`, whatever its answer is, leaves the memory as it was, its guards and generations
-- included, and when it fails the caller's buffer is unchanged.
pub peek-Peeked :
    (accessible : Accessible) (a : ℕ) (b : Option (List ℕ)) (n : ℕ) (m : Memory) (e : Error)
    (b' : Option (List ℕ)) (m' : Memory)
    → peek accessible a b n m ≡ some ((e, b'), m')
    → Peeked b m e b' m'
unfolding peek
peek-Peeked accessible a none n m e b' m' h = elim (Bool-cases (n != 0 || ltb (u64_max - n) a)) [
  | inl bad ↦
      let h' = rw (bad, peek) at h in record { memory_kept = cc h'; buffer_kept = λ _. cc h' }
  | inr good ↦
      let h' = rw (good, peek) at h in record { memory_kept = cc h'; buffer_kept = λ _. cc h' }
]
peek-Peeked accessible a (some b) n m e b' m' h = elim (Bool-cases (ltb (u64_max - n) a)) [
  | inl bad ↦
      let h' = rw (bad, peek) at h in record { memory_kept = cc h'; buffer_kept = λ _. cc h' }
  | inr good ↦ elim (Bool-cases (n == 0)) [
    | inl empty ↦
        let h' = rw (good, empty, peek) at h in
        record { memory_kept = cc h'; buffer_kept = λ _. cc h' }
    | inr some_bytes ↦ peek_found-Peeked a b n _ m e b' m' (rw (good, some_bytes, peek) at h)
  ]
]
