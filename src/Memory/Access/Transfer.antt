-- ===== src/Memory/Access/Transfer.antt =====
-- src/gem/memory.c: the moving of the bytes in `access_memory_locked`, and its callers.
use metal_sharp_wine_runtime.Prelude.{
  ℕ, ◌+◌, ◌-◌, ◌/◌, ◌%◌, Bool, true, false, ◌&&◌, ◌||◌, not, Option, none, some, List, [], ◌∷◌,
  ◌++◌, ◌==◌, ◌!=◌, ltb, if◌then◌else◌, take, drop, map,
}
use metal_sharp_wine_runtime.Memory.{
  Error, ok, invalid_argument, overflow, no_memory, M, ◌>>=◌, ◌>>◌, pure, stop, allocate,
}
use metal_sharp_wine_runtime.Memory.Rules.{u64_max}
use metal_sharp_wine_runtime.Memory.Table.{page_at, touch_page}
use metal_sharp_wine_runtime.Memory.Access.{
  piece, Lookup, found, refused, find_pages, find_guard, hit_guard, backing_of, load, store,
  touch_backing,
}
use metal_sharp_wine_runtime.Memory.Access.Copies.{make_copies, clear_guards, own_pages}

-- The backing number of a page that has one.
unfoldable pub backing_id : Option ℕ → M ℕ
backing_id none m = none
backing_id (some id) m = some (id, m)

-- One round of the last loop in a write, with the bytes for this page.
unfoldable pub write_page : ℕ → ℕ → List ℕ → M (Unit {0})
unfolding page_at backing_id store touch_backing touch_page
write_page q offset bytes = do
  p ← page_at q
  id ← backing_id p.backing
  store id offset bytes
  touch_backing id
  touch_page q

-- The last loop in a write, with the address `a + done` and the bytes left of the buffer.
unfoldable pub write_pages : List ℕ → ℕ → ℕ → List ℕ → M (Unit {0})
unfolding write_page
write_pages [] cur left bytes m = some (tt, m)
write_pages (q ∷ qs) cur left bytes m =
    let z = piece cur left in
    elim (write_page q (cur % 4096) (take z bytes) m) [
      | none ↦ none
      | some (_, m') ↦ write_pages qs (cur + z) (left - z) (drop z bytes) m'
    ]

unfoldable pub read_page : ℕ → ℕ → ℕ → M (List ℕ)
unfolding page_at backing_of load
read_page q offset z = do
  p ← page_at q
  b ← backing_of p.backing
  (λ m. some (load m.host b.storage offset z, m))

-- The last loop in a read: the bytes that it puts to the buffer.
unfoldable pub read_pages : List ℕ → ℕ → ℕ → M (List ℕ)
unfolding read_page
read_pages [] cur left m = some ([], m)
read_pages (q ∷ qs) cur left m =
    let z = piece cur left in
    elim (read_page q (cur % 4096) z m) [
      | none ↦ none
      | some (bytes, m') ↦ elim (read_pages qs (cur + z) (left - z) m') [
        | none ↦ none
        | some (rest, r) ↦ some (bytes ++ rest, r)
      ]
    ]

-- The buffer holds at least `n` bytes; what is behind them stays.
unfoldable pub transfer : List ℕ → ℕ → Option (List ℕ) → ℕ → Bool → M (Error × Option (List ℕ))
unfolding read_pages write_pages
transfer qs a none n true = stop
transfer qs a (some b) n true = do write_pages qs a n b; pure (ok, some b)
transfer qs a none n false = pure (ok, none)
transfer qs a (some b) n false = do bytes ← read_pages qs a n; pure (ok, some (bytes ++ drop n b))

-- The pages are made ready and the bytes are moved. `some cs` are the copies of a write.
unfoldable pub perform :
    List ℕ → ℕ → Option (List ℕ) → ℕ → Bool → Option (List (Option ℕ)) → M (Error × Option (List ℕ))
unfolding clear_guards own_pages transfer
perform qs a b n w none = pure (no_memory, b)
perform qs a b n w (some cs) = do clear_guards qs; own_pages qs cs; transfer qs a b n w

-- The copies of a write, or no copies.
unfoldable pub copies_for : List ℕ → Bool → M (Option (List (Option ℕ)))
unfolding make_copies allocate
copies_for qs false = pure (some (map (λ _. none) qs))
copies_for qs true = do array_ok ← allocate; if array_ok then make_copies qs else pure none

unfoldable pub past_lookup :
    ℕ → Option (List ℕ) → ℕ → Bool → Bool → Bool → Lookup → M (Error × Option (List ℕ))
unfolding find_guard hit_guard copies_for perform
past_lookup a b n w query consume_guard (refused e) m = some ((e, b), m)
past_lookup a b n w true consume_guard (found qs) m = some ((ok, b), m)
past_lookup a b n w false consume_guard (found qs) m = elim (find_guard m.pages qs) [
  | some q ↦ (do e ← hit_guard q consume_guard; pure (e, b)) m
  | none ↦ (do cs ← copies_for qs w; perform qs a b n w cs) m
]

unfoldable pub access :
    ℕ → Option (List ℕ) → ℕ → Bool → Bool → Bool → Bool → M (Error × Option (List ℕ))
unfolding allocate find_pages past_lookup
access a b n w x query consume_guard m =
    let no_buffer : Bool = elim b [ none ↦ true | some _ ↦ false ] in
    if (n != 0 && (no_buffer && not x)) || ltb (u64_max - n) a
    then some ((invalid_argument, b), m)
    else if n == 0
    then some ((ok, b), m)
    else if ltb (u64_max - a % 4096 - 4095) n
    then some ((overflow, b), m)
    else (do
      array_ok ← allocate
      if array_ok
          then (λ m.
              past_lookup a b n w query consume_guard
                (find_pages m.pages ((n + a % 4096 + 4095) / 4096) a n w x) m)
          else pure (no_memory, b))
        m

unfoldable pub read : ℕ → Option (List ℕ) → ℕ → M (Error × Option (List ℕ))
unfolding access
read a b n = access a b n false false false true

unfoldable pub write : ℕ → Option (List ℕ) → ℕ → M (Error × Option (List ℕ))
unfolding access
write a b n = access a b n true false false true

unfoldable pub fetch : ℕ → Option (List ℕ) → ℕ → M (Error × Option (List ℕ))
unfolding access
fetch a b n = access a b n false true false true

unfoldable pub read_deferred_guard : ℕ → Option (List ℕ) → ℕ → M (Error × Option (List ℕ))
unfolding access
read_deferred_guard a b n = access a b n false false false false

unfoldable pub write_deferred_guard : ℕ → Option (List ℕ) → ℕ → M (Error × Option (List ℕ))
unfolding access
write_deferred_guard a b n = access a b n true false false false

abbrev is_ok : Error → Bool
is_ok ok = true
is_ok e = false

unfoldable pub is_executable : ℕ → ℕ → M Bool
unfolding access
is_executable a n = do r ← access a none n false true true true; pure (is_ok r.0)
