-- ===== src/Memory/Access.antt =====
-- src/gem/memory.c: `access_memory_locked`, which reads, writes and fetches bytes. A buffer is
-- `none` for a null pointer; a call returns its error code and what the buffer holds afterwards.
pub mod Copies
pub mod Transfer
pub mod Admission
pub mod Guard
pub mod Peek
use metal_sharp_wine_runtime.Prelude.{
  ℕ, zero, suc, ◌+◌, ◌-◌, ◌*◌, ◌/◌, ◌%◌, ◌^◌, Bool, true, false, ◌&&◌, ◌||◌, not, Option, none,
  some, List, [], ◌∷◌, ◌++◌, ◌==◌, ◌!=◌, ltb, leb, if◌then◌else◌, length, get_or, take, drop, map,
}
use metal_sharp_wine_runtime.Memory.{
  Error, ok, invalid_argument, overflow, no_memory, not_reserved, not_committed, access_denied,
  guard_page, Storage, owned, external, Backing, Page, Memory, M, ◌>>=◌, ◌>>◌, pure, stop, allocate,
  page_size,
}
use metal_sharp_wine_runtime.Memory.Rules.{
  u64_max, page_readwrite, page_writecopy, page_execute_readwrite, page_execute_writecopy,
  without_guard, has_guard, allowed,
}
use metal_sharp_wine_runtime.Memory.Table.{
  at, has_backing, page_at, update, next_generation, touch_page,
}
use metal_sharp_wine_runtime.Memory.Backings.{put_backing, new_owned}

-- `q = (a + done) & ~4095`
abbrev pub page_of : ℕ → ℕ
page_of cur = cur / 4096 * 4096

-- The number of bytes that an access takes from the page at hand.
abbrev pub piece : ℕ → ℕ → ℕ
piece cur left = let z = 4096 - cur % 4096 in if ltb left z then left else z

pub data Lookup : Type 0 where
  found : List ℕ → Lookup
  refused : Error → Lookup

abbrev pub with_page : ℕ → Lookup → Lookup
with_page q (found qs) = found (q ∷ qs)
with_page q (refused e) = refused e

-- The loop that finds the pages, here their addresses, with the rounds left, the address `a + done`
-- and the bytes left.
unfoldable pub find_pages : List Page → ℕ → ℕ → ℕ → Bool → Bool → Lookup
unfolding has_backing allowed
find_pages ps zero cur left w x = found []
find_pages ps (suc rounds) cur left w x =
    let z = piece cur left in
    let rest = find_pages ps rounds (cur + z) (left - z) w x in
    elim (at ps (page_of cur)) [
      | none ↦ refused not_reserved
      | some p ↦
          if not (has_backing p)
          then refused not_committed
          else if not (allowed p.protection w x)
          then refused access_denied
          else with_page (page_of cur) rest
    ]

-- The first page of the access that is guarded.
unfoldable pub find_guard : List Page → List ℕ → Option ℕ
unfolding has_guard
find_guard ps [] = none
find_guard ps (q ∷ qs) =
    let rest = find_guard ps qs in
    elim (at ps q) [ none ↦ rest | some p ↦ if has_guard p.protection then some q else rest ]

abbrev pub clear_guard : Page → Page
clear_guard p = record p { protection = without_guard p.protection }

unfoldable pub hit_guard : ℕ → Bool → M Error
unfolding update touch_page
hit_guard q consume_guard =
    if consume_guard
    then (do update q clear_guard; touch_page q; pure guard_page)
    else pure guard_page

unfoldable pub is_write_copy : Page → Bool
is_write_copy p =
    without_guard p.protection == page_writecopy
    || without_guard p.protection == page_execute_writecopy

-- `p->backing->...`
unfoldable pub backing_of : Option ℕ → M Backing
backing_of none m = none
backing_of (some id) m = elim (m.backings id) [ none ↦ none | some b ↦ some (b, m) ]

abbrev pub is_external : Backing → Bool
is_external b = elim (b.storage) [ owned _ ↦ false | external _ ↦ true ]

abbrev pub load_host : (ℕ → ℕ) → ℕ → ℕ → List ℕ
load_host host h zero = []
load_host host h (suc n) = host h ∷ load_host host (h + 1) n

-- `z` bytes of `b->data` from `o` on.
unfoldable pub load : (ℕ → ℕ) → Storage → ℕ → ℕ → List ℕ
load host (owned bytes) o z = take z (drop o bytes)
load host (external h) o z = load_host host (h + o) z

abbrev pub splice : ℕ → List ℕ → List ℕ → List ℕ
splice o new bytes = take o bytes ++ new ++ drop (o + length new) bytes

abbrev pub store_host : ℕ → List ℕ → (ℕ → ℕ) → ℕ → ℕ
store_host h new host j = if leb h j && ltb j (h + length new) then get_or new (j - h) 0 else host j

unfoldable pub store_in : ℕ → Backing → ℕ → List ℕ → Storage → Memory → Memory
unfolding put_backing
store_in id b o new (owned bytes) m =
    put_backing id (some (record b { storage = owned (splice o new bytes) })) m
store_in id b o new (external h) m = record m { host = store_host (h + o) new m.host }

-- `memcpy(b->data + o, new, z)`
unfoldable pub store : ℕ → ℕ → List ℕ → M (Unit {0})
unfolding store_in
store id o new m = elim (m.backings id) [
  | none ↦ none
  | some b ↦ some (tt, store_in id b o new b.storage m)
]

unfoldable pub touch_backing : ℕ → M (Unit {0})
unfolding next_generation put_backing
touch_backing id = do
  g ← next_generation
  (λ m. elim (m.backings id) [
    | none ↦ none
    | some b ↦ some (tt, put_backing id (some (record b { generation = some g })) m)
  ])
