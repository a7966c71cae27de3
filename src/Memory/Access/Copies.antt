-- ===== src/Memory/Access/Copies.antt =====
-- src/gem/memory.c: the copies that `access_memory_locked` makes of pages that are copied on write.
use metal_sharp_wine_runtime.Prelude.{
  ℕ, ◌&&◌, not, Option, none, some, List, [], ◌∷◌, ◌==◌, if◌then◌else◌,
}
use metal_sharp_wine_runtime.Memory.{Page, M, ◌>>=◌, ◌>>◌, pure}
use metal_sharp_wine_runtime.Memory.Rules.{
  page_readwrite, page_writecopy, page_execute_readwrite, without_guard,
}
use metal_sharp_wine_runtime.Memory.Table.{page_at, update, touch_page}
use metal_sharp_wine_runtime.Memory.Backings.{new_owned, drop}
use metal_sharp_wine_runtime.Memory.Access.{
  clear_guard, is_write_copy, backing_of, is_external, load, store,
}

-- The entry of `copies` for a page: a fresh copy of its backing, or null. `none` if no memory was
-- given.
unfoldable pub copy_page : ℕ → M (Option (Option ℕ))
unfolding page_at backing_of is_write_copy new_owned store load
copy_page q = do
  p ← page_at q
  b ← backing_of p.backing
  if is_write_copy p && not (is_external b)
      then (do
        made ← new_owned
        elim made [
          | none ↦ pure none
          | some id ↦ (do (λ m. store id 0 (load m.host b.storage 0 4096) m); pure (some (some id)))
        ])
      else pure (some none)

-- The loop that makes the copies. After a failure those made so far are dropped, last first.
unfoldable pub make_copies : List ℕ → M (Option (List (Option ℕ)))
unfolding copy_page drop
make_copies [] m = some (some [], m)
make_copies (q ∷ qs) m = elim (copy_page q m) [
  | none ↦ none
  | some (none, m') ↦ some (none, m')
  | some (some c, m') ↦ elim (make_copies qs m') [
    | none ↦ none
    | some (none, r) ↦ elim (drop c r) [ none ↦ none | some (_, r') ↦ some (none, r') ]
    | some (some cs, r) ↦ some (some (c ∷ cs), r)
  ]
]

unfoldable pub clear_guards : List ℕ → M (Unit {0})
unfolding update
clear_guards [] m = some (tt, m)
clear_guards (q ∷ qs) m = elim (update q clear_guard m) [
  | none ↦ none
  | some (_, m') ↦ clear_guards qs m'
]

abbrev pub own_protection : Page → ℕ
own_protection p =
    if without_guard p.protection == page_writecopy then page_readwrite else page_execute_readwrite

-- What becomes of a page with its entry of `copies`.
unfoldable pub own_page : ℕ → Option ℕ → M (Unit {0})
unfolding page_at backing_of update touch_page is_write_copy drop
own_page q (some id) = do
  p ← page_at q
  drop p.backing
  update q (λ p. record p { backing = some id; protection = own_protection p })
  touch_page q
own_page q none = do
  p ← page_at q
  b ← backing_of p.backing
  if is_external b && is_write_copy p
      then update q (λ p. record p { protection = own_protection p })
      else pure tt

unfoldable pub own_pages : List ℕ → List (Option ℕ) → M (Unit {0})
unfolding own_page
own_pages [] cs m = some (tt, m)
own_pages (q ∷ qs) [] m = none
own_pages (q ∷ qs) (c ∷ cs) m = elim (own_page q c m) [
  | none ↦ none
  | some (_, m') ↦ own_pages qs cs m'
]
