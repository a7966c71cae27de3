-- ===== src/Memory/Commit.antt =====
-- src/gem/memory.c: `commit_locked` and `decommit_locked`.
pub mod Checked
use metal_sharp_wine_runtime.Prelude.{
  ℕ, zero, suc, ◌+◌, ◌/◌, Bool, true, false, not, Option, none, some, List, [], ◌∷◌, if◌then◌else◌,
}
use metal_sharp_wine_runtime.Memory.{
  Error, ok, invalid_argument, no_memory, Page, M, ◌>>=◌, ◌>>◌, pure, for_pages, allocate,
  page_size,
}
use metal_sharp_wine_runtime.Memory.Rules.{prot_ok, page_noaccess}
use metal_sharp_wine_runtime.Memory.Table.{has_backing, update, touch_page, page_at, check}
use metal_sharp_wine_runtime.Memory.Backings.{drop, new_owned}

-- Runs the rest of an operation if the check before it found nothing.
abbrev pub checked : Error → M Error → M Error
checked ok rest m = rest m
checked e rest m = some (e, m)

-- The array `bs` after the first loop, and whether every allocation was given. At a page that
-- has a backing, and after a failure, the entries stay null.
unfoldable pub make_backings : ℕ → ℕ → M (List (Option ℕ) × Bool)
unfolding page_at new_owned has_backing
make_backings zero a m = some (([], true), m)
make_backings (suc left) a m = elim (page_at a m) [
  | none ↦ none
  | some (p, m') ↦ elim (has_backing p) [
    | true ↦ elim (make_backings left (a + page_size) m') [
      | none ↦ none
      | some ((bs, done), r) ↦ some ((none ∷ bs, done), r)
    ]
    | false ↦ elim (new_owned m') [
      | none ↦ none
      | some (none, r) ↦ some (([], false), r)
      | some (some id, m'') ↦ elim (make_backings left (a + page_size) m'') [
        | none ↦ none
        | some ((bs, done), r) ↦ some ((some id ∷ bs, done), r)
      ]
    ]
  ]
]

unfoldable pub drop_all : List (Option ℕ) → M (Unit {0})
unfolding drop
drop_all [] m = some (tt, m)
drop_all (b ∷ bs) m = elim (drop b m) [ none ↦ none | some (_, m') ↦ drop_all bs m' ]

-- `if (!p->backing) p->backing = b; p->protection = prot;`
unfoldable pub install_page : Option ℕ → ℕ → Page → Page
unfolding has_backing
install_page b prot p = record p {
  backing = if has_backing p then p.backing else b;
  protection = prot;
}

-- The second loop, over the array.
unfoldable pub install : List (Option ℕ) → ℕ → ℕ → M (Unit {0})
unfolding update touch_page install_page
install [] a prot m = some (tt, m)
install (b ∷ bs) a prot m = elim ((update a (install_page b prot) >> touch_page a) m) [
  | none ↦ none
  | some (_, m') ↦ install bs (a + page_size) prot m'
]

unfoldable pub commit_backings : ℕ → ℕ → List (Option ℕ) × Bool → M Error
unfolding drop_all install
commit_backings a prot (bs, false) = do drop_all bs; pure no_memory
commit_backings a prot (bs, true) = do install bs a prot; pure ok

unfoldable pub commit_pages : ℕ → ℕ → ℕ → M Error
unfolding make_backings commit_backings allocate
commit_pages a n prot = do
  array_ok ← allocate
  if array_ok
      then (do made ← make_backings (n / page_size) a; commit_backings a prot made)
      else pure no_memory

unfoldable pub commit : ℕ → ℕ → ℕ → M Error
unfolding commit_pages
commit a n prot m =
    checked (check m.pages a n false)
      (λ m. if not (prot_ok prot) then some (invalid_argument, m) else commit_pages a n prot m) m

unfoldable pub decommit_page : ℕ → M (Unit {0})
unfolding page_at drop update touch_page
decommit_page a = do
  p ← page_at a
  drop p.backing
  update a (λ p. record p { backing = none; protection = page_noaccess })
  touch_page a

unfoldable pub decommit : ℕ → ℕ → M Error
unfolding for_pages decommit_page
decommit a n m =
    checked (check m.pages a n false) (for_pages (n / page_size) a decommit_page >> pure ok) m
