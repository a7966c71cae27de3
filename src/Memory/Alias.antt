-- ===== src/Memory/Alias.antt =====
-- src/gem/memory.c: `alias_locked`, a second range of pages over the backings of a first.
use metal_sharp_wine_runtime.Prelude.{
  ℕ, zero, suc, ◌+◌, ◌/◌, Bool, true, false, ◌||◌, not, Option, none, some, List, [], ◌∷◌,
  if◌then◌else◌,
}
use metal_sharp_wine_runtime.Memory.{
  Error, ok, invalid_argument, no_memory, conflict, Page, M, ◌>>=◌, ◌>>◌, pure, stop, allocate,
  page_size,
}
use metal_sharp_wine_runtime.Memory.Rules.{range_ok, prot_ok}
use metal_sharp_wine_runtime.Memory.Table.{page_at, next_generation, check}
use metal_sharp_wine_runtime.Memory.Backings.{drop, retain}
use metal_sharp_wine_runtime.Memory.Reserve.{any_mapped}
use metal_sharp_wine_runtime.Memory.Commit.{checked}

abbrev pub alias_page : ℕ → ℕ → ℕ → ℕ → ℕ → ℕ → Page
alias_page base n prot a id g = record {
  address = a;
  reservation_base = base;
  reservation_size = n;
  backing = some id;
  protection = prot;
  generation = g;
}

-- `++p->backing->refs`, where the pointer may be null, and the backing.
unfoldable pub share : Option ℕ → M ℕ
unfolding retain
share none = stop
share (some id) = do retain id; pure id

-- One new page over the backing of the page at `s`.
unfoldable pub alias_one : (ℕ → ℕ → ℕ → Page) → ℕ → ℕ → M Page
unfolding page_at share next_generation
alias_one page a s = do
  source ← page_at s
  id ← share source.backing
  g ← next_generation
  pure (page a id g)

-- The loop that makes the pages, newest first as in `head`, and whether it came to its end.
unfoldable pub make_aliases : ℕ → ℕ → ℕ → (ℕ → ℕ → ℕ → Page) → List Page → M (List Page × Bool)
unfolding allocate alias_one
make_aliases zero a s page head m = some ((head, true), m)
make_aliases (suc left) a s page head m = elim (allocate m) [
  | none ↦ none
  | some (false, m') ↦ some ((head, false), m')
  | some (true, m') ↦ elim (alias_one page a s m') [
    | none ↦ none
    | some (p, m'') ↦ make_aliases left (a + page_size) (s + page_size) page (p ∷ head) m''
  ]
]

unfoldable pub drop_pages : List Page → M (Unit {0})
unfolding drop
drop_pages [] m = some (tt, m)
drop_pages (p ∷ ps) m = elim (drop p.backing m) [ none ↦ none | some (_, m') ↦ drop_pages ps m' ]

-- The loop that moves each page from `head` to the front of the table.
unfoldable pub link_head : List Page → List Page → List Page
link_head [] pages = pages
link_head (p ∷ head) pages = link_head head (p ∷ pages)

unfoldable pub finish_alias : List Page × Bool → M Error
unfolding drop_pages link_head
finish_alias (head, false) m = (do drop_pages head; pure no_memory) m
finish_alias (head, true) m = some (ok, record m { pages = link_head head m.pages })

unfoldable pub alias_pages : ℕ → ℕ → ℕ → ℕ → M Error
unfolding make_aliases finish_alias
alias_pages a s n prot m =
    if any_mapped m.pages (n / page_size) a
    then some (conflict, m)
    else (do made ← make_aliases (n / page_size) a s (alias_page a n prot) []; finish_alias made) m

unfoldable pub alias : ℕ → ℕ → ℕ → ℕ → M Error
unfolding alias_pages
alias a s n prot m =
    if not (range_ok a n) || not (prot_ok prot)
    then some (invalid_argument, m)
    else checked (check m.pages s n true) (alias_pages a s n prot) m
