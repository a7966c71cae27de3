-- ===== src/Memory/Table.antt =====
-- src/gem/memory.c: finding, changing and checking the pages of the table.
pub mod Laws
pub mod Loops
pub mod Check
use metal_sharp_wine_runtime.Prelude.{
  ℕ, zero, suc, ◌+◌, ◌/◌, ◌%◌, ◌^◌, Bool, true, false, ◌&&◌, not, Option, none, some, List, [], ◌∷◌,
  ◌==◌, if◌then◌else◌,
}
use metal_sharp_wine_runtime.Memory.{
  Error, ok, invalid_argument, not_reserved, not_committed, Page, Memory, M, ◌>>=◌, ◌>>◌, pure,
  stop, page_size,
}
use metal_sharp_wine_runtime.Memory.Rules.{range_ok}

-- The page of an address, `none` for a null pointer.
unfoldable pub at : List Page → ℕ → Option Page
at [] a = none
at (p ∷ ps) a = if p.address == a then some p else at ps a

unfoldable pub is_mapped : List Page → ℕ → Bool
is_mapped ps a = elim (at ps a) [ none ↦ false | some _ ↦ true ]

unfoldable pub has_backing : Page → Bool
has_backing p = elim (p.backing) [ none ↦ false | some _ ↦ true ]

-- Assignments through the page pointer of an address.
unfoldable pub set_page : ℕ → (Page → Page) → List Page → List Page
set_page a f [] = []
set_page a f (p ∷ ps) = if p.address == a then f p ∷ ps else p ∷ set_page a f ps

-- `at(m, a)->...`
unfoldable pub page_at : ℕ → M Page
page_at a m = elim (at m.pages a) [ none ↦ none | some p ↦ some (p, m) ]

unfoldable pub update : ℕ → (Page → Page) → M (Unit {0})
update a f m = elim (at m.pages a) [
  | none ↦ none
  | some _ ↦ some (tt, record m { pages = set_page a f m.pages })
]

-- `++memory->next_generation`, and `abort` if it wraps to zero.
unfoldable pub next_generation : M ℕ
next_generation m =
    let g = (m.next_generation + 1) % 2 ^ 64 in
    if g == 0 then none else some (g, record m { next_generation = g })

unfoldable pub touch_page : ℕ → M (Unit {0})
unfolding next_generation update
touch_page a = do g ← next_generation; update a (λ p. record p { generation = g })

-- The loop of `check`, with the rounds left.
unfoldable pub check_pages : List Page → ℕ → ℕ → Bool → Error
unfolding has_backing
check_pages ps zero a committed = ok
check_pages ps (suc left) a committed =
    let rest = check_pages ps left (a + page_size) committed in
    elim (at ps a) [
      | none ↦ not_reserved
      | some p ↦ if committed && not (has_backing p) then not_committed else rest
    ]

unfoldable pub check : List Page → ℕ → ℕ → Bool → Error
check ps a n committed =
    if not (range_ok a n) then invalid_argument else check_pages ps (n / page_size) a committed
