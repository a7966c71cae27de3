-- ===== src/Memory/Release.antt =====
-- src/gem/memory.c: `remove_pages`, `release_locked` and `unmap_locked`.
pub mod Remove
pub mod Outcome
use metal_sharp_wine_runtime.Prelude.{
  ℕ, zero, suc, ◌+◌, ◌-◌, ◌/◌, ◌%◌, ◌^◌, Bool, true, false, ◌&&◌, ◌||◌, not, none, some, List, [],
  ◌∷◌, ◌!=◌, leb, ltb, if◌then◌else◌,
}
use metal_sharp_wine_runtime.Memory.{
  Error, ok, invalid_argument, Page, M, ◌>>=◌, ◌>>◌, pure, for_pages, page_size,
}
use metal_sharp_wine_runtime.Memory.Table.{update, page_at, check}
use metal_sharp_wine_runtime.Memory.Backings.{drop}
use metal_sharp_wine_runtime.Memory.Commit.{checked}

abbrev pub in_range : ℕ → ℕ → Page → Bool
in_range a n p = leb a p.address && ltb p.address (a + n)

-- The walk over the linked list; it yields the pages that stay.
unfoldable pub remove_from : ℕ → ℕ → List Page → M (List Page)
unfolding drop
remove_from a n [] m = some ([], m)
remove_from a n (p ∷ ps) m = elim (in_range a n p) [
  | true ↦ elim (drop p.backing m) [ none ↦ none | some (_, m') ↦ remove_from a n ps m' ]
  | false ↦ elim (remove_from a n ps m) [ none ↦ none | some (rest, m') ↦ some (p ∷ rest, m') ]
]

unfoldable pub remove_pages : ℕ → ℕ → M (Unit {0})
unfolding remove_from
remove_pages a n m = elim (remove_from a n m.pages m) [
  | none ↦ none
  | some (rest, m') ↦ some (tt, record m' { pages = rest })
]

unfoldable pub release_from : ℕ → ℕ → Page → M Error
unfolding remove_pages
release_from a n p =
    if a != p.reservation_base || n != p.reservation_size
    then pure invalid_argument
    else (do remove_pages a n; pure ok)

unfoldable pub release : ℕ → ℕ → M Error
unfolding page_at release_from
release a n m = checked (check m.pages a n false) (do p ← page_at a; release_from a n p) m

-- The loop that compares the reservations of the range, with the rounds left.
unfoldable pub same_reservation : ℕ → ℕ → ℕ → ℕ → M Bool
unfolding page_at
same_reservation zero a base size m = some (true, m)
same_reservation (suc left) a base size m = elim (page_at a m) [
  | none ↦ none
  | some (p, m') ↦ elim (p.reservation_base != base || p.reservation_size != size) [
    | true ↦ some (false, m')
    | false ↦ same_reservation left (a + page_size) base size m'
  ]
]

-- The loops that give the pages before and behind the range reservations of their own. They run
-- while the offset is below the end, so their rounds are rounded up.
unfoldable pub set_reservations : ℕ → ℕ → ℕ → ℕ → M (Unit {0})
unfolding for_pages update
set_reservations from to base size =
    for_pages ((to - from + (page_size - 1)) / page_size) from
      (λ q. update q (λ p. record p { reservation_base = base; reservation_size = size }))

unfoldable pub unmap_from : ℕ → ℕ → Page → M Error
unfolding same_reservation set_reservations remove_pages
unmap_from a n first =
    let base = first.reservation_base in
    let reservation_end = (base + first.reservation_size) % 2 ^ 64 in
    let end = a + n in
    if ltb a base || ltb reservation_end end then pure invalid_argument else (do
      same ← same_reservation (n / page_size) a base first.reservation_size
      if not same then pure invalid_argument else (do
        set_reservations base a base (a - base)
        set_reservations end reservation_end end (reservation_end - end)
        remove_pages a n
        pure ok))

unfoldable pub unmap : ℕ → ℕ → M Error
unfolding page_at unmap_from
unmap a n m = checked (check m.pages a n false) (do p ← page_at a; unmap_from a n p) m
