-- ===== src/Memory/Release/Remove.antt =====
-- src/gem/memory.c: `remove_pages` and `release_locked`.
use metal_sharp_wine_runtime.Prelude.{
  ℕ, ◌+◌, ◌≤◌, ◌<◌, ◌≡◌, ◌∙◌, ◌≢◌, ◌⊎◌, refl, true, false, ◌&&◌, ◌||◌, Option, none, some, List, [],
  ◌∷◌, ◌!=◌, leb, ltb, if◌then◌else◌, arith, Bool-cases, inl, inr,
}
use metal_sharp_wine_runtime.Memory.{Error, ok, invalid_argument, Backing, Page, Memory, ◌>>◌, pure}
use metal_sharp_wine_runtime.Memory.Monad.{after}
use metal_sharp_wine_runtime.Memory.Table.{at, page_at, check}
use metal_sharp_wine_runtime.Memory.Counts.{points_at, count, Balanced, Balanced-cong, drop-Dropped}
use metal_sharp_wine_runtime.Memory.Commit.Checked.{checked_refused}
use metal_sharp_wine_runtime.Memory.Release.{
  in_range, remove_from, remove_pages, release_from, release,
}

-- The pages that stay.
unfoldable pub kept : ℕ → ℕ → List Page → List Page
kept a n [] = []
kept a n (p ∷ ps) = if in_range a n p then kept a n ps else p ∷ kept a n ps

-- The pages outside of `[a, a + n)` are found as before, and none inside.
pub at-kept :
    (a n : ℕ) (ps : List Page) (q : ℕ)
    → at (kept a n ps) q ≡ (if leb a q && ltb q (a + n) then none else at ps q)
unfolding at kept
at-kept a n [] q = ground arith
at-kept a n (p ∷ ps) q = ground (arith, at-kept a n ps q)

-- The walk keeps the right pages, and every backing keeps the references of the pages that stay.
pub record Removed (a n : ℕ) (ps : List Page) (pins : ℕ → ℕ) (m : Memory)
    (r : Option (List Page × Memory)) : Type 0 where
  pub backings : ℕ → Option Backing
  pub runs : r ≡ some (kept a n ps, record m { backings = backings })
  pub balanced :
      Balanced (λ id. count id (kept a n ps) + pins id) (record m { backings = backings })

count-kept_outside :
    (id a n : ℕ) (p : Page) (ps : List Page)
    → in_range a n p ≡ false
    → count id (kept a n (p ∷ ps)) ≡ points_at id p.backing + count id (kept a n ps)
unfolding kept count
count-kept_outside id a n p ps outside = rw (outside, kept) refl

remove_from-Removed :
    (a n : ℕ) (ps : List Page) (pins : ℕ → ℕ) (m : Memory)
    → Balanced (λ id. count id ps + pins id) m
    → Removed a n ps pins m (remove_from a n ps m)
unfolding remove_from kept count
remove_from-Removed a n [] pins m h = record { backings = m.backings; runs = refl; balanced = h }
remove_from-Removed a n (p ∷ ps) pins m h = elim (Bool-cases (in_range a n p)) [
  | inl inside ↦
      let d =
        drop-Dropped (λ id. count id (p ∷ ps) + pins id) (λ id. count id ps + pins id) m p.backing
          (λ id. omega arith) h in
      let rest = remove_from-Removed a n ps pins (record m { backings = d.backings }) d.balanced in
      record {
        backings = rest.backings;
        runs = rw (inside, remove_from, kept) (rw (d.runs, remove_from) rest.runs);
        balanced = rw (inside, kept) rest.balanced;
      }
  | inr outside ↦
      let pins' : ℕ → ℕ = λ id. points_at id p.backing + pins id in
      let rest = remove_from-Removed a n ps pins' m (
        Balanced-cong (λ id. count id (p ∷ ps) + pins id) (λ id. count id ps + pins' id) m
          (λ id. omega arith) h) in
      record {
        backings = rest.backings;
        runs = rw (outside, remove_from, kept) (rw (rest.runs, remove_from) refl);
        balanced =
            Balanced-cong (λ id. count id (kept a n ps) + pins' id)
              (λ id. count id (kept a n (p ∷ ps)) + pins id) (record m { backings = rest.backings })
              (λ id. omega (arith, count-kept_outside id a n p ps outside)) rest.balanced;
      }
]

-- A balanced memory: `pins` are the references that are held outside of the table.
abbrev pub IsBalanced : (ℕ → ℕ) → Memory → Type 0
IsBalanced pins m = Balanced (λ id. count id m.pages + pins id) m

-- The state after a removal: the pages that stay, and backings that balance with them.
pub record Taken (a n : ℕ) (pins : ℕ → ℕ) (m : Memory) (r : Option (Error × Memory)) : Type 0 where
  pub backings : ℕ → Option Backing
  pub runs : r ≡ some (ok, record m { pages = kept a n m.pages; backings = backings })
  pub balanced :
      Balanced
        (λ id. count id (kept a n m.pages) + pins id)
        (record m { pages = kept a n m.pages; backings = backings })

pub remove_pages-Taken :
    (a n : ℕ) (pins : ℕ → ℕ) (m : Memory)
    → IsBalanced pins m
    → Taken a n pins m ((do remove_pages a n; pure ok) m)
unfolding remove_pages
remove_pages-Taken a n pins m h =
    let removed = remove_from-Removed a n m.pages pins m h in
    let ran : remove_pages a n m
        ≡ some (tt, record m { pages = kept a n m.pages; backings = removed.backings }) =
      rw (removed.runs, remove_pages) refl in
    record {
      backings = removed.backings;
      runs = after (remove_pages a n) _ ran refl;
      balanced = record {
        refs = removed.balanced.refs;
        live = removed.balanced.live;
        unused = removed.balanced.unused;
      };
    }

pub page_at_lem :
    (a : ℕ) (m : Memory) {p : Page} → at m.pages a ≡ some p → page_at a m ≡ some (p, m)
unfolding page_at
page_at_lem a m e = rw (e, page_at) refl

-- The state after a whole reservation is released: no page from `a` up to `a + n`, every other page as
-- before, and every backing with as many references as are left to it.
pub record Released (a n : ℕ) (pins : ℕ → ℕ) (m : Memory) (r : Option (Error × Memory))
    : Type 0 where
  pub pages : List Page
  pub backings : ℕ → Option Backing
  pub runs : r ≡ some (ok, record m { pages = pages; backings = backings })
  pub gone : (q : ℕ) → a ≤ q → q < a + n → at pages q ≡ none
  pub others : (q : ℕ) → (q < a) ⊎ (a + n ≤ q) → at pages q ≡ at m.pages q
  pub balanced : IsBalanced pins (record m { pages = pages; backings = backings })

Taken-Released :
    (a n : ℕ) (pins : ℕ → ℕ) (m : Memory) {r : Option (Error × Memory)}
    → Taken a n pins m r
    → Released a n pins m r
Taken-Released a n pins m d = record {
  pages = kept a n m.pages;
  backings = d.backings;
  runs = d.runs;
  gone = λ q above below.
      let inside : (leb a q && ltb q (a + n)) ≡ true = ground arith in
      at-kept a n m.pages q ∙ rw inside refl;
  others = λ q away.
      let outside : (leb a q && ltb q (a + n)) ≡ false = ground arith in
      at-kept a n m.pages q ∙ rw outside refl;
  balanced = record { refs = d.balanced.refs; live = d.balanced.live; unused = d.balanced.unused };
}

-- `release_locked` of a whole reservation that the range check accepts, given by its first page,
-- takes out every page from the address on, up to the size, leaves every other page as it was, and
-- drops the references of those that it took: nothing is freed that another page stands on.
pub release-Released :
    (a n : ℕ) (pins : ℕ → ℕ) (m : Memory) (p : Page)
    → IsBalanced pins m
    → check m.pages a n false ≡ ok
    → at m.pages a ≡ some p
    → p.reservation_base ≡ a
    → p.reservation_size ≡ n
    → Released a n pins m (release a n m)
unfolding release release_from
release-Released a n pins m p h found first base size =
    let whole : (a != p.reservation_base || n != p.reservation_size) ≡ false = ground arith in
    let step : release a n m ≡ (do remove_pages a n; pure ok) m =
      rw (found, release)
        (after (page_at a) _ (page_at_lem a m first) (rw (whole, release_from) refl)) in
    rw step (Taken-Released a n pins m (remove_pages-Taken a n pins m h))

-- The two refusals of `release_locked`.
pub release_refused :
    (a n : ℕ) (m : Memory)
    → (check m.pages a n false ≢ ok → release a n m ≡ some (check m.pages a n false, m))
      × ((p : Page)
          → check m.pages a n false ≡ ok
          → at m.pages a ≡ some p
          → (p.reservation_base ≢ a) ⊎ (p.reservation_size ≢ n)
          → release a n m ≡ some (invalid_argument, m))
unfolding release release_from
release_refused a n m = (
  λ bad. checked_refused (check m.pages a n false) _ m bad,
  λ p found first part.
      rw (found, release)
        (after (page_at a) _ (page_at_lem a m first) (rw (partial a n p part, release_from) refl)),
)
  where
    partial :
        (a n : ℕ) (p : Page)
        → (p.reservation_base ≢ a) ⊎ (p.reservation_size ≢ n)
        → (a != p.reservation_base || n != p.reservation_size) ≡ true
    partial a n p part = ground arith
