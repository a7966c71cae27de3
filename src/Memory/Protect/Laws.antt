-- ===== src/Memory/Protect/Laws.antt =====
-- src/gem/memory.c: what `protect_locked` does to the table.
use mathlib.Core.Option
use metal_sharp_wine_runtime.Prelude.{
  ℕ, ◌+◌, ◌-◌, ◌*◌, ◌/◌, ◌^◌, ◌≤◌, ◌<◌, ◌≡◌, refl, ap, ◌∙◌, Bool, true, false, Option, none, some,
  List, if◌then◌else◌, arith,
}
use metal_sharp_wine_runtime.Memory.{Error, ok, Page, Memory, for_pages, page_size}
use metal_sharp_wine_runtime.Memory.Monad.{after}
use metal_sharp_wine_runtime.Memory.Rules.{prot_ok, u64_max}
use metal_sharp_wine_runtime.Memory.Table.{at, is_mapped, update, touch_page, page_at, check}
use metal_sharp_wine_runtime.Memory.Table.Loops.{
  Mapped, covers, loop-Turned, touch_page-Turns, update-Turns, is_mapped-eq_some, Turned-Mapped,
  Mapped-first,
}
use metal_sharp_wine_runtime.Memory.Table.Check.{check-eq_ok, check_pages-Mapped, range_ok_lem}
use metal_sharp_wine_runtime.Memory.Protect.{protect, protect_pages}

-- A page with a new protection and generation.
abbrev pub reprotect : ℕ → ℕ → Page → Page
reprotect prot g p = record p { protection = prot; generation = g }

-- The pages of the range with the new protection and a generation each, and the others as they
-- were.
pub record Protected (a n prot : ℕ) (m : Memory) (r : Option ((Error × Option ℕ) × Memory))
    : Type 0 where
  pub pages : List Page
  pub first : Page
  pub first_page : at m.pages a ≡ some first
  pub runs :
      r
      ≡ some (
        (ok, some first.protection),
        record m { pages = pages; next_generation = m.next_generation + n / page_size },
      )
  pub view :
      (q : ℕ)
      → at pages q ≡ (
          if covers (n / page_size) a q
          then Option.map
              (reprotect prot (m.next_generation + ((q - a) / page_size + 1)))
              (at m.pages q)
          else at m.pages q)

page_at_lem : (a : ℕ) (m : Memory) {p : Page} → at m.pages a ≡ some p → page_at a m ≡ some (p, m)
unfolding page_at
page_at_lem a m e = rw (e, page_at) refl

twice-map :
    {A : Type 0} (c : Bool) (f g : A → A) (o : Option A)
    → (if c
        then Option.map g (if c then Option.map f o else o)
        else (if c then Option.map f o else o))
      ≡ (if c then Option.map (λ p. g (f p)) o else o)
twice-map false f g o = refl
twice-map true f g none = refl
twice-map true f g (some a) = refl

module _ (a n prot : ℕ) (m : Memory) (fits : n ≤ u64_max) (found : check m.pages a n true ≡ ok)
    (room : m.next_generation + n / page_size < 2 ^ 64) where
  mapped : Mapped m.pages (n / page_size) a
  mapped = check_pages-Mapped m.pages (n / page_size) a true (check-eq_ok m.pages a n true found).1

  set_prot : Page → Page
  set_prot p = record p { protection = prot }

  stamp : ℕ → Page → Page
  stamp g p = record p { generation = g }

  first_mapped : is_mapped m.pages a ≡ true
  first_mapped =
      let some_page : 0 < n / page_size =
        omega (arith, range_ok_lem a n fits (check-eq_ok m.pages a n true found).0) in
      Mapped-first m.pages (n / page_size) a some_page mapped

  protect_pages-Protected : Protected a n prot m (protect_pages a n prot m)
  unfolding protect_pages set_prot stamp
  protect_pages-Protected =
      let k = n / page_size in
      let g = m.next_generation in
      let (first, found) = is_mapped-eq_some m.pages a first_mapped in
      let one =
        loop-Turned 0 (λ _. set_prot) (λ q. update q set_prot) (λ _ p. refl) (update-Turns set_prot)
          k a m mapped (omega arith) in
      let m1 : Memory = record m { pages = one.pages; next_generation = g + 0 * k } in
      let two =
        loop-Turned 1 stamp touch_page (λ _ p. refl) touch_page-Turns k a m1
          (Turned-Mapped k a one mapped) (omega arith) in
      let total : g + 0 * k + 1 * k ≡ g + k = omega arith in
      record {
        pages = two.pages;
        first = first;
        first_page = found;
        runs = after (page_at a) _ (page_at_lem a m found) (
            after (for_pages k a (λ q. update q set_prot)) _ one.runs (
              after (for_pages k a touch_page) _ two.runs (
                ap
                  (λ t. some (
                    (ok, some first.protection),
                    record m { pages = two.pages; next_generation = t },
                  ))
                  total)));
        view = λ q.
            let o = at m.pages q in
            let c = covers k a q in
            let i = (q - a) / page_size + 1 in
            let same : g + 0 * k + 1 * i ≡ g + i = omega arith in
            two.view q
            ∙ ap (λ p. if c then Option.map (stamp (g + 0 * k + 1 * i)) p else p) (one.view q)
            ∙ twice-map c set_prot (stamp (g + 0 * k + 1 * i)) o
            ∙ ap (λ t. if c then Option.map (reprotect prot t) o else o) same;
      }

-- `protect_locked` on a range that its check and the protection test accept sets the protection
-- of every page of the range, gives each a generation in order, changes nothing else and reports
-- the old protection of the first page.
pub protect-Protected :
    (a n prot : ℕ) (m : Memory)
    → n ≤ u64_max
    → m.next_generation + n / page_size < 2 ^ 64
    → check m.pages a n true ≡ ok
    → prot_ok prot ≡ true
    → Protected a n prot m (protect a n prot m)
unfolding protect
protect-Protected a n prot m fits room found good =
    rw (found, good, protect) (protect_pages-Protected a n prot m fits found room)
