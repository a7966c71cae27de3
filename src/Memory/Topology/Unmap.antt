-- ===== src/Memory/Topology/Unmap.antt =====
-- src/gem/memory.c: `unmap_locked` takes a part out of a reservation and leaves what is before and
-- behind it as reservations of their own.
use mathlib.Core.Option
use metal_sharp_wine_runtime.Prelude.{
  ℕ, ◌+◌, ◌-◌, ◌*◌, ◌/◌, ◌%◌, ◌^◌, ◌≤◌, ◌<◌, ◌≡◌, refl, ap, sym, ◌∙◌, Bool, true, false, ◌&&◌, ◌||◌,
  Option, none, some, List, leb, ltb, if◌then◌else◌, arith,
}
use metal_sharp_wine_runtime.Memory.{Error, ok, Backing, Page, Memory, page_size}
use metal_sharp_wine_runtime.Memory.Monad.{after}
use metal_sharp_wine_runtime.Memory.Rules.{u64_max}
use metal_sharp_wine_runtime.Memory.Table.{at, check, page_at, update}
use metal_sharp_wine_runtime.Memory.Table.Loops.{
  covers, Mapped, Turned, Turned-Mapped, loop-Turned, update-Turns,
}
use metal_sharp_wine_runtime.Memory.Table.Check.{range_ok_lem, check-eq_ok}
use metal_sharp_wine_runtime.Memory.Counts.{count, Balanced-cong, Balanced-pages}
use metal_sharp_wine_runtime.Memory.Release.{set_reservations, same_reservation, unmap_from, unmap}
use metal_sharp_wine_runtime.Memory.Release.Remove.{
  kept, at-kept, IsBalanced, remove_pages-Taken, page_at_lem,
}
use metal_sharp_wine_runtime.Memory.Topology.{Span, span_of, spans, IsPlaced, IsTopology}
use metal_sharp_wine_runtime.Memory.Topology.Spanned.{
  Spanned, Spanned-Mapped, Spanned-part, same_reservation-Spanned,
}

-- A page that is given another reservation.
abbrev pub resized : ℕ → ℕ → Page → Page
resized base size p = record p { reservation_base = base; reservation_size = size }

set_reservations-Turned :
    (from to base size : ℕ) (m : Memory)
    → from ≤ to
    → (to - from) % page_size ≡ 0
    → m.next_generation < 2 ^ 64
    → Mapped m.pages ((to - from) / page_size) from
    → Turned 0
        ((to - from) / page_size)
        from
        (λ _. resized base size)
        m
        (set_reservations from to base size m)
unfolding set_reservations
set_reservations-Turned from to base size m le whole room mapped =
    let rounds : (to - from + (page_size - 1)) / page_size ≡ (to - from) / page_size =
      omega arith in
    rw rounds (
      loop-Turned 0 (λ _. resized base size) (λ q. update q (resized base size)) (λ g p. refl)
        (update-Turns (resized base size)) ((to - from) / page_size) from m mapped (omega arith))

-- The state after the range `[a, a + n)` of the reservation `s` is taken out: no page in the range,
-- the pages before and behind it in reservations of their own, all else as before, and every
-- backing with as many references as pages that stand on it.
pub record Unmapped (a n : ℕ) (s : Span) (pins : ℕ → ℕ) (m : Memory) (r : Option (Error × Memory))
    : Type 0 where
  pub pages : List Page
  pub backings : ℕ → Option Backing
  pub runs : r ≡ some (ok, record m { pages = pages; backings = backings })
  pub view :
      (q : ℕ)
      → at pages q ≡ (
          if leb a q && ltb q (a + n)
          then none
          else if covers ((s.base + s.size - (a + n)) / page_size) (a + n) q
          then Option.map (resized (a + n) (s.base + s.size - (a + n))) (at m.pages q)
          else if covers ((a - s.base) / page_size) s.base q
          then Option.map (resized s.base (a - s.base)) (at m.pages q)
          else at m.pages q)
  pub balanced : IsBalanced pins (record m { pages = pages; backings = backings })

-- The generations that loops without a new one leave.
settle :
    (m : Memory) (ps : List Page) (bs : ℕ → Option Backing) (j k : ℕ)
    → ◌≡◌ {A = Option (Error × Memory)}
        (some (
          ok,
          record m {
            pages = ps;
            backings = bs;
            next_generation = m.next_generation + 0 * j + 0 * k;
          },
        ))
        (some (ok, record m { pages = ps; backings = bs }))
settle m ps bs j k =
    ap (λ g. some (ok, record m { pages = ps; backings = bs; next_generation = g })) (omega arith)

view_of_loops :
    (c1 c2 c3 : Bool) (f g : Page → Page) (x y z w : Option Page)
    → x ≡ (if c1 then none else y)
    → y ≡ (if c2 then Option.map g z else z)
    → z ≡ (if c3 then Option.map f w else w)
    → (c2 ≡ true → c3 ≡ false)
    → x ≡ (if c1 then none else if c2 then Option.map g w else if c3 then Option.map f w else w)
view_of_loops c1 c2 c3 f g x y z w e1 e2 e3 apart = ground arith

module _ (a n : ℕ) (p : Page) (pins : ℕ → ℕ) (m : Memory) (balanced : IsBalanced pins m)
    (topology : IsTopology (spans m.pages)) (found : at m.pages a ≡ some p)
    (room : m.next_generation < 2 ^ 64) (whole : n % page_size ≡ 0)
    (inside : a + n ≤ p.reservation_base + p.reservation_size) where
  in_place : IsPlaced a (span_of p)
  in_place = topology.placed a (span_of p) (ap (Option.map span_of) found)

  part_Spanned :
      (k b : ℕ)
      → b % page_size ≡ 0
      → p.reservation_base ≤ b
      → b + k * page_size ≤ p.reservation_base + p.reservation_size
      → Spanned m.pages k b (span_of p)
  part_Spanned k b = Spanned-part m.pages a k b (span_of p) topology (ap (Option.map span_of) found)

  pub unmap_from-Unmapped : Unmapped a n (span_of p) pins m (unmap_from a n p m)
  unfolding unmap_from
  unmap_from-Unmapped =
      let placed = in_place in
      let base = p.reservation_base in
      let reservation_end = base + p.reservation_size in
      let end = a + n in
      let before =
        set_reservations-Turned base a base (a - base) m placed.above (omega (arith, placed)) room (
          Spanned-Mapped m.pages ((a - base) / page_size) base (span_of p) (
            part_Spanned ((a - base) / page_size) base placed.base_aligned (omega arith)
              (omega (arith, placed)))) in
      let m1 : Memory = record m {
        pages = before.pages;
        next_generation = m.next_generation + 0 * ((a - base) / page_size);
      } in
      let behind =
        set_reservations-Turned end reservation_end end (reservation_end - end) m1 inside
          (omega (arith, placed)) (omega arith)
          (Turned-Mapped ((reservation_end - end) / page_size) end before (
            Spanned-Mapped m.pages ((reservation_end - end) / page_size) end (span_of p) (
              part_Spanned ((reservation_end - end) / page_size) end (omega (arith, placed))
                (omega (arith, placed)) (omega (arith, placed))))) in
      let m2 : Memory = record m1 {
        pages = behind.pages;
        next_generation = m1.next_generation + 0 * ((reservation_end - end) / page_size);
      } in
      let balanced' : IsBalanced pins m2 =
        Balanced-pages (λ id. count id behind.pages + pins id) m behind.pages m2.next_generation
          (Balanced-cong (λ id. count id m.pages + pins id) (λ id. count id behind.pages + pins id)
            m
            (λ id.
              ap (λ c. c + pins id)
                (sym (behind.counts (λ g p. refl) id ∙ before.counts (λ g p. refl) id)))
            balanced) in
      let removed = remove_pages-Taken a n pins m2 balanced' in
      let same =
        same_reservation-Spanned (n / page_size) a (span_of p) m
          (part_Spanned (n / page_size) a placed.aligned placed.above (omega arith)) in
      let wrap : (base + p.reservation_size) % 2 ^ 64 ≡ reservation_end = omega (arith, placed) in
      let test : (ltb a base || ltb reservation_end end) ≡ false = ground (arith, placed) in
      record {
        pages = kept a n behind.pages;
        backings = removed.backings;
        runs =
            rw (wrap, test)
              (after (same_reservation (n / page_size) a base p.reservation_size) _ same (
                after (set_reservations base a base (a - base)) _ before.runs (
                  after (set_reservations end reservation_end end (reservation_end - end)) _
                    behind.runs removed.runs)))
            ∙ settle m (kept a n behind.pages) removed.backings ((a - base) / page_size)
                ((reservation_end - end) / page_size);
        view = λ q.
            view_of_loops (leb a q && ltb q (a + n))
              (covers ((reservation_end - end) / page_size) end q)
              (covers ((a - base) / page_size) base q) (resized base (a - base))
              (resized end (reservation_end - end)) (at (kept a n behind.pages) q)
              (at behind.pages q) (at before.pages q) (at m.pages q) (at-kept a n behind.pages q)
              (behind.view q) (before.view q) (ground (arith, placed));
        balanced = record {
          refs = removed.balanced.refs;
          live = removed.balanced.live;
          unused = removed.balanced.unused;
        };
      }

-- `unmap_locked` of whole pages of one reservation, which the range check lets through, takes them
-- out, makes reservations of their own of what is left before and behind, and frees a backing
-- exactly when no reference to it is left.
pub unmap-Unmapped :
    (a n : ℕ) (p : Page) (pins : ℕ → ℕ) (m : Memory)
    → IsBalanced pins m
    → IsTopology (spans m.pages)
    → m.next_generation < 2 ^ 64
    → n ≤ u64_max
    → check m.pages a n false ≡ ok
    → at m.pages a ≡ some p
    → a + n ≤ p.reservation_base + p.reservation_size
    → Unmapped a n (span_of p) pins m (unmap a n m)
unfolding unmap
unmap-Unmapped a n p pins m balanced topology room fits checked found inside =
    let (_, _, whole, _) = range_ok_lem a n fits (check-eq_ok m.pages a n false checked).0 in
    let step : unmap a n m ≡ unmap_from a n p m =
      rw (checked, unmap) (after (page_at a) _ (page_at_lem a m found) refl) in
    rw step (unmap_from-Unmapped a n p pins m balanced topology found room whole inside)
