-- ===== src/Memory/Topology/Split.antt =====
-- src/gem/memory.c: `unmap_locked` and the parts of the reservation that it splits.
use mathlib.Core.Option
use metal_sharp_wine_runtime.Prelude.{
  ℕ, ◌+◌, ◌-◌, ◌/◌, ◌%◌, ◌≤◌, ◌<◌, ◌≡◌, refl, ap, sym, ◌∙◌, Bool, true, false, ◌||◌, Option, none,
  some, ltb, if◌then◌else◌, arith, Bool-cases, inl, inr,
}
use metal_sharp_wine_runtime.Memory.{Error, Page, Memory, page_size}
use metal_sharp_wine_runtime.Memory.Table.{at}
use metal_sharp_wine_runtime.Memory.Table.Loops.{covers}
use metal_sharp_wine_runtime.Memory.Topology.{
  Span, span_of, spans, IsPlaced, IsTopology, IsTopology-cong,
}
use metal_sharp_wine_runtime.Memory.Topology.Release.{within, covers_of-IsPlaced}
use metal_sharp_wine_runtime.Memory.Topology.Spanned.{page_of_span}
use metal_sharp_wine_runtime.Memory.Topology.Unmap.{Unmapped, resized}

module _ (a n : ℕ) (s : Span) where
  -- The pages behind and before the range.
  abbrev behind : ℕ → Bool
  behind q = covers ((s.base + s.size - (a + n)) / page_size) (a + n) q

  abbrev before : ℕ → Bool
  before q = covers ((a - s.base) / page_size) s.base q

  abbrev split_spans : (ℕ → Option Span) → ℕ → Option Span
  split_spans f q =
      if within a n q
      then none
      else if behind q
      then some (record { base = a + n; size = s.base + s.size - (a + n) })
      else if before q
      then some (record { base = s.base; size = a - s.base })
      else f q

  abbrev span_behind : Span
  span_behind = record { base = a + n; size = s.base + s.size - (a + n) }

  abbrev span_before : Span
  span_before = record { base = s.base; size = a - s.base }

  -- The parts lie in the reservation.
  part_above : (r : ℕ) → IsPlaced a s → (within a n r || (behind r || before r)) ≡ true → s.base ≤ r
  part_above r placed h = ground (arith, placed.above)

  part_below :
      (r : ℕ)
      → IsPlaced a s
      → a + n ≤ s.base + s.size
      → (within a n r || (behind r || before r)) ≡ true
      → r < s.base + s.size
  part_below r placed inside h = ground (arith, placed.above, placed.below)

  -- The parts have all pages of the reservation.
  part_of :
      (q : ℕ)
      → IsPlaced a s
      → n % page_size ≡ 0
      → a + n ≤ s.base + s.size
      → IsPlaced q s
      → within a n q ≡ false
      → before q ≡ false
      → behind q ≡ true
  part_of q placed whole inside p out out' = elim (Bool-cases (ltb q a)) [
    | inl less ↦ absurd (ground (arith, placed, p))
    | inr more ↦ ground (arith, placed, p)
  ]

  module _ (f : ℕ → Option Span) where
    -- Where the page at an address gets its reservation from.
    data Origin (q : ℕ) (u : Span) : Type 0 where
      from_behind : behind q ≡ true → u ≡ span_behind → Origin q u
      from_before : before q ≡ true → u ≡ span_before → Origin q u
      from_old :
          within a n q ≡ false → behind q ≡ false → before q ≡ false → f q ≡ some u → Origin q u

    origin : (q : ℕ) (u : Span) → split_spans f q ≡ some u → Origin q u
    origin q u e = elim (Bool-cases (within a n q)) [
      | inl c ↦ absurd (cc (rw c at e))
      | inr c ↦ elim (Bool-cases (behind q)) [
        | inl c' ↦ from_behind c' (sym (cc (rw (c, c') at e)))
        | inr c' ↦ elim (Bool-cases (before q)) [
          | inl c'' ↦ from_before c'' (sym (cc (rw (c, c', c'') at e)))
          | inr c'' ↦ from_old c c' c'' (rw (c, c', c'') at e)
        ]
      ]
    ]

    module _ (placed : IsPlaced a s) (whole : n % page_size ≡ 0) (inside : a + n ≤ s.base + s.size)
        (first : f a ≡ some s) (t : IsTopology f) where
      Origin-IsPlaced : (q : ℕ) (u : Span) → Origin q u → IsPlaced q u
      Origin-IsPlaced q u (from_behind c e) =
          ground (arith, placed, ap (λ (u : Span). u.base) e, ap (λ (u : Span). u.size) e)
      Origin-IsPlaced q u (from_before c e) =
          ground (arith, placed, ap (λ (u : Span). u.base) e, ap (λ (u : Span). u.size) e)
      Origin-IsPlaced q u (from_old c c' c'' e) = t.placed q u e

      -- No page that is left of another reservation is in one of the parts.
      apart :
          (q r : ℕ) (u : Span)
          → f r ≡ some u
          → IsPlaced q u
          → within a n q ≡ false
          → behind q ≡ false
          → before q ≡ false
          → (within a n r || (behind r || before r)) ≡ false
      apart q r u there p c c' c'' = elim (Bool-cases (within a n r || (behind r || before r))) [
        | inr away ↦ away
        | inl part ↦
            let r_placed = t.placed r u there in
            let above = part_above r placed part in
            let below = part_below r placed inside part in
            let r_in_s : IsPlaced r s = record {
              aligned = r_placed.aligned;
              base_aligned = placed.base_aligned;
              size_aligned = placed.size_aligned;
              above = above;
              below = below;
              in_space = placed.in_space;
            } in
            let covered = covers_of-IsPlaced r s r_in_s in
            let same : some s ≡ some u = sym (t.complete a r s first covered) ∙ there in
            let equal : u ≡ s = cc in
            absurd (cc (part_of q placed whole inside (rw equal at p) c c'', c'))
      ]

      Origin-complete :
          (q r : ℕ) (u : Span)
          → Origin q u
          → covers (u.size / page_size) u.base r ≡ true
          → split_spans f r ≡ some u
      Origin-complete q r u (from_behind c e) w =
          let w' : behind r ≡ true = rw e at w in
          let out : within a n r ≡ false = ground (arith, placed) in
          rw (out, w') (ap (λ (u : Span). some u) (sym e))
      Origin-complete q r u (from_before c e) w =
          let w' : before r ≡ true = rw e at w in
          let out : within a n r ≡ false = ground (arith, placed) in
          let out' : behind r ≡ false = ground (arith, placed) in
          rw (out, out', w') (ap (λ (u : Span). some u) (sym e))
      Origin-complete q r u (from_old c c' c'' e) w =
          let there = t.complete q r u e w in
          let away = apart q r u there (t.placed q u e) c c' c'' in
          let out : within a n r ≡ false = ground (arith, away) in
          let out' : behind r ≡ false = ground (arith, away) in
          let out'' : before r ≡ false = ground (arith, away) in rw (out, out', out'') there

      pub IsTopology-split : IsTopology (split_spans f)
      IsTopology-split = record {
        placed = λ q u e. Origin-IsPlaced q u (origin q u e);
        complete = λ q r u e w. Origin-complete q r u (origin q u e) w;
      }

split_option :
    (a n : ℕ) (s : Span) (c c' c'' : Bool) (o o' : Option Page)
    → o' ≡ (
        if c
        then none
        else if c'
        then Option.map (resized (a + n) (s.base + s.size - (a + n))) o
        else if c''
        then Option.map (resized s.base (a - s.base)) o
        else o)
    → ((c' || c'') ≡ true → (p : Page) × (o ≡ some p))
    → Option.map span_of o' ≡ (
        if c
        then none
        else if c'
        then some (span_behind a n s)
        else if c''
        then some (span_before a n s)
        else Option.map span_of o)
split_option a n s true c' c'' o o' e present = rw e refl
split_option a n s false true c'' o o' e present = rw (e, (present refl).1) refl
split_option a n s false false true o o' e present = rw (e, (present refl).1) refl
split_option a n s false false false o o' e present = rw e refl

-- The table after a part of a reservation is taken out.
pub Unmapped-IsTopology :
    (a n : ℕ) (p : Page) (pins : ℕ → ℕ) (m : Memory) {r : Option (Error × Memory)}
    → at m.pages a ≡ some p
    → n % page_size ≡ 0
    → a + n ≤ p.reservation_base + p.reservation_size
    → IsTopology (spans m.pages)
    → (done : Unmapped a n (span_of p) pins m r) → IsTopology (spans done.pages)
Unmapped-IsTopology a n p pins m found whole inside t done =
    let s = span_of p in
    let first : spans m.pages a ≡ some s = ap (Option.map span_of) found in
    let placed = t.placed a s first in
    IsTopology-cong (split_spans a n s (spans m.pages)) (spans done.pages)
      (λ q.
        split_option a n s (within a n q) (behind a n s q) (before a n s q) (at m.pages q)
          (at done.pages q) (done.view q)
          (λ h.
            let (page, there, _) =
              page_of_span m.pages q s (t.complete a q s first (ground (arith, placed))) in
            (page, there)))
      (IsTopology-split a n s (spans m.pages) placed whole inside first t)
