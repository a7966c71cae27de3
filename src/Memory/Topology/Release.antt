-- ===== src/Memory/Topology/Release.antt =====
-- src/gem/memory.c: `release_locked` and the other reservations of the table.
use mathlib.Core.Option
use metal_sharp_wine_runtime.Prelude.{
  ℕ, ◌+◌, ◌/◌, ◌≡◌, refl, ap, sym, ◌∙◌, Bool, true, false, ◌&&◌, Option, none, some, leb, ltb,
  if◌then◌else◌, arith, Bool-cases, inl, inr,
}
use metal_sharp_wine_runtime.Memory.{Error, Page, Memory, page_size}
use metal_sharp_wine_runtime.Memory.Table.{at}
use metal_sharp_wine_runtime.Memory.Table.Loops.{covers}
use metal_sharp_wine_runtime.Memory.Release.Remove.{Released}
use metal_sharp_wine_runtime.Memory.Topology.{
  Span, span_of, spans, IsPlaced, IsTopology, IsTopology-cong,
}

abbrev pub within : ℕ → ℕ → ℕ → Bool
within a n q = leb a q && ltb q (a + n)

-- A placed page address of the reservation is one of those that it covers.
pub covers_of-IsPlaced :
    (q : ℕ) (s : Span) → IsPlaced q s → covers (s.size / page_size) s.base q ≡ true
covers_of-IsPlaced q s p = ground arith

IsTopology-remove :
    (f : ℕ → Option Span) (a n : ℕ)
    → f a ≡ some (record { base = a; size = n })
    → IsTopology f
    → IsTopology (λ q. if within a n q then none else f q)
IsTopology-remove f a n first t = record {
  placed = λ q s e. elim (Bool-cases (within a n q)) [
    | inl inside ↦ cc (rw inside at e)
    | inr outside ↦ t.placed q s (rw outside at e)
  ];
  complete = λ q r s e w. elim (Bool-cases (within a n q)) [
    | inl inside ↦ cc (rw inside at e)
    | inr outside ↦
        let old : f q ≡ some s = rw outside at e in
        let there : f r ≡ some s = t.complete q r s old w in
        elim (Bool-cases (within a n r)) [
          | inr outside' ↦ rw outside' there
          | inl inside' ↦
              let mine : f r ≡ some (record { base = a; size = n }) =
                t.complete a r (record { base = a; size = n }) first
                  (ground (
                    arith,
                    t.placed r s there,
                    t.placed a (record { base = a; size = n }) first,
                  )) in
              let same : some (record { base = a; size = n }) ≡ some s = sym mine ∙ there in
              let eb : s.base ≡ a = cc in
              let en : s.size ≡ n = cc in absurd (ground (arith, t.placed q s old))
        ]
  ];
}

gone :
    (c : Bool) (o : Option Page)
    → Option.map span_of (if c then none else o) ≡ (if c then none else Option.map span_of o)
gone true o = refl
gone false o = refl

-- Where a reservation is taken out as a whole, the others stay whole.
pub Released-IsTopology :
    (a n : ℕ) (pins : ℕ → ℕ) (m : Memory) {r : Option (Error × Memory)}
    → spans m.pages a ≡ some (record { base = a; size = n })
    → IsTopology (spans m.pages)
    → (done : Released a n pins m r) → IsTopology (spans done.pages)
Released-IsTopology a n pins m first t done =
    IsTopology-cong _ (spans done.pages) same (IsTopology-remove (spans m.pages) a n first t)
  where
    at-done : (q : ℕ) → at done.pages q ≡ (if within a n q then none else at m.pages q)
    at-done q = elim (Bool-cases (within a n q)) [
      | inl inside ↦ rw inside (done.gone q (ground arith) (ground arith))
      | inr outside ↦ rw outside (done.others q (ground arith))
    ]

    same : (q : ℕ) → spans done.pages q ≡ (if within a n q then none else spans m.pages q)
    same q = ap (Option.map span_of) (at-done q) ∙ gone (within a n q) (at m.pages q)
