-- ===== src/Memory/Topology/Spanned.antt =====
-- src/gem/memory.c: ranges of pages that lie in one reservation.
use metal_sharp_wine_runtime.Prelude.{
  ℕ, zero, suc, ◌+◌, ◌*◌, ◌%◌, ◌≤◌, ◌≡◌, refl, ap, true, false, ◌||◌, some, List, ◌!=◌, arith,
  Option-cases, inl, inr,
}
use metal_sharp_wine_runtime.Memory.{Page, Memory, page_size}
use metal_sharp_wine_runtime.Memory.Table.{at, is_mapped, page_at}
use metal_sharp_wine_runtime.Memory.Table.Loops.{covers, Mapped}
use metal_sharp_wine_runtime.Memory.Release.{same_reservation}
use metal_sharp_wine_runtime.Memory.Topology.{Span, span_of, spans, IsTopology}

-- The page of an address that has a reservation.
pub page_of_span :
    (ps : List Page) (q : ℕ) (s : Span)
    → spans ps q ≡ some s
    → (p : Page) × (at ps q ≡ some p) × (span_of p ≡ s)
page_of_span ps q s e = elim (Option-cases (at ps q)) [
  | inl gone ↦ absurd (cc (rw gone at e))
  | inr (p, found) ↦ (p, found, cc (rw found at e))
]

-- All of `k` pages from `a` on are of the reservation.
abbrev pub Spanned : List Page → ℕ → ℕ → Span → Type 0
Spanned ps k a s = (q : ℕ) → covers k a q ≡ true → spans ps q ≡ some s

first_covered : (k a : ℕ) → covers (suc k) a a ≡ true
first_covered k a = ground arith

rest_covered : (k a q : ℕ) → covers k (a + page_size) q ≡ true → covers (suc k) a q ≡ true
rest_covered k a q h = ground arith

pub Spanned-Mapped : (ps : List Page) (k a : ℕ) (s : Span) → Spanned ps k a s → Mapped ps k a
unfolding is_mapped
Spanned-Mapped ps zero a s h = tt
Spanned-Mapped ps (suc k) a s h =
    let (p, found, same) = page_of_span ps a s (h a (first_covered k a)) in
    (
      rw (found, is_mapped) refl,
      Spanned-Mapped ps k (a + page_size) s (λ q inside. h q (rest_covered k a q inside)),
    )

-- The loop that compares the reservations finds them all the same.
pub same_reservation-Spanned :
    (k a : ℕ) (s : Span) (m : Memory)
    → Spanned m.pages k a s
    → same_reservation k a s.base s.size m ≡ some (true, m)
unfolding same_reservation page_at
same_reservation-Spanned zero a s m h = refl
same_reservation-Spanned (suc k) a s m h =
    let (p, found, same) = page_of_span m.pages a s (h a (first_covered k a)) in
    let differs : (p.reservation_base != s.base || p.reservation_size != s.size) ≡ false =
      ground (arith, ap (λ (t : Span). t.base) same, ap (λ (t : Span). t.size) same) in
    rw (found, page_at, same_reservation)
      (rw differs (
        same_reservation-Spanned k (a + page_size) s m
          (λ q inside. h q (rest_covered k a q inside))))

-- A part of a reservation that is made of whole pages.
pub Spanned-part :
    (ps : List Page) (q0 k a : ℕ) (s : Span)
    → IsTopology (spans ps)
    → spans ps q0 ≡ some s
    → a % page_size ≡ 0
    → s.base ≤ a
    → a + k * page_size ≤ s.base + s.size
    → Spanned ps k a s
Spanned-part ps q0 k a s t first aligned above below q inside =
    t.complete q0 q s first (ground (arith, t.placed q0 s first))
