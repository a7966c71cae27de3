-- ===== src/Memory/Topology.antt =====
-- src/gem/memory.c: the reservations of the table. Each page names the reservation that it
-- belongs to, and a reservation has all its pages.
pub mod Release
pub mod Spanned
pub mod Unmap
pub mod Split
pub mod Operations
use metal_sharp_wine_runtime.Prelude.{
  ℕ, zero, suc, ◌+◌, ◌-◌, ◌*◌, ◌/◌, ◌%◌, ◌^◌, ◌≤◌, ◌<◌, ◌≡◌, ◌≢◌, refl, ap, sym, ◌∙◌, Bool, true,
  false, ◌&&◌, ◌||◌, not, Option, none, some, List, ◌==◌, leb, ltb, if◌then◌else◌, arith,
  Bool-cases, inl, inr,
}
use mathlib.Core.Option
use metal_sharp_wine_runtime.Memory.{Error, Page, Memory, page_size}
use metal_sharp_wine_runtime.Memory.Rules.{range_ok, prot_ok, u64_max}
use metal_sharp_wine_runtime.Memory.Table.{at, is_mapped, check}
use metal_sharp_wine_runtime.Memory.Table.Loops.{covers}
use metal_sharp_wine_runtime.Memory.Table.Check.{range_ok_lem}
use metal_sharp_wine_runtime.Memory.Reserve.{choose_base, any_mapped, reserve, reserved_page}
use metal_sharp_wine_runtime.Memory.Reserve.Search.{any_mapped-eq_false}
use metal_sharp_wine_runtime.Memory.Reserve.Laws.{IsReservable, Reserved}
use metal_sharp_wine_runtime.Memory.Protect.{protect}
use metal_sharp_wine_runtime.Memory.Protect.Laws.{Protected, reprotect}

-- The base and size of a page's reservation.
abbrev pub Span : Type 0
Span = record { base : ℕ; size : ℕ }

abbrev pub span_of : Page → Span
span_of p = record { base = p.reservation_base; size = p.reservation_size }

-- The reservation of the page at each address.
abbrev pub spans : List Page → ℕ → Option Span
spans ps q = Option.map span_of (at ps q)

-- A page address lies in its reservation, which is made of whole pages of the address space.
pub record IsPlaced (q : ℕ) (s : Span) : Type 0 where
  pub aligned : q % page_size ≡ 0
  pub base_aligned : s.base % page_size ≡ 0
  pub size_aligned : s.size % page_size ≡ 0
  pub above : s.base ≤ q
  pub below : q < s.base + s.size
  pub in_space : s.base + s.size ≤ u64_max

pub record IsTopology (f : ℕ → Option Span) : Type 0 where
  pub placed : (q : ℕ) (s : Span) → f q ≡ some s → IsPlaced q s
  pub complete :
      (q r : ℕ) (s : Span)
      → f q ≡ some s
      → covers (s.size / page_size) s.base r ≡ true
      → f r ≡ some s

pub IsTopology-cong : (f g : ℕ → Option Span) → ((q : ℕ) → g q ≡ f q) → IsTopology f → IsTopology g
IsTopology-cong f g same t = record {
  placed = λ q s e. t.placed q s (sym (same q) ∙ e);
  complete = λ q r s e within. same r ∙ t.complete q r s (sym (same q) ∙ e) within;
}

-- A new reservation where nothing was.
pub IsTopology-add :
    (f : ℕ → Option Span) (b n : ℕ)
    → b % page_size ≡ 0
    → n % page_size ≡ 0
    → b + n ≤ u64_max
    → ((q : ℕ) → covers (n / page_size) b q ≡ true → f q ≡ none)
    → IsTopology f
    → IsTopology
        (λ q. if covers (n / page_size) b q then some (record { base = b; size = n }) else f q)
IsTopology-add f b n aligned whole fits free t = record {
  placed = λ q s e. elim (Bool-cases (covers (n / page_size) b q)) [
    | inl inside ↦
        let same : some (record { base = b; size = n }) ≡ some s = rw inside at e in
        let eb : b ≡ s.base = cc in let en : n ≡ s.size = cc in ground arith
    | inr outside ↦ t.placed q s (rw outside at e)
  ];
  complete = λ q r s e within. elim (Bool-cases (covers (n / page_size) b q)) [
    | inl inside ↦
        let same : some (record { base = b; size = n }) ≡ some s = rw inside at e in
        let eb : s.base ≡ b = cc in
        let en : s.size ≡ n = cc in
        let inside' : covers (n / page_size) b r ≡ true = rw (eb, en) at within in rw inside' same
    | inr outside ↦
        let old : f q ≡ some s = rw outside at e in
        let there : f r ≡ some s = t.complete q r s old within in
        elim (Bool-cases (covers (n / page_size) b r)) [
          | inl inside ↦ absurd (cc (free r inside, there))
          | inr outside' ↦ rw outside' there
        ]
  ];
}

spans-Reserved :
    (b n : ℕ) (m : Memory) {r : Option ((Error × ℕ) × Memory)} (done : Reserved b n m r) (q : ℕ)
    → spans done.pages q ≡ (
        if covers (n / page_size) b q
        then some (record { base = b; size = n })
        else spans m.pages q)
spans-Reserved b n m done q = elim (Bool-cases (covers (n / page_size) b q)) [
  | inl inside ↦ rw (done.view q, inside) refl
  | inr outside ↦ rw (done.view q, outside) refl
]

-- The table after a reservation in a free range.
pub Reserved-IsTopology :
    (b n : ℕ) (m : Memory) {r : Option ((Error × ℕ) × Memory)}
    → n ≤ u64_max
    → range_ok b n ≡ true
    → any_mapped m.pages (n / page_size) b ≡ false
    → (done : Reserved b n m r) → IsTopology (spans m.pages)
    → IsTopology (spans done.pages)
Reserved-IsTopology b n m fits ok_range free done t =
    let (_, aligned, whole, space) = range_ok_lem b n fits ok_range in
    IsTopology-cong _ (spans done.pages) (spans-Reserved b n m done) (
      IsTopology-add (spans m.pages) b n aligned whole space
        (λ q inside.
          ap (Option.map span_of) (any_mapped-eq_false m.pages (n / page_size) b q free inside))
        t)

pub span-map :
    (c : Bool) (f : Page → Page)
    → ((p : Page) → span_of (f p) ≡ span_of p)
    → (o : Option Page)
    → Option.map span_of (if c then Option.map f o else o) ≡ Option.map span_of o
span-map false f same o = refl
span-map true f same none = refl
span-map true f same (some p) = ap some (same p)

-- The table after a change of protections.
pub Protected-IsTopology :
    (a n prot : ℕ) (m : Memory) {r : Option ((Error × Option ℕ) × Memory)}
    → (done : Protected a n prot m r) → IsTopology (spans m.pages)
    → IsTopology (spans done.pages)
Protected-IsTopology a n prot m done t = IsTopology-cong (spans m.pages) (spans done.pages) same t
  where
    same : (q : ℕ) → spans done.pages q ≡ spans m.pages q
    same q =
        ap (Option.map span_of) (done.view q)
        ∙ span-map (covers (n / page_size) a q)
            (reprotect prot (m.next_generation + ((q - a) / page_size + 1))) (λ p. refl)
            (at m.pages q)
