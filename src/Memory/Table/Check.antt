-- ===== src/Memory/Table/Check.antt =====
-- src/gem/memory.c: what `check` finds.
use metal_sharp_wine_runtime.Prelude.{
  ℕ, zero, suc, ◌+◌, ◌/◌, ◌%◌, ◌≤◌, ◌<◌, ◌≡◌, ◌↔◌, refl, ap, ◌∙◌, Bool, true, some, List, ◌==◌,
  arith, Bool-cases, Option-cases, inl, inr,
}
use metal_sharp_wine_runtime.Memory.{ok, Page, page_size}
use metal_sharp_wine_runtime.Memory.Rules.{range_ok, u64_max}
use metal_sharp_wine_runtime.Memory.Table.{at, is_mapped, has_backing, check_pages, check}
use metal_sharp_wine_runtime.Memory.Table.Loops.{Mapped, covers, covers-suc}

-- Every page address of the range has a page, with a backing if `committed` is set.
abbrev pub Present : List Page → ℕ → ℕ → Bool → Type 0
Present ps k a committed =
    (q : ℕ)
    → covers k a q ≡ true
    → (p : Page) × (at ps q ≡ some p) × (committed ≡ true → has_backing p ≡ true)

-- The first round of a check that found nothing, and the rest of it.
check_pages-suc :
    (ps : List Page) (k a : ℕ) (c : Bool)
    → check_pages ps (suc k) a c ≡ ok
    → (p : Page) × (at ps a ≡ some p)
      × (c ≡ true → has_backing p ≡ true)
      × (check_pages ps k (a + page_size) c ≡ ok)
unfolding check_pages
check_pages-suc ps k a c e = elim (Option-cases (at ps a)) [
  | inl missing ↦ cc (rw (missing, check_pages) at e)
  | inr (p, found) ↦ (p, found, ground arith, ground arith)
]

Present-check_pages :
    (ps : List Page) (k a : ℕ) (c : Bool) → check_pages ps k a c ≡ ok → Present ps k a c
Present-check_pages ps zero a c e q within = absurd (ground arith)
Present-check_pages ps (suc k) a c e q within =
    let (p, found, backed, rest) = check_pages-suc ps k a c e in
    elim (Bool-cases (q == a)) [
      | inl here ↦ (p, ap (at ps) (ground arith) ∙ found, backed)
      | inr there ↦
          Present-check_pages ps k (a + page_size) c rest q (ground (arith, covers-suc k a q))
    ]

check_pages-Present :
    (ps : List Page) (k a : ℕ) (c : Bool) → Present ps k a c → check_pages ps k a c ≡ ok
unfolding check_pages
check_pages-Present ps zero a c h = refl
check_pages-Present ps (suc k) a c h =
    let (p, found, backed) = h a (ground arith) in
    let rest =
      check_pages-Present ps k (a + page_size) c (λ q w. h q (ground (arith, covers-suc k a q))) in
    ground arith

pub check_pages-Mapped :
    (ps : List Page) (k a : ℕ) (c : Bool) → check_pages ps k a c ≡ ok → Mapped ps k a
unfolding check_pages is_mapped
check_pages-Mapped ps zero a c e = tt
check_pages-Mapped ps (suc k) a c e =
    let (p, found, _, rest) = check_pages-suc ps k a c e in
    (ground arith, check_pages-Mapped ps k (a + page_size) c rest)

-- What `range_ok` accepts.
pub range_ok_lem :
    (a n : ℕ)
    → n ≤ u64_max
    → range_ok a n ≡ true
    → (0 < n) × (a % 4096 ≡ 0) × (n % 4096 ≡ 0) × (a + n ≤ u64_max)
unfolding range_ok
range_ok_lem a n fits e = ground arith

pub check-eq_ok :
    (ps : List Page) (a n : ℕ) (c : Bool)
    → check ps a n c ≡ ok
    → (range_ok a n ≡ true) × (check_pages ps (n / page_size) a c ≡ ok)
unfolding check
check-eq_ok ps a n c e = ground arith

-- `check` finds nothing exactly when the range is well formed and each of its pages is in the
-- table, with a backing if one is asked for.
pub check_iff :
    (ps : List Page) (a n : ℕ) (c : Bool)
    → (check ps a n c ≡ ok) ↔ (range_ok a n ≡ true) × Present ps (n / page_size) a c
unfolding check
check_iff ps a n c = (
  λ e.
      let (fits, found) = check-eq_ok ps a n c e in
      (fits, Present-check_pages ps (n / page_size) a c found),
  λ (fits, present). rw fits (check_pages-Present ps (n / page_size) a c present),
)
