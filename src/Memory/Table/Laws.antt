-- ===== src/Memory/Table/Laws.antt =====
-- src/gem/memory.c: the page table seen through `at`, and what its loops do to that view.
use mathlib.Core.Option
use metal_sharp_wine_runtime.Prelude.{
  ℕ, ◌≡◌, refl, none, some, List, [], ◌∷◌, ◌++◌, ◌==◌, if◌then◌else◌, arith, Bool-cases, inl, inr,
}
use metal_sharp_wine_runtime.Memory.{Page}
use metal_sharp_wine_runtime.Memory.Table.{at, set_page}

-- The page that `at` finds has the address that was asked for.
pub at-address : (ps : List Page) (a : ℕ) {p : Page} → at ps a ≡ some p → p.address ≡ a
unfolding at
at-address [] a e = cc
at-address (p ∷ ps) a e = elim (Bool-cases (p.address == a)) [
  | inl here ↦ ground (arith, here, e)
  | inr there ↦ at-address ps a (rw there at e)
]

abbrev pub KeepsAddress : (Page → Page) → Type 0
KeepsAddress f = (p : Page) → (f p).address ≡ p.address

pub at-set_page :
    (a : ℕ) (f : Page → Page) (ps : List Page) (q : ℕ)
    → KeepsAddress f
    → at (set_page a f ps) q ≡ (if q == a then Option.map f (at ps q) else at ps q)
unfolding at set_page
at-set_page a f [] q keeps = ground arith
at-set_page a f (p ∷ ps) q keeps = ground (arith, keeps p, at-set_page a f ps q keeps)

pub at-append :
    (xs ys : List Page) (q : ℕ)
    → at (xs ++ ys) q ≡ elim (at xs q) [ none ↦ at ys q | some p ↦ some p ]
unfolding at
at-append [] ys q = refl
at-append (x ∷ xs) ys q = elim (Bool-cases (x.address == q)) [
  | inl here ↦ rw here refl
  | inr there ↦ rw there (at-append xs ys q)
]
