-- ===== src/Context/X64/Registers.antt =====
-- src/gem/context_conversion.c: the general registers of the two views.
use metal_sharp_wine_runtime.Prelude.{
  ℕ, zero, suc, ◌≡◌, refl, ap, sym, ◌∙◌, List, [], ◌∷◌, length, get_or, set, arith, ◌==◌, ltb, ◌&&◌,
  if◌then◌else◌, length-set,
}
use metal_sharp_wine_runtime.Context.X64.{gpr_of, registers_of}

set-get_or : (xs : List ℕ) (i : ℕ) → set xs i (get_or xs i 0) ≡ xs
set-get_or [] i = refl
set-get_or (x ∷ xs) zero = refl
set-get_or (x ∷ xs) (suc i) = ap (λ ys. x ∷ ys) (set-get_or xs i)

-- Registers that are read from a thread context and written back to it are as before.
pub registers_of-gpr_of : (x : List ℕ) (sp : ℕ) → registers_of (gpr_of x sp) x ≡ x
unfolding registers_of gpr_of
registers_of-gpr_of x sp = simp set-get_or refl

get_or-set :
    (xs : List ℕ) (i j v : ℕ)
    → get_or (set xs i v) j 0 ≡ (if i == j && ltb i (length xs) then v else get_or xs j 0)
get_or-set [] i j v = ground arith
get_or-set (x ∷ xs) zero zero v = ground arith
get_or-set (x ∷ xs) zero (suc j) v = ground arith
get_or-set (x ∷ xs) (suc i) zero v = ground arith
get_or-set (x ∷ xs) (suc i) (suc j) v = ground (arith, get_or-set xs i j v)

abbrev tabulate : ℕ → (ℕ → ℕ) → List ℕ
tabulate zero f = []
tabulate (suc n) f = f 0 ∷ tabulate n (λ i. f (suc i))

tabulate-get_or : (xs : List ℕ) → tabulate (length xs) (λ i. get_or xs i 0) ≡ xs
tabulate-get_or [] = refl
tabulate-get_or (x ∷ xs) = ap (λ ys. x ∷ ys) (tabulate-get_or xs)

-- Registers that are written to a thread context are read back from it.
pub gpr_of-registers_of :
    (gpr x : List ℕ) (teb : ℕ)
    → length gpr ≡ 16
    → length x ≡ 31
    → gpr_of (set (registers_of gpr x) 18 teb) (get_or gpr 4 0) ≡ gpr
unfolding registers_of gpr_of
gpr_of-registers_of gpr x teb sixteen many =
    let all : tabulate 16 (λ i. get_or gpr i 0) ≡ gpr =
      ap (λ n. tabulate n (λ i. get_or gpr i 0)) (sym sixteen) ∙ tabulate-get_or gpr in
    simp (get_or-set, length-set, many) all

-- Register 18 holds the TEB after the stores.
pub get_or-registers_of :
    (gpr x : List ℕ) (teb : ℕ) → length x ≡ 31 → get_or (set (registers_of gpr x) 18 teb) 18 0 ≡ teb
unfolding registers_of
get_or-registers_of gpr x teb many = simp (get_or-set, length-set, many) refl

pub set_same : (xs : List ℕ) (i v : ℕ) → get_or xs i 0 ≡ v → set xs i v ≡ xs
set_same xs i v e = ap (set xs i) (sym e) ∙ set-get_or xs i

-- The registers of a thread context in which no x64 register has its home.
pub data IsUnmapped : ℕ → Type 0 where
  x6 : IsUnmapped 6
  x7 : IsUnmapped 7
  x9 : IsUnmapped 9
  x10 : IsUnmapped 10
  x11 : IsUnmapped 11
  x12 : IsUnmapped 12
  x13 : IsUnmapped 13
  x14 : IsUnmapped 14
  x15 : IsUnmapped 15
  x16 : IsUnmapped 16
  x17 : IsUnmapped 17
  x18 : IsUnmapped 18
  x23 : IsUnmapped 23
  x24 : IsUnmapped 24
  x28 : IsUnmapped 28
  x30 : IsUnmapped 30

-- They are as before the stores, when `x18` holds the TEB.
pub get_or-unmapped :
    (gpr x : List ℕ) (teb : ℕ)
    → length x ≡ 31
    → get_or x 18 0 ≡ teb
    → {i : ℕ} → IsUnmapped i
    → get_or (set (registers_of gpr x) 18 teb) i 0 ≡ get_or x i 0
unfolding registers_of
get_or-unmapped gpr x teb many held x6 = simp get_or-set refl
get_or-unmapped gpr x teb many held x7 = simp get_or-set refl
get_or-unmapped gpr x teb many held x9 = simp get_or-set refl
get_or-unmapped gpr x teb many held x10 = simp get_or-set refl
get_or-unmapped gpr x teb many held x11 = simp get_or-set refl
get_or-unmapped gpr x teb many held x12 = simp get_or-set refl
get_or-unmapped gpr x teb many held x13 = simp get_or-set refl
get_or-unmapped gpr x teb many held x14 = simp get_or-set refl
get_or-unmapped gpr x teb many held x15 = simp get_or-set refl
get_or-unmapped gpr x teb many held x16 = simp get_or-set refl
get_or-unmapped gpr x teb many held x17 = simp get_or-set refl
get_or-unmapped gpr x teb many held x18 = simp (get_or-set, length-set, many) (sym held)
get_or-unmapped gpr x teb many held x23 = simp get_or-set refl
get_or-unmapped gpr x teb many held x24 = simp get_or-set refl
get_or-unmapped gpr x teb many held x28 = simp get_or-set refl
get_or-unmapped gpr x teb many held x30 = simp get_or-set refl

pub length-registers_of :
    (gpr x : List ℕ) (teb : ℕ) → length (set (registers_of gpr x) 18 teb) ≡ length x
unfolding registers_of
length-registers_of gpr x teb = simp length-set refl
