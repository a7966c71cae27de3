-- ===== src/Context/Float/Digits.antt =====
-- Words given by the list of their binary digits.
use metal_sharp_wine_runtime.Prelude.{
  ℕ, zero, suc, ◌+◌, ◌-◌, ◌<◌, ◌≡◌, refl, ap, ◌∙◌, Bool, true, false, ◌&&◌, ◌||◌, List, [], ◌∷◌,
  ◌==◌, ltb, if◌then◌else◌, get_or, testbit, arith,
}

-- The `|` of digits that stand one after the other from `k` on.
abbrev pub digits : ℕ → List Bool → ℕ → Bool
digits k [] i = false
digits k (b ∷ []) i = b && i == k
digits k (b ∷ c ∷ bs) i = (b && i == k) || digits (k + 1) (c ∷ bs) i

digits-get_or_from :
    (k : ℕ) (bs : List Bool) (i : ℕ)
    → digits k bs i ≡ (if ltb i k then false else get_or bs (i - k) false)
digits-get_or_from k [] i = ground arith
digits-get_or_from k (b ∷ []) i = last (i - k) refl
  where
    last :
        (n : ℕ) → n ≡ i - k → (b && i == k) ≡ (if ltb i k then false else get_or (b ∷ []) n false)
    last zero e = ground arith
    last (suc n) e = ground arith
digits-get_or_from k (b ∷ c ∷ bs) i = more (i - k) refl (digits-get_or_from (k + 1) (c ∷ bs) i)
  where
    more :
        (n : ℕ)
        → n ≡ i - k
        → digits (k + 1) (c ∷ bs) i
          ≡ (if ltb i (k + 1) then false else get_or (c ∷ bs) (i - (k + 1)) false)
        → ((b && i == k) || digits (k + 1) (c ∷ bs) i)
          ≡ (if ltb i k then false else get_or (b ∷ c ∷ bs) n false)
    more zero e rest = rw rest (ground arith)
    more (suc n) e rest = let next : i - (k + 1) ≡ n = omega arith in rw (rest, next) (ground arith)

pub digits-get_or : (bs : List Bool) (i : ℕ) → digits 0 bs i ≡ get_or bs i false
digits-get_or bs i =
    let whole : i - 0 ≡ i = omega arith in
    let not_before : ltb i 0 ≡ false = ground arith in
    rw (digits-get_or_from 0 bs i, whole, not_before) refl

-- The first `n` digits of a word from `k` on.
abbrev pub digits_of : ℕ → ℕ → ℕ → List Bool
digits_of zero k w = []
digits_of (suc n) k w = testbit w k ∷ digits_of n (k + 1) w

digits_of_from : (n k w i : ℕ) → i < n → get_or (digits_of n k w) i false ≡ testbit w (k + i)
digits_of_from zero k w i h = absurd (omega arith)
digits_of_from (suc n) k w zero h = ap (testbit w) (omega arith)
digits_of_from (suc n) k w (suc i) h =
    digits_of_from n (k + 1) w i (omega arith) ∙ ap (testbit w) (omega arith)

pub digits_of-get_or : (n w i : ℕ) → i < n → get_or (digits_of n 0 w) i false ≡ testbit w i
digits_of-get_or n w i h = digits_of_from n 0 w i h ∙ ap (testbit w) (omega arith)

pub or_assoc : (a b c : Bool) → ((a || b) || c) ≡ (a || (b || c))
or_assoc true b c = refl
or_assoc false b c = refl
