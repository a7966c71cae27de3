-- ===== src/Pe/Find/Search.antt =====
-- src/gem/pe_arm64x.c: on sorted tables the searches, which stop early, find what is there.
use metal_sharp_wine_runtime.Prelude.{
  ℕ, ◌+◌, ◌≤◌, ◌<◌, ◌≡◌, refl, Bool, true, false, ◌&&◌, inl, inr, Option, none, some, List, [], ◌∷◌,
  map, ltb, leb, ◌==◌, arith, Bool-cases,
}
use metal_sharp_wine_runtime.Pe.{CodeRange, EntryRange, Redirection}
use metal_sharp_wine_runtime.Pe.Spans.{Spans, All, code_span, entry_span, redirection_span}
use metal_sharp_wine_runtime.Pe.Find.{
  find_in_code_ranges, find_in_entry_ranges, find_in_redirections,
}

-- `start <= rva && rva < end`
abbrev pub contains : ℕ × ℕ → ℕ → Bool
contains (start, end) rva = leb start rva && ltb rva end

-- The element is one of the list.
pub data IsIn {A : Type 0} (x : A) : List A → Type 0 where
  first : {xs : List A} → IsIn x (x ∷ xs)
  later : {y : A} {xs : List A} → IsIn x xs → IsIn x (y ∷ xs)

pub All-IsIn : {A : Type 0} (P : A → Type 0) {x : A} (xs : List A) → All P xs → IsIn x xs → P x
All-IsIn P [] h i = elim i [ ]
All-IsIn P (x ∷ xs) (h, rest) first = h
All-IsIn P (y ∷ xs) (h, rest) (later i) = All-IsIn P xs rest i

-- What a search for the element whose span contains an address should return: the only such element
-- of the table, or nothing if there is none.
abbrev pub Finds : {A : Type 0} → (A → ℕ × ℕ) → List A → ℕ → Option A → Type 0
Finds span xs rva none = All (λ x. contains (span x) rva ≡ false) xs
Finds span xs rva (some x) =
    IsIn x xs × (contains (span x) rva ≡ true) × All (λ y. contains (span y) rva ≡ true → y ≡ x) xs

module _ {A : Type 0} (span : A → ℕ × ℕ) (rva : ℕ) where
  -- Behind an address no span contains it.
  beyond :
      (low high : ℕ) (xs : List A)
      → Spans low high (map span xs)
      → rva < low
      → All (λ x. contains (span x) rva ≡ false) xs
  beyond low high [] h lt = tt
  beyond low high (x ∷ xs) (at, some_span, inside, rest) lt =
      (ground arith, beyond (span x).1 high xs rest (omega arith))

  none_of :
      (x : A) (xs : List A)
      → All (λ y. contains (span y) rva ≡ false) xs
      → All (λ y. contains (span y) rva ≡ true → y ≡ x) xs
  none_of x [] h = tt
  none_of x (y ∷ ys) (no_hit, rest) = (λ hit. absurd (cc (hit, no_hit)), none_of x ys rest)

  -- The three ways out of a round of a search.
  before-Finds :
      (low high : ℕ) (x : A) (xs : List A)
      → Spans low high (map span (x ∷ xs))
      → rva < (span x).0
      → Finds span (x ∷ xs) rva none
  before-Finds low high x xs (at, some_span, inside, rest) lt =
      (ground arith, beyond (span x).1 high xs rest (omega arith))

  hit-Finds :
      (low high : ℕ) (x : A) (xs : List A)
      → Spans low high (map span (x ∷ xs))
      → (span x).0 ≤ rva
      → rva < (span x).1
      → Finds span (x ∷ xs) rva (some x)
  hit-Finds low high x xs (at, some_span, inside, rest) le lt =
      (first, ground arith, (λ _. refl, none_of x xs (beyond (span x).1 high xs rest lt)))

  past-Finds :
      (x : A) (xs : List A) (o : Option A)
      → (span x).1 ≤ rva
      → Finds span xs rva o
      → Finds span (x ∷ xs) rva o
  past-Finds x xs none past h = (ground arith, h)
  past-Finds x xs (some y) past (is_in, hit, only) =
      let miss : contains (span x) rva ≡ false = ground arith in
      (later is_in, hit, (λ e. absurd (cc (e, miss)), only))

pub find_in_code_ranges-Finds :
    (low high rva : ℕ) (ranges : List CodeRange)
    → Spans low high (map code_span ranges)
    → Finds code_span ranges rva (find_in_code_ranges ranges rva)
unfolding find_in_code_ranges
find_in_code_ranges-Finds low high rva [] h = tt
find_in_code_ranges-Finds low high rva (r ∷ ranges) h = elim (Bool-cases (ltb rva r.start_rva)) [
  | inl before ↦ rw before (before-Finds code_span rva low high r ranges h (ground arith))
  | inr at ↦ elim (Bool-cases (ltb rva r.end_rva)) [
    | inl hit ↦
        rw (at, hit) (hit-Finds code_span rva low high r ranges h (ground arith) (ground arith))
    | inr past ↦
        rw (at, past)
          (past-Finds code_span rva r ranges (find_in_code_ranges ranges rva) (ground arith)
            (find_in_code_ranges-Finds r.end_rva high rva ranges h.3))
  ]
]

pub find_in_entry_ranges-Finds :
    (low high rva : ℕ) (ranges : List EntryRange)
    → Spans low high (map entry_span ranges)
    → Finds entry_span ranges rva (find_in_entry_ranges ranges rva)
unfolding find_in_entry_ranges
find_in_entry_ranges-Finds low high rva [] h = tt
find_in_entry_ranges-Finds low high rva (r ∷ ranges) h = elim (Bool-cases (ltb rva r.start_rva)) [
  | inl before ↦ rw before (before-Finds entry_span rva low high r ranges h (ground arith))
  | inr at ↦ elim (Bool-cases (ltb rva r.end_rva)) [
    | inl hit ↦
        rw (at, hit) (hit-Finds entry_span rva low high r ranges h (ground arith) (ground arith))
    | inr past ↦
        rw (at, past)
          (past-Finds entry_span rva r ranges (find_in_entry_ranges ranges rva) (ground arith)
            (find_in_entry_ranges-Finds r.end_rva high rva ranges h.3))
  ]
]

pub find_in_redirections-Finds :
    (low high rva : ℕ) (redirections : List Redirection)
    → Spans low high (map redirection_span redirections)
    → Finds redirection_span redirections rva (find_in_redirections redirections rva)
unfolding find_in_redirections
find_in_redirections-Finds low high rva [] h = tt
find_in_redirections-Finds low high rva (r ∷ rs) h = elim (Bool-cases (ltb rva r.source_rva)) [
  | inl before ↦ rw before (before-Finds redirection_span rva low high r rs h (ground arith))
  | inr at ↦ elim (Bool-cases (rva == r.source_rva)) [
    | inl hit ↦
        rw (at, hit) (hit-Finds redirection_span rva low high r rs h (ground arith) (ground arith))
    | inr past ↦
        rw (at, past)
          (past-Finds redirection_span rva r rs (find_in_redirections rs rva) (ground arith)
            (find_in_redirections-Finds (r.source_rva + 1) high rva rs h.3))
  ]
]
