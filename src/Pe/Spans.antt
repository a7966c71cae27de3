-- ===== src/Pe/Spans.antt =====
-- The tables of an image of src/gem/pe_arm64x.c as sorted lists of disjoint spans of addresses.
use metal_sharp_wine_runtime.Prelude.{
  ℕ, ◌+◌, ◌≤◌, ◌<◌, Option, none, some, List, [], ◌∷◌, ltb, ◌==◌, arith,
}
use metal_sharp_wine_runtime.Pe.{
  unsorted_ranges, overlapping_ranges, Section, CodeRange, EntryRange, Redirection,
}
use metal_sharp_wine_runtime.Pe.Ensures.{Ensures, holds, Ensures-refuse_if, Ensures-last}
use metal_sharp_wine_runtime.Pe.Span.{section_virtual_extent}
use metal_sharp_wine_runtime.Pe.Headers.{follows}
use metal_sharp_wine_runtime.Pe.Tables.{source_follows}

-- Spans that are not empty, in order, without overlap, from `low` to `high`.
abbrev pub Spans : ℕ → ℕ → List (ℕ × ℕ) → Type 0
Spans low high [] = Unit
Spans low high ((start, end) ∷ spans) =
    (low ≤ start) × (start < end) × (end ≤ high) × Spans end high spans

abbrev pub All {ℓ} : {A : Type ℓ} → (A → Type 0) → List A → Type 0
All P [] = Unit
All P (x ∷ xs) = P x × All P xs

abbrev pub section_span : Section → ℕ × ℕ
section_span s = (s.virtual_address, s.virtual_address + section_virtual_extent s)

abbrev pub code_span : CodeRange → ℕ × ℕ
code_span r = (r.start_rva, r.end_rva)

abbrev pub entry_span : EntryRange → ℕ × ℕ
entry_span r = (r.start_rva, r.end_rva)

-- The span of a redirection is its single address.
abbrev pub redirection_span : Redirection → ℕ × ℕ
redirection_span r = (r.source_rva, r.source_rva + 1)

-- Where the next span may start.
abbrev pub low_of : Option (ℕ × ℕ) → ℕ
low_of none = 0
low_of (some (start, end)) = end

abbrev pub low_source : Option ℕ → ℕ
low_source none = 0
low_source (some source) = source + 1

pub follows-Ensures :
    (previous : Option (ℕ × ℕ)) (start : ℕ)
    → Ensures (λ _. low_of previous ≤ start) (follows previous start)
unfolding follows
follows-Ensures none start = holds (omega arith)
follows-Ensures (some (previous_start, previous_end)) start =
    Ensures-refuse_if (ltb start previous_start) unsorted_ranges
      λ _. Ensures-last (ltb start previous_end) overlapping_ranges λ e. ground arith

pub source_follows-Ensures :
    (previous : Option ℕ) (source : ℕ)
    → Ensures (λ _. low_source previous ≤ source) (source_follows previous source)
unfolding source_follows
source_follows-Ensures none source = holds (omega arith)
source_follows-Ensures (some previous) source =
    Ensures-refuse_if (ltb source previous) unsorted_ranges
      λ e. Ensures-last (source == previous) overlapping_ranges λ d. ground arith
