-- ===== src/Pe/Find.antt =====
-- src/gem/pe_arm64x.c: the searches in the tables of an image.
pub mod Search
use metal_sharp_wine_runtime.Prelude.{
  ℕ, ◌≡◌, Bool, true, false, ◌&&◌, Option, none, some, List, [], ◌∷◌, ◌==◌, ltb, leb, if◌then◌else◌,
}
use metal_sharp_wine_runtime.Pe.{
  Classification, rva_invalid, rva_data, rva_arm64, rva_arm64ec, rva_x64, rva_thunk,
  rva_fast_forward, CodeRange, EntryRange, Redirection, Image,
}

-- `enum chpe_range_type` to `enum gem_pe_rva_class`
unfoldable pub code_type_to_class : ℕ → Classification
code_type_to_class type =
    if type == 0
    then rva_arm64
    else if type == 1
    then rva_arm64ec
    else if type == 2
    then rva_x64
    else rva_invalid

-- The loop of `find_code_range`.
unfoldable pub find_in_code_ranges : List CodeRange → ℕ → Option CodeRange
find_in_code_ranges [] rva = none
find_in_code_ranges (r ∷ ranges) rva =
    if ltb rva r.start_rva
    then none
    else if ltb rva r.end_rva
    then some r
    else find_in_code_ranges ranges rva

unfoldable pub find_code_range : Image → ℕ → Option CodeRange
unfolding find_in_code_ranges
find_code_range image rva = find_in_code_ranges image.code_ranges rva

-- The loop of `find_entry_range`.
unfoldable pub find_in_entry_ranges : List EntryRange → ℕ → Option EntryRange
find_in_entry_ranges [] rva = none
find_in_entry_ranges (r ∷ ranges) rva =
    if ltb rva r.start_rva
    then none
    else if ltb rva r.end_rva
    then some r
    else find_in_entry_ranges ranges rva

unfoldable pub find_entry_range : Image → ℕ → Option EntryRange
unfolding find_in_entry_ranges
find_entry_range image rva = find_in_entry_ranges image.entry_ranges rva

-- The loop of `find_redirection`.
unfoldable pub find_in_redirections : List Redirection → ℕ → Option Redirection
find_in_redirections [] rva = none
find_in_redirections (r ∷ redirections) rva =
    if ltb rva r.source_rva
    then none
    else if rva == r.source_rva
    then some r
    else find_in_redirections redirections rva

unfoldable pub find_redirection : Image → ℕ → Option Redirection
unfolding find_in_redirections
find_redirection image rva = find_in_redirections image.redirections rva

abbrev pub is_x64 : Classification → Bool
is_x64 rva_x64 = true
is_x64 c = false

abbrev pub is_x64_until : Option CodeRange → ℕ → Bool
is_x64_until none end = false
is_x64_until (some r) end = is_x64 r.isa && leb end r.end_rva

-- `code_range_contains_class(image, start, end, GEM_PE_RVA_X64)`, the only class that it is asked for.
unfoldable pub code_range_contains_x64 : Image → ℕ → ℕ → Bool
unfolding find_code_range
code_range_contains_x64 image start end = is_x64_until (find_code_range image start) end
