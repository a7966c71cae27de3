-- ===== src/Pe/Classify.antt =====
-- src/gem/pe_arm64x.c: `gem_pe_arm64x_classify_rva`.
pub mod Laws
pub mod Complete
use metal_sharp_wine_runtime.Prelude.{
  ℕ, ◌+◌, ◌≡◌, Bool, true, false, not, Option, none, some, leb, if◌then◌else◌,
}
use metal_sharp_wine_runtime.Pe.{
  Classification, rva_invalid, rva_data, rva_thunk, rva_fast_forward, PeStatus, invalid_argument,
  Attempt, done, failed, Section, CodeRange, EntryRange, Redirection, Image, Summary,
}
use metal_sharp_wine_runtime.Pe.Span.{find_section_for_span, section_is_executable}
use metal_sharp_wine_runtime.Pe.Find.{find_code_range, find_entry_range, find_redirection}

-- `struct gem_pe_arm64x_rva_info`
pub record PeRvaInfo : Type 0 where
  pub classification : Classification
  pub code_map_isa : Classification
  pub rva : ℕ
  pub containing_range_start_rva : ℕ
  pub containing_range_end_rva : ℕ
  pub entry_point_rva : ℕ
  pub redirection_destination_rva : ℕ
  pub section_index : ℕ
  pub has_entry_point : Bool
  pub has_redirection : Bool
  pub executable_section : Bool

-- `memset(out_info, 0, ...)` and the stores behind it
abbrev pub cleared_info : ℕ → PeRvaInfo
cleared_info rva = record {
  classification = rva_invalid;
  code_map_isa = rva_invalid;
  rva = rva;
  containing_range_start_rva = 0;
  containing_range_end_rva = 0;
  entry_point_rva = 0;
  redirection_destination_rva = 0;
  section_index = 0;
  has_entry_point = false;
  has_redirection = false;
  executable_section = false;
}

unfoldable pub note_section : Option (ℕ × Section) → PeRvaInfo → PeRvaInfo
unfolding section_is_executable
note_section none info = info
note_section (some (index, s)) info = record info {
  section_index = index + 1;
  executable_section = section_is_executable s;
}

unfoldable pub note_code_range : Option CodeRange → PeRvaInfo → PeRvaInfo
note_code_range none info = info
note_code_range (some r) info = record info {
  code_map_isa = r.isa;
  containing_range_start_rva = r.start_rva;
  containing_range_end_rva = r.end_rva;
}

unfoldable pub note_entry_range : Option CodeRange → Option EntryRange → PeRvaInfo → PeRvaInfo
note_entry_range code none info = info
note_entry_range (some c) (some r) info = record info {
  has_entry_point = true;
  entry_point_rva = r.entry_point_rva;
}
note_entry_range none (some r) info = record info {
  has_entry_point = true;
  entry_point_rva = r.entry_point_rva;
  containing_range_start_rva = r.start_rva;
  containing_range_end_rva = r.end_rva;
}

unfoldable pub note_redirection : Option Redirection → PeRvaInfo → PeRvaInfo
note_redirection none info = info
note_redirection (some r) info = record info {
  has_redirection = true;
  redirection_destination_rva = r.destination_rva;
}

-- The classification that the returns and the last test leave.
unfoldable pub class_of :
    Option (ℕ × Section)
    → Option CodeRange
    → Option EntryRange
    → Option Redirection
    → Classification
unfolding section_is_executable
class_of section code entry (some r) = rva_fast_forward
class_of section code (some r) none = rva_thunk
class_of section (some r) none none = r.isa
class_of none none none none = rva_invalid
class_of (some (index, s)) none none none =
    if not (section_is_executable s) then rva_data else rva_invalid

-- The address with what the searches find at it.
unfoldable pub classify_found :
    ℕ → Option (ℕ × Section) → Option CodeRange → Option EntryRange → Option Redirection → PeRvaInfo
unfolding note_section note_code_range note_entry_range note_redirection class_of
classify_found rva section code entry redirection =
    record (note_redirection redirection (
      note_entry_range code entry
        (note_code_range code (note_section section (cleared_info rva))))) {
          classification = class_of section code entry redirection;
        }

-- The arguments are not null.
unfoldable pub classify_in : Image → ℕ → PeRvaInfo
unfolding classify_found find_section_for_span find_code_range find_entry_range find_redirection
classify_in image rva =
    if leb image.summary.size_of_image rva
    then cleared_info rva
    else classify_found rva (find_section_for_span image rva 1) (find_code_range image rva)
        (find_entry_range image rva) (find_redirection image rva)

unfoldable pub classify_rva : Option Image → ℕ → Bool → Attempt PeRvaInfo
unfolding classify_in
classify_rva none rva out = failed invalid_argument
classify_rva (some image) rva false = failed invalid_argument
classify_rva (some image) rva true = done (classify_in image rva)
