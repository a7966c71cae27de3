-- ===== src/Pe/Tables/Checked.antt =====
-- src/gem/pe_arm64x.c: what the tables of the CHPE metadata satisfy once they are parsed.
use metal_sharp_wine_runtime.Prelude.{
  ℕ, zero, suc, ◌+◌, ◌-◌, ◌*◌, ◌%◌, ◌≤◌, ◌<◌, ◌≡◌, refl, ap, Bool, true, false, Option, none, some,
  List, map, ◌==◌, length, arith, Bool-cases, inl, inr, and-eq_true,
}
use metal_sharp_wine_runtime.Pe.{
  Classification, rva_arm64, rva_arm64ec, rva_x64, overflow, bad_chpe_metadata, Section, CodeRange,
  EntryRange, Image, ParserState,
}
use metal_sharp_wine_runtime.Pe.Bytes.{
  IsBytes, checked_mul_size, checked_mul_size_lem, checked_add_u32, checked_add_u32_lem,
  read_u32le_unchecked-Ensures,
}
use metal_sharp_wine_runtime.Pe.Span.{
  rva_to_parser_offset-Ensures, find_section_for_span, find_section_from, section_is_executable,
}
use metal_sharp_wine_runtime.Pe.Spans.{Spans, All, code_span, low_of, follows-Ensures}
use metal_sharp_wine_runtime.Pe.Find.{code_type_to_class, find_in_code_ranges, is_x64}
use metal_sharp_wine_runtime.Pe.Ensures.{
  Ensures, holds, Ensures-bind, Ensures-refuse_if, Ensures-expect, Ensures-then,
}
use metal_sharp_wine_runtime.Pe.Tables.{
  is_executable_found, in_executable_section, table_file_span, parse_code_range, parse_code_ranges,
}

-- The first section that contains the address is executable.
abbrev pub IsExecutableAt : List Section → ℕ → Type 0
IsExecutableAt sections rva =
    (found : ℕ × Section) × (find_section_from 0 sections rva 1 ≡ some found)
    × (section_is_executable found.1 ≡ true)

abbrev pub is_code_class : Classification → Bool
is_code_class rva_arm64 = true
is_code_class rva_arm64ec = true
is_code_class rva_x64 = true
is_code_class c = false

-- Code starts and ends in executable sections, and is of one of the three kinds.
pub record IsCode (sections : List Section) (r : CodeRange) : Type 0 where
  pub first : IsExecutableAt sections r.start_rva
  pub last : IsExecutableAt sections (r.end_rva - 1)
  pub known : is_code_class r.isa ≡ true

-- An entry range lies in a range of x64 code and contains its entry point.
pub record IsEntry (code_ranges : List CodeRange) (e : EntryRange) : Type 0 where
  pub code : CodeRange
  pub found : find_in_code_ranges code_ranges e.start_rva ≡ some code
  pub is_x64_code : is_x64 code.isa ≡ true
  pub inside : e.end_rva ≤ code.end_rva
  pub entry_inside : (e.start_rva ≤ e.entry_point_rva) × (e.entry_point_rva < e.end_rva)

is_executable_found_lem :
    (o : Option (ℕ × Section))
    → is_executable_found o ≡ true
    → (found : ℕ × Section) × (o ≡ some found) × (section_is_executable found.1 ≡ true)
is_executable_found_lem none e = absurd (cc e)
is_executable_found_lem (some found) e = (found, refl, e)

in_executable_section_lem :
    (image : Image) (rva : ℕ)
    → in_executable_section image rva ≡ true
    → IsExecutableAt image.sections rva
unfolding find_section_for_span
in_executable_section_lem image rva e =
    is_executable_found_lem (find_section_from 0 image.sections rva 1) e

code_type_to_class_lem :
    (type : ℕ) → type < 4 → (type == 3) ≡ false → is_code_class (code_type_to_class type) ≡ true
unfolding code_type_to_class
code_type_to_class_lem type small e = ground arith

module _ (state : ParserState) (image : Image) (p : IsBytes state.bytes) where
  -- A table lies in the file.
  pub table_file_span-Ensures :
      (rva count record_size : ℕ)
      → image.byte_count ≡ length state.bytes
      → Ensures
          (λ offset. offset + count * record_size ≤ length state.bytes)
          (table_file_span state image rva count record_size)
  unfolding table_file_span
  table_file_span-Ensures rva count record_size counted = elim (Bool-cases (count == 0)) [
    | inl empty ↦ rw empty (holds (let e : count ≡ 0 = ground arith in rw e (omega arith)))
    | inr some_records ↦ rw some_records (
        Ensures-refuse_if _ bad_chpe_metadata λ _.
          Ensures-expect (checked_mul_size count record_size) overflow λ size product.
            Ensures-refuse_if _ overflow λ _.
              rw (← checked_mul_size_lem count record_size size product)
                (rva_to_parser_offset-Ensures state image rva size counted))
  ]

  parse_code_range-Ensures :
      (offset : ℕ) (previous : Option (ℕ × ℕ))
      → offset + 8 ≤ length state.bytes
      → Ensures
          (λ r.
            (low_of previous ≤ r.start_rva)
            × (r.start_rva < r.end_rva)
            × (r.end_rva ≤ image.summary.size_of_image)
            × IsCode image.sections r)
          (parse_code_range state image offset previous)
  unfolding parse_code_range
  parse_code_range-Ensures offset previous h =
      Ensures-bind (read_u32le_unchecked-Ensures state.bytes offset p (omega arith)) λ word _.
        Ensures-bind (read_u32le_unchecked-Ensures state.bytes (offset + 4) p (omega arith))
          λ len hl. Ensures-refuse_if _ bad_chpe_metadata λ good.
            Ensures-expect (checked_add_u32 (word - word % 4) len) bad_chpe_metadata λ end sum.
              let (same, _) = checked_add_u32_lem (word - word % 4) len end hl sum in
              Ensures-refuse_if _ bad_chpe_metadata λ inside.
                Ensures-then (follows-Ensures previous (word - word % 4)) λ _ low.
                  Ensures-refuse_if _ bad_chpe_metadata λ executable.
                    let (first, last) =
                      and-eq_true (in_executable_section image (word - word % 4))
                        (in_executable_section image (end - 1)) (ground arith) in
                    holds (
                      low,
                      ground (arith, same),
                      ground arith,
                      record {
                        first = in_executable_section_lem image (word - word % 4) first;
                        last = in_executable_section_lem image (end - 1) last;
                        known = code_type_to_class_lem (word % 4) (omega arith) (ground arith);
                      },
                    )

  abbrev CodeFit : ℕ → ℕ → List CodeRange → Type 0
  CodeFit left low ranges =
      (length ranges ≡ left)
      × Spans low image.summary.size_of_image (map code_span ranges)
      × All (IsCode image.sections) ranges

  pub parse_code_ranges-Ensures :
      (left offset : ℕ) (previous : Option (ℕ × ℕ))
      → offset + left * 8 ≤ length state.bytes
      → Ensures
          (CodeFit left (low_of previous))
          (parse_code_ranges state image left offset previous)
  unfolding parse_code_ranges
  parse_code_ranges-Ensures zero offset previous h = holds (refl, tt, tt)
  parse_code_ranges-Ensures (suc left) offset previous h =
      Ensures-bind (parse_code_range-Ensures offset previous (omega arith)) λ r c.
        Ensures-bind
          (parse_code_ranges-Ensures left (offset + 8) (some (r.start_rva, r.end_rva))
            (omega arith))
          λ rest f. holds (ap suc f.0, (c.0, c.1, c.2, f.1), (c.3, f.2))
