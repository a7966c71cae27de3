-- ===== src/Pe/Tables/Entries.antt =====
-- src/gem/pe_arm64x.c: what the entry ranges and the redirections satisfy once they are parsed.
use metal_sharp_wine_runtime.Prelude.{
  ℕ, zero, suc, ◌+◌, ◌*◌, ◌≤◌, ◌<◌, ◌≡◌, refl, ap, true, Option, none, some, List, map, length,
  arith,
}
use metal_sharp_wine_runtime.Pe.{
  bad_chpe_metadata, CodeRange, EntryRange, Redirection, Image, ParserState,
}
use metal_sharp_wine_runtime.Pe.Bytes.{IsBytes, read_u32le_unchecked-Ensures}
use metal_sharp_wine_runtime.Pe.Spans.{
  Spans, All, entry_span, redirection_span, low_of, low_source, follows-Ensures,
  source_follows-Ensures,
}
use metal_sharp_wine_runtime.Pe.Find.{
  find_in_code_ranges, find_code_range, is_x64, code_range_contains_x64, is_x64_until,
}
use metal_sharp_wine_runtime.Pe.Ensures.{
  Ensures, holds, Ensures-bind, Ensures-refuse_if, Ensures-then,
}
use metal_sharp_wine_runtime.Pe.Tables.{
  parse_entry_range, parse_entries, parse_redirection, parse_redirection_list,
}
use metal_sharp_wine_runtime.Pe.Tables.Checked.{IsEntry}

is_x64_until_lem :
    (o : Option CodeRange) (end : ℕ)
    → is_x64_until o end ≡ true
    → (code : CodeRange) × (o ≡ some code) × (is_x64 code.isa ≡ true) × (end ≤ code.end_rva)
is_x64_until_lem none end e = absurd (cc e)
is_x64_until_lem (some code) end e = (code, refl, ground arith, ground arith)

code_range_contains_x64-IsEntry :
    (image : Image) (r : EntryRange)
    → code_range_contains_x64 image r.start_rva r.end_rva ≡ true
    → r.start_rva ≤ r.entry_point_rva
    → r.entry_point_rva < r.end_rva
    → IsEntry image.code_ranges r
unfolding code_range_contains_x64 find_code_range
code_range_contains_x64-IsEntry image r e low high =
    let (code, found, x64, inside) =
      is_x64_until_lem (find_in_code_ranges image.code_ranges r.start_rva) r.end_rva e in
    record {
      code = code;
      found = found;
      is_x64_code = x64;
      inside = inside;
      entry_inside = (low, high);
    }

module _ (state : ParserState) (image : Image) (p : IsBytes state.bytes) where
  parse_entry_range-Ensures :
      (offset : ℕ) (previous : Option (ℕ × ℕ))
      → offset + 12 ≤ length state.bytes
      → Ensures
          (λ r.
            (low_of previous ≤ r.start_rva)
            × (r.start_rva < r.end_rva)
            × (r.end_rva ≤ image.summary.size_of_image)
            × IsEntry image.code_ranges r)
          (parse_entry_range state image offset previous)
  unfolding parse_entry_range
  parse_entry_range-Ensures offset previous h =
      Ensures-bind (read_u32le_unchecked-Ensures state.bytes offset p (omega arith)) λ start _.
        Ensures-bind (read_u32le_unchecked-Ensures state.bytes (offset + 4) p (omega arith))
          λ end _.
            Ensures-bind (read_u32le_unchecked-Ensures state.bytes (offset + 8) p (omega arith))
              λ entry _. Ensures-refuse_if _ bad_chpe_metadata λ good.
                Ensures-then (follows-Ensures previous start) λ _ low.
                  Ensures-refuse_if _ bad_chpe_metadata λ code. holds (
                    low,
                    ground arith,
                    ground arith,
                    code_range_contains_x64-IsEntry image
                        (record { start_rva = start; end_rva = end; entry_point_rva = entry })
                        (ground arith) (ground arith) (ground arith),
                  )

  abbrev EntriesFit : ℕ → ℕ → List EntryRange → Type 0
  EntriesFit left low ranges =
      (length ranges ≡ left)
      × Spans low image.summary.size_of_image (map entry_span ranges)
      × All (IsEntry image.code_ranges) ranges

  pub parse_entries-Ensures :
      (left offset : ℕ) (previous : Option (ℕ × ℕ))
      → offset + left * 12 ≤ length state.bytes
      → Ensures (EntriesFit left (low_of previous)) (parse_entries state image left offset previous)
  unfolding parse_entries
  parse_entries-Ensures zero offset previous h = holds (refl, tt, tt)
  parse_entries-Ensures (suc left) offset previous h =
      Ensures-bind (parse_entry_range-Ensures offset previous (omega arith)) λ r c.
        Ensures-bind
          (parse_entries-Ensures left (offset + 12) (some (r.start_rva, r.end_rva)) (omega arith))
          λ rest f. holds (ap suc f.0, (c.0, c.1, c.2, f.1), (c.3, f.2))

  parse_redirection-Ensures :
      (offset : ℕ) (previous : Option ℕ)
      → offset + 8 ≤ length state.bytes
      → Ensures
          (λ r.
            (low_source previous ≤ r.source_rva)
            × (r.source_rva < image.summary.size_of_image)
            × (r.destination_rva < image.summary.size_of_image))
          (parse_redirection state image offset previous)
  unfolding parse_redirection
  parse_redirection-Ensures offset previous h =
      Ensures-bind (read_u32le_unchecked-Ensures state.bytes offset p (omega arith)) λ source _.
        Ensures-bind (read_u32le_unchecked-Ensures state.bytes (offset + 4) p (omega arith))
          λ destination _. Ensures-refuse_if _ bad_chpe_metadata λ good.
            Ensures-then (source_follows-Ensures previous source)
              λ _ low. holds (low, ground arith, ground arith)

  abbrev RedirectionsFit : ℕ → ℕ → List Redirection → Type 0
  RedirectionsFit left low redirections =
      (length redirections ≡ left)
      × Spans low image.summary.size_of_image (map redirection_span redirections)
      × All (λ r. r.destination_rva < image.summary.size_of_image) redirections

  pub parse_redirection_list-Ensures :
      (left offset : ℕ) (previous : Option ℕ)
      → offset + left * 8 ≤ length state.bytes
      → Ensures
          (RedirectionsFit left (low_source previous))
          (parse_redirection_list state image left offset previous)
  unfolding parse_redirection_list
  parse_redirection_list-Ensures zero offset previous h = holds (refl, tt, tt)
  parse_redirection_list-Ensures (suc left) offset previous h =
      Ensures-bind (parse_redirection-Ensures offset previous (omega arith)) λ r c.
        Ensures-bind
          (parse_redirection_list-Ensures left (offset + 8) (some r.source_rva) (omega arith))
          λ rest f. holds (ap suc f.0, (c.0, omega arith, omega (arith, c.1), f.1), (c.2, f.2))
