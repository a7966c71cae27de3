-- ===== src/Pe/Tables.antt =====
-- src/gem/pe_arm64x.c: the tables that the CHPE metadata names.
pub mod Checked
pub mod Entries
use metal_sharp_wine_runtime.Prelude.{
  ℕ, zero, suc, ◌+◌, ◌-◌, ◌*◌, ◌%◌, ◌^◌, ◌≡◌, bit_and, Bool, true, false, ◌&&◌, ◌||◌, not, Option,
  none, some, List, [], ◌∷◌, ◌==◌, ◌!=◌, ltb, leb, if◌then◌else◌,
}
use metal_sharp_wine_runtime.Pe.{
  PeStatus, overflow, limit_exceeded, bad_chpe_metadata, unsorted_ranges, overlapping_ranges,
  Attempt, done, ◌>>=◌, ◌>>◌, refuse_if, expect, fail_as, Section, CodeRange, EntryRange,
  Redirection, Image, Summary, ParserState, ParseOptions, Allocations, ChpeFields,
}
use metal_sharp_wine_runtime.Pe.Bytes.{
  checked_add_size, checked_mul_size, checked_add_u32, read_u32le_unchecked,
}
use metal_sharp_wine_runtime.Pe.Span.{
  rva_to_parser_offset, find_section_for_span, section_is_executable,
}
use metal_sharp_wine_runtime.Pe.Find.{code_type_to_class, code_range_contains_x64}
use metal_sharp_wine_runtime.Pe.Headers.{follows}

abbrev pub default_max_metadata_bytes : ℕ
default_max_metadata_bytes = 8388608

abbrev pub code_map_record_size : ℕ
code_map_record_size = 8

abbrev pub entry_record_size : ℕ
entry_record_size = 12

abbrev pub redirection_record_size : ℕ
redirection_record_size = 8

-- The sizes of the structs in memory: three words, three words, two words.
abbrev sizeof_code_range : ℕ
sizeof_code_range = 12

abbrev sizeof_entry_range : ℕ
sizeof_entry_range = 12

abbrev sizeof_redirection : ℕ
sizeof_redirection = 8

-- `if (count != 0U) { array = calloc(...); if (array == NULL) return ...; }`
abbrev allocate_array : ℕ → Bool → Attempt Bool
allocate_array count allocated = refuse_if (count != 0 && not allocated) limit_exceeded

unfoldable pub allocate_metadata_arrays : ParserState → Image → ChpeFields → Attempt Image
unfolding checked_mul_size checked_add_size
allocate_metadata_arrays state image fields = do
  refuse_if
      (ltb state.options.max_code_ranges fields.code_map_count
        || ltb state.options.max_entry_ranges fields.entry_range_count
        || ltb state.options.max_redirections fields.redirection_count)
      limit_exceeded
  code_bytes ← expect (checked_mul_size fields.code_map_count sizeof_code_range) overflow
  entry_bytes ← expect (checked_mul_size fields.entry_range_count sizeof_entry_range) overflow
  redirection_bytes ← expect (checked_mul_size fields.redirection_count sizeof_redirection) overflow
  ranges ← expect (checked_add_size code_bytes entry_bytes) overflow
  total ← expect (checked_add_size ranges redirection_bytes) overflow
  refuse_if (ltb default_max_metadata_bytes total) limit_exceeded
  allocate_array fields.code_map_count state.allocations.code_ranges_allocated
  allocate_array fields.entry_range_count state.allocations.entry_ranges_allocated
  allocate_array fields.redirection_count state.allocations.redirections_allocated
  done (record image {
    summary = record image.summary {
      code_range_count = fields.code_map_count;
      entry_range_count = fields.entry_range_count;
      redirection_count = fields.redirection_count;
    };
  })

-- `status == GEM_PE_ERROR_OVERFLOW ? status : GEM_PE_ERROR_BAD_CHPE_METADATA`
abbrev pub table_status : PeStatus → PeStatus
table_status overflow = overflow
table_status e = bad_chpe_metadata

unfoldable pub table_file_span : ParserState → Image → ℕ → ℕ → ℕ → Attempt ℕ
unfolding checked_mul_size rva_to_parser_offset
table_file_span state image rva count record_size = if count == 0 then done 0 else (do
  refuse_if (rva == 0) bad_chpe_metadata
  table_size ← expect (checked_mul_size count record_size) overflow
  refuse_if (ltb (2 ^ 32 - 1) table_size) overflow
  rva_to_parser_offset state image rva table_size)

abbrev pub is_executable_found : Option (ℕ × Section) → Bool
is_executable_found none = false
is_executable_found (some (index, s)) = section_is_executable s

abbrev pub in_executable_section : Image → ℕ → Bool
in_executable_section image rva = is_executable_found (find_section_for_span image rva 1)

unfoldable pub parse_code_range : ParserState → Image → ℕ → Option (ℕ × ℕ) → Attempt CodeRange
unfolding read_u32le_unchecked checked_add_u32 follows find_section_for_span section_is_executable
    code_type_to_class
parse_code_range state image offset previous = do
  start_offset ← read_u32le_unchecked state.bytes offset
  length ← read_u32le_unchecked state.bytes (offset + 4)
  let type = start_offset % 4
  let start = start_offset - start_offset % 4
  refuse_if (length == 0 || type == 3) bad_chpe_metadata
  end ← expect (checked_add_u32 start length) bad_chpe_metadata
  refuse_if (ltb image.summary.size_of_image end) bad_chpe_metadata
  follows previous start
  refuse_if (not (in_executable_section image start && in_executable_section image (end - 1)))
      bad_chpe_metadata
  done (record { start_rva = start; end_rva = end; isa = code_type_to_class type })

-- The loop over the code map.
unfoldable pub parse_code_ranges :
    ParserState → Image → ℕ → ℕ → Option (ℕ × ℕ) → Attempt (List CodeRange)
unfolding parse_code_range
parse_code_ranges state image zero offset previous = done []
parse_code_ranges state image (suc left) offset previous = do
  range ← parse_code_range state image offset previous
  rest ←
      parse_code_ranges state image left (offset + code_map_record_size)
        (some (range.start_rva, range.end_rva))
  done (range ∷ rest)

unfoldable pub parse_code_map : ParserState → Image → ChpeFields → Attempt Image
unfolding table_file_span parse_code_ranges
parse_code_map state image fields = do
  table_offset ←
      fail_as table_status
        (table_file_span state image fields.code_map_rva fields.code_map_count code_map_record_size)
  ranges ← parse_code_ranges state image fields.code_map_count table_offset none
  done (record image { code_ranges = ranges })

unfoldable pub parse_entry_range : ParserState → Image → ℕ → Option (ℕ × ℕ) → Attempt EntryRange
unfolding read_u32le_unchecked follows code_range_contains_x64
parse_entry_range state image offset previous = do
  start ← read_u32le_unchecked state.bytes offset
  end ← read_u32le_unchecked state.bytes (offset + 4)
  entry ← read_u32le_unchecked state.bytes (offset + 8)
  refuse_if
      (leb end start || ltb image.summary.size_of_image end || ltb entry start || leb end entry)
      bad_chpe_metadata
  follows previous start
  refuse_if (not (code_range_contains_x64 image start end)) bad_chpe_metadata
  done (record { start_rva = start; end_rva = end; entry_point_rva = entry })

-- The loop over the entry ranges.
unfoldable pub parse_entries :
    ParserState → Image → ℕ → ℕ → Option (ℕ × ℕ) → Attempt (List EntryRange)
unfolding parse_entry_range
parse_entries state image zero offset previous = done []
parse_entries state image (suc left) offset previous = do
  range ← parse_entry_range state image offset previous
  rest ←
      parse_entries state image left (offset + entry_record_size)
        (some (range.start_rva, range.end_rva))
  done (range ∷ rest)

unfoldable pub parse_entry_ranges : ParserState → Image → ChpeFields → Attempt Image
unfolding table_file_span parse_entries
parse_entry_ranges state image fields = do
  table_offset ← fail_as table_status (
      table_file_span state image fields.entry_ranges_rva fields.entry_range_count
        entry_record_size)
  ranges ← parse_entries state image fields.entry_range_count table_offset none
  done (record image { entry_ranges = ranges })

-- A source must be behind the one before it, if there is one.
unfoldable pub source_follows : Option ℕ → ℕ → Attempt Bool
source_follows none source = done true
source_follows (some previous) source = do
  refuse_if (ltb source previous) unsorted_ranges
  refuse_if (source == previous) overlapping_ranges

unfoldable pub parse_redirection : ParserState → Image → ℕ → Option ℕ → Attempt Redirection
unfolding read_u32le_unchecked source_follows
parse_redirection state image offset previous = do
  source ← read_u32le_unchecked state.bytes offset
  destination ← read_u32le_unchecked state.bytes (offset + 4)
  refuse_if (leb image.summary.size_of_image source || leb image.summary.size_of_image destination)
      bad_chpe_metadata
  source_follows previous source
  done (record { source_rva = source; destination_rva = destination })

-- The loop over the redirections.
unfoldable pub parse_redirection_list :
    ParserState → Image → ℕ → ℕ → Option ℕ → Attempt (List Redirection)
unfolding parse_redirection
parse_redirection_list state image zero offset previous = done []
parse_redirection_list state image (suc left) offset previous = do
  redirection ← parse_redirection state image offset previous
  rest ←
      parse_redirection_list state image left (offset + redirection_record_size)
        (some redirection.source_rva)
  done (redirection ∷ rest)

unfoldable pub parse_redirections : ParserState → Image → ChpeFields → Attempt Image
unfolding table_file_span parse_redirection_list
parse_redirections state image fields = do
  table_offset ← fail_as table_status (
      table_file_span state image fields.redirections_rva fields.redirection_count
        redirection_record_size)
  redirections ← parse_redirection_list state image fields.redirection_count table_offset none
  done (record image { redirections = redirections })
