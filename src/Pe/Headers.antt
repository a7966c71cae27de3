-- ===== src/Pe/Headers.antt =====
-- src/gem/pe_arm64x.c: `parse_headers`.
pub mod Fields
pub mod Checked
use metal_sharp_wine_runtime.Prelude.{
  ℕ, zero, suc, ◌+◌, ◌-◌, ◌*◌, ◌≤◌, ◌<◌, ◌≡◌, refl, bit_and, Bool, true, false, ◌&&◌, ◌||◌, not,
  Option, none, some, List, [], ◌∷◌, ◌==◌, ◌!=◌, ltb, leb, if◌then◌else◌, length, arith,
}
use metal_sharp_wine_runtime.Pe.{
  PeStatus, truncated, bad_dos_header, bad_pe_signature, unsupported_format, limit_exceeded,
  overflow, bad_optional_header, bad_section_table, unsorted_ranges, overlapping_ranges, Attempt,
  done, failed, ◌>>=◌, ◌>>◌, refuse_if, expect, Section, Image, Summary, ParserState, ParseOptions,
  Allocations,
}
use metal_sharp_wine_runtime.Pe.Bytes.{
  checked_add_u32, checked_add_size, checked_mul_size, at_most, file_span_fits, byte_at,
  read_u16le_unchecked, read_u32le_unchecked, read_u64le_unchecked,
}
use metal_sharp_wine_runtime.Pe.Span.{section_virtual_extent}

abbrev pub dos_header_min_size : ℕ
dos_header_min_size = 64

abbrev pub pe_signature : ℕ
pe_signature = 0x00004550

abbrev pub machine_arm64x : ℕ
machine_arm64x = 0xA64E

abbrev pub machine_arm64ec : ℕ
machine_arm64ec = 0xA641

abbrev pub machine_arm64 : ℕ
machine_arm64 = 0xAA64

abbrev pub machine_amd64 : ℕ
machine_amd64 = 0x8664

abbrev pub optional_magic_pe32_plus : ℕ
optional_magic_pe32_plus = 0x020B

abbrev pub directory_load_config : ℕ
directory_load_config = 10

abbrev pub data_directory_offset : ℕ
data_directory_offset = 112

abbrev pub data_directory_size : ℕ
data_directory_size = 8

abbrev pub section_header_size : ℕ
section_header_size = 40

abbrev pub coff_header_size : ℕ
coff_header_size = 20

-- What the optional header of COFF says of the file.
pub record CoffHeader : Type 0 where
  pub machine : ℕ
  pub section_count : ℕ
  pub optional_header_size : ℕ
  pub optional_offset : ℕ

-- The offset of the PE signature.
unfoldable pub parse_dos_header : List ℕ → Attempt ℕ
unfolding byte_at read_u32le_unchecked file_span_fits
parse_dos_header bytes = do
  refuse_if (ltb (length bytes) dos_header_min_size) truncated
  b0 ← byte_at bytes 0
  b1 ← byte_at bytes 1
  refuse_if (b0 != b'M' || b1 != b'Z') bad_dos_header
  pe_offset ← read_u32le_unchecked bytes 0x3C
  refuse_if (ltb pe_offset dos_header_min_size) bad_dos_header
  refuse_if (not (file_span_fits (length bytes) pe_offset (4 + coff_header_size))) truncated
  signature ← read_u32le_unchecked bytes pe_offset
  refuse_if (signature != pe_signature) bad_pe_signature
  done pe_offset

-- The test of the machine.
unfoldable pub machine_supported : Bool → ℕ → Bool
machine_supported mapped_image machine =
    machine == machine_arm64
    || machine == machine_arm64x
    || (mapped_image && (machine == machine_arm64ec || machine == machine_amd64))

-- The COFF header, and the offset of the section table.
unfoldable pub parse_coff_header : ParserState → ℕ → Attempt (CoffHeader × ℕ)
unfolding read_u16le_unchecked machine_supported checked_add_size file_span_fits
parse_coff_header state pe_offset = do
  let coff_offset = pe_offset + 4
  machine ← read_u16le_unchecked state.bytes coff_offset
  section_count ← read_u16le_unchecked state.bytes (coff_offset + 2)
  optional_header_size ← read_u16le_unchecked state.bytes (coff_offset + 16)
  refuse_if (not (machine_supported state.mapped_image machine)) unsupported_format
  refuse_if (section_count == 0 || ltb state.options.max_sections section_count) limit_exceeded
  let optional_offset = coff_offset + coff_header_size
  section_table_offset ← expect (checked_add_size optional_offset optional_header_size) overflow
  refuse_if (not (file_span_fits (length state.bytes) optional_offset optional_header_size))
      truncated
  refuse_if
      (ltb optional_header_size
        (data_directory_offset + (directory_load_config + 1) * data_directory_size))
      bad_optional_header
  done (
    record {
      machine = machine;
      section_count = section_count;
      optional_header_size = optional_header_size;
      optional_offset = optional_offset;
    },
    section_table_offset,
  )

-- The fields of the optional header, with the two counters that are stored later.
unfoldable pub parse_optional_header : ParserState → Image → CoffHeader → Attempt Image
unfolding read_u16le_unchecked read_u32le_unchecked read_u64le_unchecked
parse_optional_header state image coff = do
  let bytes = state.bytes
  let optional_offset = coff.optional_offset
  optional_magic ← read_u16le_unchecked bytes optional_offset
  refuse_if (optional_magic != optional_magic_pe32_plus) unsupported_format
  address_of_entry_point ← read_u32le_unchecked bytes (optional_offset + 16)
  image_base ← read_u64le_unchecked bytes (optional_offset + 24)
  section_alignment ← read_u32le_unchecked bytes (optional_offset + 32)
  file_alignment ← read_u32le_unchecked bytes (optional_offset + 36)
  size_of_image ← read_u32le_unchecked bytes (optional_offset + 56)
  size_of_headers ← read_u32le_unchecked bytes (optional_offset + 60)
  number_of_rva_and_sizes ← read_u32le_unchecked bytes (optional_offset + 108)
  refuse_if
      (section_alignment == 0
        || file_alignment == 0
        || ltb section_alignment file_alignment
        || size_of_image == 0
        || size_of_headers == 0
        || leb number_of_rva_and_sizes directory_load_config)
      bad_optional_header
  refuse_if (ltb (length bytes) size_of_headers) bad_optional_header
  refuse_if (state.mapped_image && ltb (length bytes) size_of_image) bad_optional_header
  done (record image {
    size_of_headers = size_of_headers;
    summary = record image.summary {
      address_of_entry_point = address_of_entry_point;
      image_base = image_base;
      size_of_image = size_of_image;
      size_of_headers = size_of_headers;
      machine = coff.machine;
      section_count = coff.section_count;
    };
  })

unfoldable pub read_section : List ℕ → ℕ → Attempt Section
unfolding read_u32le_unchecked
read_section bytes offset = do
  virtual_size ← read_u32le_unchecked bytes (offset + 8)
  virtual_address ← read_u32le_unchecked bytes (offset + 12)
  raw_size ← read_u32le_unchecked bytes (offset + 16)
  raw_pointer ← read_u32le_unchecked bytes (offset + 20)
  characteristics ← read_u32le_unchecked bytes (offset + 36)
  done (record {
    virtual_address = virtual_address;
    virtual_size = virtual_size;
    raw_size = raw_size;
    raw_pointer = raw_pointer;
    characteristics = characteristics;
  })

-- A range must start at or behind the start and the end of the one before it, if there is one.
unfoldable pub follows : Option (ℕ × ℕ) → ℕ → Attempt Bool
follows none start = done true
follows (some (previous_start, previous_end)) start = do
  refuse_if (ltb start previous_start) unsorted_ranges
  refuse_if (ltb start previous_end) overlapping_ranges

-- The tests of a section; its end.
unfoldable pub check_section : ParserState → ℕ → Option (ℕ × ℕ) → Section → Attempt ℕ
unfolding section_virtual_extent checked_add_u32 follows
check_section state size_of_image previous s = do
  refuse_if (section_virtual_extent s == 0) bad_section_table
  section_end ←
      expect (checked_add_u32 s.virtual_address (section_virtual_extent s)) bad_section_table
  refuse_if (ltb size_of_image section_end) bad_section_table
  follows previous s.virtual_address
  refuse_if
      (not state.mapped_image
        && s.raw_size != 0
        && not (at_most (checked_add_u32 s.raw_pointer s.raw_size) (length state.bytes)))
      bad_section_table
  done section_end

-- The loop over the section table, with the sections left, the offset of the next one, and the start
-- and the end of the one before it.
unfoldable pub parse_sections : ParserState → ℕ → ℕ → ℕ → Option (ℕ × ℕ) → Attempt (List Section)
unfolding read_section check_section
parse_sections state size_of_image zero offset previous = done []
parse_sections state size_of_image (suc left) offset previous = do
  s ← read_section state.bytes offset
  section_end ← check_section state size_of_image previous s
  rest ←
      parse_sections state size_of_image left (offset + section_header_size)
        (some (s.virtual_address, section_end))
  done (s ∷ rest)

-- The image, and the offset of the directory of the load configuration.
unfoldable pub parse_headers : ParserState → Image → Attempt (Image × ℕ)
unfolding parse_dos_header parse_coff_header parse_optional_header parse_sections checked_mul_size
    file_span_fits
parse_headers state image = do
  pe_offset ← parse_dos_header state.bytes
  (coff, section_table_offset) ← parse_coff_header state pe_offset
  filled ← parse_optional_header state image coff
  section_table_size ←
      expect (checked_mul_size coff.section_count section_header_size) bad_section_table
  refuse_if (not (file_span_fits (length state.bytes) section_table_offset section_table_size))
      bad_section_table
  refuse_if (not state.allocations.sections_allocated) limit_exceeded
  sections ←
      parse_sections state filled.summary.size_of_image coff.section_count section_table_offset none
  done (
    record filled { sections = sections },
    coff.optional_offset + data_directory_offset + directory_load_config * data_directory_size,
  )
