-- ===== src/Pe/LoadConfig.antt =====
-- src/gem/pe_arm64x.c: `parse_load_config_and_chpe`.
pub mod Checked
use metal_sharp_wine_runtime.Prelude.{
  ℕ, ◌+◌, ◌-◌, ◌^◌, ◌≡◌, Bool, ◌&&◌, ◌||◌, ◌==◌, ◌!=◌, ltb, leb, if◌then◌else◌, length,
}
use metal_sharp_wine_runtime.Pe.{
  PeStatus, bad_load_config, no_chpe_metadata, bad_chpe_metadata, unsupported_chpe_version, Attempt,
  done, ◌>>=◌, ◌>>◌, refuse_if, fail_as, Image, Summary, ParserState, ChpeFields,
}
use metal_sharp_wine_runtime.Pe.Bytes.{read_u32le_unchecked, read_u64le_unchecked}
use metal_sharp_wine_runtime.Pe.Span.{rva_to_parser_offset}

abbrev pub chpe_pointer_offset : ℕ
chpe_pointer_offset = 0xC8

abbrev pub chpe_pointer_end : ℕ
chpe_pointer_end = 0xD0

abbrev pub chpe_metadata_v1_size : ℕ
chpe_metadata_v1_size = 80

abbrev pub chpe_metadata_v2_size : ℕ
chpe_metadata_v2_size = 92

-- The address of the CHPE metadata in the image.
unfoldable pub find_chpe_metadata : ParserState → Image → ℕ → ℕ → Attempt ℕ
unfolding rva_to_parser_offset read_u32le_unchecked read_u64le_unchecked
find_chpe_metadata state image load_config_rva load_config_size = do
  refuse_if (load_config_rva == 0 || ltb load_config_size chpe_pointer_end) bad_load_config
  load_config_offset ←
      fail_as (λ _. bad_load_config)
        (rva_to_parser_offset state image load_config_rva chpe_pointer_end)
  load_config_internal_size ← read_u32le_unchecked state.bytes load_config_offset
  refuse_if (ltb load_config_internal_size chpe_pointer_end) bad_load_config
  chpe_va ← read_u64le_unchecked state.bytes (load_config_offset + chpe_pointer_offset)
  refuse_if (chpe_va == 0) no_chpe_metadata
  let base = if state.mapped_image then state.loaded_base else image.summary.image_base
  refuse_if (ltb chpe_va base) bad_load_config
  refuse_if (ltb (2 ^ 32 - 1) (chpe_va - base)) bad_load_config
  done (chpe_va - base)

-- The fields of the CHPE metadata that the parser uses.
unfoldable pub read_chpe_metadata : ParserState → Image → ℕ → Attempt ChpeFields
unfolding rva_to_parser_offset read_u32le_unchecked
read_chpe_metadata state image chpe_metadata_rva = do
  let bytes = state.bytes
  version_offset ←
      fail_as (λ _. bad_chpe_metadata) (rva_to_parser_offset state image chpe_metadata_rva 4)
  version ← read_u32le_unchecked bytes version_offset
  refuse_if (version != 1 && version != 2) unsupported_chpe_version
  let metadata_size = if version == 1 then chpe_metadata_v1_size else chpe_metadata_v2_size
  offset ←
      fail_as (λ _. bad_chpe_metadata)
        (rva_to_parser_offset state image chpe_metadata_rva metadata_size)
  code_map_rva ← read_u32le_unchecked bytes (offset + 4)
  code_map_count ← read_u32le_unchecked bytes (offset + 8)
  entry_ranges_rva ← read_u32le_unchecked bytes (offset + 12)
  redirections_rva ← read_u32le_unchecked bytes (offset + 16)
  entry_range_count ← read_u32le_unchecked bytes (offset + 48)
  redirection_count ← read_u32le_unchecked bytes (offset + 52)
  done (record {
    version = version;
    code_map_rva = code_map_rva;
    code_map_count = code_map_count;
    entry_ranges_rva = entry_ranges_rva;
    redirections_rva = redirections_rva;
    entry_range_count = entry_range_count;
    redirection_count = redirection_count;
  })

-- The stores in the summary.
abbrev pub with_load_config : Image → ℕ → ℕ → ℕ → ℕ → Image
with_load_config image rva size metadata_rva version = record image {
  summary = record image.summary {
    load_config_rva = rva;
    load_config_size = size;
    chpe_metadata_rva = metadata_rva;
    chpe_metadata_version = version;
  };
}

-- The image with its summary filled further, and the fields.
unfoldable pub parse_load_config_and_chpe : ParserState → Image → ℕ → Attempt (Image × ChpeFields)
unfolding read_u32le_unchecked find_chpe_metadata read_chpe_metadata
parse_load_config_and_chpe state image load_config_dir_offset = do
  load_config_rva ← read_u32le_unchecked state.bytes load_config_dir_offset
  load_config_size ← read_u32le_unchecked state.bytes (load_config_dir_offset + 4)
  chpe_metadata_rva ← find_chpe_metadata state image load_config_rva load_config_size
  fields ← read_chpe_metadata state image chpe_metadata_rva
  done (
    with_load_config image load_config_rva load_config_size chpe_metadata_rva fields.version,
    fields,
  )
