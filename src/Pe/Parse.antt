-- ===== src/Pe/Parse.antt =====
-- src/gem/pe_arm64x.c: `parse_image`, and its two entry points. A null pointer is `none`, or `false`
-- for the pointer to the result.
pub mod Parsed
use metal_sharp_wine_runtime.Prelude.{
  ℕ, ◌≡◌, Bool, true, false, ◌&&◌, ◌||◌, not, Option, none, some, List, [], ◌∷◌, ◌==◌, ◌!=◌,
  if◌then◌else◌, length,
}
use metal_sharp_wine_runtime.Pe.{
  PeStatus, invalid_argument, limit_exceeded, Attempt, done, failed, ◌>>=◌, ◌>>◌, refuse_if, expect,
  Image, empty_image, ParserState, ParseOptions, Allocations,
}
use metal_sharp_wine_runtime.Pe.Headers.{parse_headers}
use metal_sharp_wine_runtime.Pe.LoadConfig.{parse_load_config_and_chpe}
use metal_sharp_wine_runtime.Pe.Tables.{
  allocate_metadata_arrays, parse_code_map, parse_entry_ranges, parse_redirections,
}

abbrev pub parse_options_version : ℕ
parse_options_version = 1

unfoldable pub default_parse_options : ParseOptions
default_parse_options = record {
  version = parse_options_version;
  max_sections = 96;
  max_code_ranges = 4096;
  max_entry_ranges = 65536;
  max_redirections = 65536;
}

unfoldable pub copy_options : Option ParseOptions → Attempt ParseOptions
unfolding default_parse_options
copy_options none = done default_parse_options
copy_options (some options) = do
  refuse_if
      (options.version != parse_options_version
        || options.max_sections == 0
        || options.max_code_ranges == 0
        || options.max_entry_ranges == 0
        || options.max_redirections == 0)
      invalid_argument
  done options

-- The stages, on an image that is allocated. When one fails the image is destroyed.
unfoldable pub run_stages : ParserState → Attempt Image
unfolding parse_headers parse_load_config_and_chpe allocate_metadata_arrays parse_code_map
    parse_entry_ranges parse_redirections
run_stages state = do
  (headed, load_config_dir_offset) ← parse_headers state (empty_image (length state.bytes))
  (configured, fields) ← parse_load_config_and_chpe state headed load_config_dir_offset
  allocated ← allocate_metadata_arrays state configured fields
  mapped ← parse_code_map state allocated fields
  entered ← parse_entry_ranges state mapped fields
  parse_redirections state entered fields

unfoldable pub parse_bytes : Allocations → List ℕ → ℕ → Bool → Option ParseOptions → Attempt Image
unfolding copy_options run_stages
parse_bytes allocations bytes loaded_base mapped_image options = do
  refuse_if (length bytes == 0 || (mapped_image && loaded_base == 0)) invalid_argument
  copied ← copy_options options
  refuse_if (not allocations.image_allocated) limit_exceeded
  run_stages (record {
    bytes = bytes;
    loaded_base = loaded_base;
    mapped_image = mapped_image;
    options = copied;
    allocations = allocations;
  })

unfoldable pub parse_image :
    Allocations → Option (List ℕ) → ℕ → Bool → Option ParseOptions → Bool → Attempt Image
unfolding parse_bytes
parse_image allocations bytes loaded_base mapped_image options false = failed invalid_argument
parse_image allocations none loaded_base mapped_image options true = failed invalid_argument
parse_image allocations (some bytes) loaded_base mapped_image options true =
    parse_bytes allocations bytes loaded_base mapped_image options

unfoldable pub parse_file :
    Allocations → Option (List ℕ) → Option ParseOptions → Bool → Attempt Image
unfolding parse_image
parse_file allocations bytes options out = parse_image allocations bytes 0 false options out

unfoldable pub parse_mapped :
    Allocations → Option (List ℕ) → ℕ → Option ParseOptions → Bool → Attempt Image
unfolding parse_image
parse_mapped allocations bytes loaded_base options out =
    parse_image allocations bytes loaded_base true options out
