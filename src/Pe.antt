-- ===== src/Pe.antt =====
-- src/gem/pe_arm64x.c and include/metalsharp/gem/pe_arm64x.h: the parser of ARM64X images. The
-- buffer is the list of its bytes, so that its length is `byte_count`; a read behind its end is
-- `fault`. Sums of offsets that the code does not check stay inside the buffer, which the absence of
-- a fault shows, and so do not wrap around.
pub mod Ensures
pub mod Bytes
pub mod Span
pub mod Headers
pub mod LoadConfig
pub mod Tables
pub mod Find
pub mod Parse
pub mod Accessors
pub mod Classify
pub mod Spans
use metal_sharp_wine_runtime.Prelude.{ℕ, Bool, true, false, Option, List, []}

-- `enum gem_pe_status`
pub data PeStatus : Type 0 where
  ok invalid_argument unsupported_format truncated overflow limit_exceeded : PeStatus
  bad_dos_header bad_pe_signature bad_coff_header bad_optional_header bad_section_table : PeStatus
  bad_rva bad_load_config no_chpe_metadata bad_chpe_metadata unsupported_chpe_version : PeStatus
  unsorted_ranges overlapping_ranges : PeStatus

-- `enum gem_pe_rva_class`
pub data Classification : Type 0 where
  rva_invalid rva_data rva_arm64 rva_arm64ec rva_x64 rva_thunk rva_fast_forward : Classification

-- A function that returns a status and stores a value on success. `fault` is undefined behaviour.
pub data Attempt (A : Type 0) : Type 0 where
  done : A → Attempt A
  failed : PeStatus → Attempt A
  fault : Attempt A

infixl 5 ◌>>=◌ ◌>>◌
unfoldable pub ◌>>=◌ : {A B : Type 0} → Attempt A → (A → Attempt B) → Attempt B
done a >>= f = f a
failed e >>= f = failed e
fault >>= f = fault

unfoldable pub ◌>>◌ : {B : Type 0} → Attempt Bool → Attempt B → Attempt B
unfolding ◌>>=◌
m >> k = m >>= λ _. k

-- `if (test) return status;`
unfoldable pub refuse_if : Bool → PeStatus → Attempt Bool
refuse_if true e = failed e
refuse_if false e = done true

-- `if (!call(&x)) return status;`
unfoldable pub expect : {A : Type 0} → Option A → PeStatus → Attempt A
expect (Option.some a) e = done a
expect Option.none e = failed e

-- `if (status != GEM_PE_OK) return another;`
unfoldable pub fail_as : {A : Type 0} → (PeStatus → PeStatus) → Attempt A → Attempt A
fail_as f (done a) = done a
fail_as f (failed e) = failed (f e)
fail_as f fault = fault

-- `struct pe_section`
pub record Section : Type 0 where
  pub virtual_address : ℕ
  pub virtual_size : ℕ
  pub raw_size : ℕ
  pub raw_pointer : ℕ
  pub characteristics : ℕ

-- `struct gem_pe_arm64x_code_range`
pub record CodeRange : Type 0 where
  pub start_rva : ℕ
  pub end_rva : ℕ
  pub isa : Classification

-- `struct gem_pe_arm64x_entry_range`
pub record EntryRange : Type 0 where
  pub start_rva : ℕ
  pub end_rva : ℕ
  pub entry_point_rva : ℕ

-- `struct gem_pe_arm64x_redirection`
pub record Redirection : Type 0 where
  pub source_rva : ℕ
  pub destination_rva : ℕ

-- `struct gem_pe_arm64x_summary`
pub record Summary : Type 0 where
  pub machine : ℕ
  pub section_count : ℕ
  pub image_base : ℕ
  pub size_of_image : ℕ
  pub size_of_headers : ℕ
  pub address_of_entry_point : ℕ
  pub load_config_rva : ℕ
  pub load_config_size : ℕ
  pub chpe_metadata_rva : ℕ
  pub chpe_metadata_version : ℕ
  pub code_range_count : ℕ
  pub entry_range_count : ℕ
  pub redirection_count : ℕ

-- `struct gem_pe_arm64x_image`; an array is the list of its elements that are filled.
pub record Image : Type 0 where
  pub summary : Summary
  pub byte_count : ℕ
  pub size_of_headers : ℕ
  pub sections : List Section
  pub code_ranges : List CodeRange
  pub entry_ranges : List EntryRange
  pub redirections : List Redirection

-- `struct gem_pe_arm64x_parse_options`
pub record ParseOptions : Type 0 where
  pub version : ℕ
  pub max_sections : ℕ
  pub max_code_ranges : ℕ
  pub max_entry_ranges : ℕ
  pub max_redirections : ℕ

-- Which calls of `calloc` return memory.
pub record Allocations : Type 0 where
  pub image_allocated : Bool
  pub sections_allocated : Bool
  pub code_ranges_allocated : Bool
  pub entry_ranges_allocated : Bool
  pub redirections_allocated : Bool

-- `struct parser_state` without the image, which the functions take and return.
pub record ParserState : Type 0 where
  pub bytes : List ℕ
  pub loaded_base : ℕ
  pub mapped_image : Bool
  pub options : ParseOptions
  pub allocations : Allocations

-- `struct chpe_metadata_fields`
pub record ChpeFields : Type 0 where
  pub version : ℕ
  pub code_map_rva : ℕ
  pub code_map_count : ℕ
  pub entry_ranges_rva : ℕ
  pub redirections_rva : ℕ
  pub entry_range_count : ℕ
  pub redirection_count : ℕ

-- `memset(&summary, 0, ...)` and `calloc` of the image
abbrev pub empty_summary : Summary
empty_summary = record {
  machine = 0;
  section_count = 0;
  image_base = 0;
  size_of_image = 0;
  size_of_headers = 0;
  address_of_entry_point = 0;
  load_config_rva = 0;
  load_config_size = 0;
  chpe_metadata_rva = 0;
  chpe_metadata_version = 0;
  code_range_count = 0;
  entry_range_count = 0;
  redirection_count = 0;
}

abbrev pub empty_image : ℕ → Image
empty_image byte_count = record {
  summary = empty_summary;
  byte_count = byte_count;
  size_of_headers = 0;
  sections = [];
  code_ranges = [];
  entry_ranges = [];
  redirections = [];
}
