-- ===== src/Pe/Accessors.antt =====
-- src/gem/pe_arm64x.c: the functions that hand out what an image holds, and `gem_pe_arm64x_image_clone`.
-- An index behind the elements of an array is `fault`. A null pointer is `none`, or `false` for the
-- pointer to the result.
pub mod Laws
use metal_sharp_wine_runtime.Prelude.{
  ℕ, zero, suc, ◌*◌, ◌≡◌, Bool, true, false, ◌&&◌, ◌||◌, not, Option, none, some, List, [], ◌∷◌,
  ◌==◌, ◌!=◌, leb, if◌then◌else◌,
}
use metal_sharp_wine_runtime.Pe.{
  PeStatus, invalid_argument, overflow, limit_exceeded, Attempt, done, failed, fault, ◌>>=◌, ◌>>◌,
  refuse_if, expect, Section, CodeRange, EntryRange, Redirection, Image, Summary, Allocations,
}
use metal_sharp_wine_runtime.Pe.Bytes.{checked_mul_size}
use metal_sharp_wine_runtime.Pe.Span.{rva_to_file_offset_internal}

-- `array[index]`
unfoldable pub element_at : {A : Type 0} → List A → ℕ → Attempt A
element_at [] i = fault
element_at (x ∷ xs) zero = done x
element_at (x ∷ xs) (suc i) = element_at xs i

unfoldable pub get_summary : Option Image → Bool → Attempt Summary
get_summary (some image) true = done image.summary
get_summary _ _ = failed invalid_argument

unfoldable pub section_count : Option Image → ℕ
section_count none = 0
section_count (some image) = image.summary.section_count

unfoldable pub code_range_count : Option Image → ℕ
code_range_count none = 0
code_range_count (some image) = image.summary.code_range_count

unfoldable pub entry_range_count : Option Image → ℕ
entry_range_count none = 0
entry_range_count (some image) = image.summary.entry_range_count

unfoldable pub redirection_count : Option Image → ℕ
redirection_count none = 0
redirection_count (some image) = image.summary.redirection_count

-- `struct gem_pe_arm64x_section`
pub record PublicSection : Type 0 where
  pub virtual_address : ℕ
  pub virtual_size : ℕ
  pub raw_size : ℕ
  pub characteristics : ℕ

unfoldable pub get_section : Option Image → ℕ → Bool → Attempt PublicSection
unfolding element_at
get_section (some image) index true = do
  refuse_if (leb image.summary.section_count index) invalid_argument
  s ← element_at image.sections index
  done (record {
    virtual_address = s.virtual_address;
    virtual_size = s.virtual_size;
    raw_size = s.raw_size;
    characteristics = s.characteristics;
  })
get_section _ index _ = failed invalid_argument

unfoldable pub get_code_range : Option Image → ℕ → Bool → Attempt CodeRange
unfolding element_at
get_code_range (some image) index true = do
  refuse_if (leb image.summary.code_range_count index) invalid_argument
  element_at image.code_ranges index
get_code_range _ index _ = failed invalid_argument

unfoldable pub get_entry_range : Option Image → ℕ → Bool → Attempt EntryRange
unfolding element_at
get_entry_range (some image) index true = do
  refuse_if (leb image.summary.entry_range_count index) invalid_argument
  element_at image.entry_ranges index
get_entry_range _ index _ = failed invalid_argument

unfoldable pub get_redirection : Option Image → ℕ → Bool → Attempt Redirection
unfolding element_at
get_redirection (some image) index true = do
  refuse_if (leb image.summary.redirection_count index) invalid_argument
  element_at image.redirections index
get_redirection _ index _ = failed invalid_argument

unfoldable pub rva_to_file_offset : Option Image → ℕ → ℕ → Bool → Attempt ℕ
unfolding rva_to_file_offset_internal
rva_to_file_offset (some image) rva size true = rva_to_file_offset_internal image rva size
rva_to_file_offset _ rva size _ = failed invalid_argument

-- `memcpy` of `count` elements
unfoldable pub copy_elements : {A : Type 0} → ℕ → List A → Attempt (List A)
copy_elements zero xs = done []
copy_elements (suc n) [] = fault
copy_elements (suc n) (x ∷ xs) = do rest ← copy_elements n xs; done (x ∷ rest)

-- `GEM_CLONE_ARRAY`, with the size of an element and whether `malloc` returns memory.
unfoldable pub clone_array : {A : Type 0} → ℕ → ℕ → Bool → List A → Attempt (List A)
unfolding checked_mul_size copy_elements
clone_array zero size allocated xs = done []
clone_array (suc n) size allocated xs = do
  bytes ← expect (checked_mul_size (suc n) size) overflow
  refuse_if (not allocated) limit_exceeded
  copy_elements (suc n) xs

-- The sizes of the elements: five, three, three and two words.
abbrev sizeof_section : ℕ
sizeof_section = 20

abbrev sizeof_range : ℕ
sizeof_range = 12

abbrev sizeof_redirection : ℕ
sizeof_redirection = 8

unfoldable pub image_clone : Allocations → Option Image → Bool → Attempt Image
unfolding clone_array
image_clone allocations (some image) true = do
  refuse_if (not allocations.image_allocated) limit_exceeded
  let summary = image.summary
  sections ←
      clone_array summary.section_count sizeof_section allocations.sections_allocated image.sections
  code_ranges ←
      clone_array summary.code_range_count sizeof_range allocations.code_ranges_allocated
        image.code_ranges
  entry_ranges ←
      clone_array summary.entry_range_count sizeof_range allocations.entry_ranges_allocated
        image.entry_ranges
  redirections ←
      clone_array summary.redirection_count sizeof_redirection allocations.redirections_allocated
        image.redirections
  done (record {
    summary = summary;
    byte_count = image.byte_count;
    size_of_headers = image.size_of_headers;
    sections = sections;
    code_ranges = code_ranges;
    entry_ranges = entry_ranges;
    redirections = redirections;
  })
image_clone allocations _ _ = failed invalid_argument
