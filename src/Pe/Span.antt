-- ===== src/Pe/Span.antt =====
-- src/gem/pe_arm64x.c: from addresses of the image to sections and offsets in the file.
use metal_sharp_wine_runtime.Prelude.{
  ℕ, ◌+◌, ◌-◌, ◌≤◌, ◌≡◌, bit_and, Bool, true, false, ◌&&◌, ◌||◌, not, Option, none, some, List, [],
  ◌∷◌, ◌==◌, ◌!=◌, ltb, leb, if◌then◌else◌, length, arith, Bool-cases, inl, inr,
}
use metal_sharp_wine_runtime.Pe.{
  bad_rva, invalid_argument, Attempt, done, ◌>>=◌, ◌>>◌, refuse_if, expect, Section, Image,
  ParserState,
}
use metal_sharp_wine_runtime.Pe.Bytes.{
  checked_add_u32, checked_add_size, at_most, file_span_fits, file_span_fits_lem,
}
use metal_sharp_wine_runtime.Pe.Ensures.{Ensures, holds, Ensures-refuse_if, Ensures-expect}

abbrev pub mem_execute : ℕ
mem_execute = 0x20000000

unfoldable pub section_virtual_extent : Section → ℕ
section_virtual_extent s = if ltb s.raw_size s.virtual_size then s.virtual_size else s.raw_size

unfoldable pub section_is_executable : Section → Bool
section_is_executable s = bit_and s.characteristics mem_execute != 0

unfoldable pub rva_add_fits_image : ℕ → ℕ → ℕ → Bool
unfolding checked_add_u32
rva_add_fits_image rva size size_of_image = at_most (checked_add_u32 rva size) size_of_image

-- `checked_add(a, &x) && checked_add(b, &y) && x <= y`
abbrev pub both_at_most : Option ℕ → Option ℕ → Bool
both_at_most (some end) (some section_end) = leb end section_end
both_at_most _ _ = false

unfoldable pub section_contains_span : Section → ℕ → ℕ → Bool
unfolding checked_add_u32 section_virtual_extent
section_contains_span s rva size =
    leb s.virtual_address rva
    && both_at_most (checked_add_u32 rva size)
        (checked_add_u32 s.virtual_address (section_virtual_extent s))

-- The section with its index, counted from `index`.
unfoldable pub find_section_from : ℕ → List Section → ℕ → ℕ → Option (ℕ × Section)
unfolding section_contains_span
find_section_from index [] rva size = none
find_section_from index (s ∷ sections) rva size =
    if section_contains_span s rva size
    then some (index, s)
    else find_section_from (index + 1) sections rva size

unfoldable pub find_section_for_span : Image → ℕ → ℕ → Option (ℕ × Section)
unfolding find_section_from
find_section_for_span image rva size = find_section_from 0 image.sections rva size

-- The offset in the file of a span of a section.
unfoldable pub section_file_offset : Image → Section → ℕ → ℕ → Attempt ℕ
unfolding checked_add_u32 checked_add_size file_span_fits
section_file_offset image s rva size = do
  let offset_in_section = rva - s.virtual_address
  refuse_if (not (at_most (checked_add_u32 offset_in_section size) s.raw_size)) bad_rva
  file_offset ← expect (checked_add_size s.raw_pointer offset_in_section) bad_rva
  refuse_if (not (file_span_fits image.byte_count file_offset size)) bad_rva
  done file_offset

abbrev in_headers : Image → ℕ → ℕ → Bool
in_headers image rva size =
    at_most (checked_add_u32 rva size) image.size_of_headers
    && at_most (checked_add_u32 rva size) image.byte_count
    && ltb rva image.size_of_headers

unfoldable pub rva_to_file_offset_internal : Image → ℕ → ℕ → Attempt ℕ
unfolding rva_add_fits_image find_section_for_span section_file_offset checked_add_u32
rva_to_file_offset_internal image rva size = do
  refuse_if (size == 0) invalid_argument
  refuse_if (not (rva_add_fits_image rva size image.summary.size_of_image)) bad_rva
  (if in_headers image rva size then done rva else (do
    (_, s) ← expect (find_section_for_span image rva size) bad_rva
    section_file_offset image s rva size))

unfoldable pub rva_to_parser_offset : ParserState → Image → ℕ → ℕ → Attempt ℕ
unfolding rva_to_file_offset_internal checked_add_u32
rva_to_parser_offset state image rva size =
    if not state.mapped_image then rva_to_file_offset_internal image rva size else (do
      refuse_if
          (size == 0
            || not (at_most (checked_add_u32 rva size) image.summary.size_of_image)
            || not (at_most (checked_add_u32 rva size) (length state.bytes)))
          bad_rva
      done rva)

pub at_most-add_u32 : (a b n : ℕ) → at_most (checked_add_u32 a b) n ≡ true → a + b ≤ n
unfolding checked_add_u32
at_most-add_u32 a b n e = ground arith

-- The span lies in the section.
pub section_contains_span_lem :
    (s : Section) (rva size : ℕ)
    → section_contains_span s rva size ≡ true
    → (s.virtual_address ≤ rva) × (rva + size ≤ s.virtual_address + section_virtual_extent s)
unfolding section_contains_span checked_add_u32
section_contains_span_lem s rva size e = ground arith

section_file_offset-Ensures :
    (image : Image) (s : Section) (rva size : ℕ)
    → Ensures (λ offset. offset + size ≤ image.byte_count) (section_file_offset image s rva size)
unfolding section_file_offset
section_file_offset-Ensures image s rva size = Ensures-refuse_if _ bad_rva λ _.
    Ensures-expect (checked_add_size s.raw_pointer (rva - s.virtual_address)) bad_rva
      λ file_offset _.
        Ensures-refuse_if _ bad_rva
          λ fits. holds (file_span_fits_lem image.byte_count file_offset size (ground arith))

in_headers_lem :
    (image : Image) (rva size : ℕ)
    → in_headers image rva size ≡ true
    → rva + size ≤ image.byte_count
in_headers_lem image rva size e = at_most-add_u32 rva size image.byte_count (ground arith)

pub rva_to_file_offset_internal-Ensures :
    (image : Image) (rva size : ℕ)
    → Ensures
        (λ offset. offset + size ≤ image.byte_count)
        (rva_to_file_offset_internal image rva size)
unfolding rva_to_file_offset_internal
rva_to_file_offset_internal-Ensures image rva size = Ensures-refuse_if _ invalid_argument λ _.
    Ensures-refuse_if _ bad_rva λ _. elim (Bool-cases (in_headers image rva size)) [
      | inl header ↦ rw header (holds (in_headers_lem image rva size header))
      | inr body ↦ rw body (
          Ensures-expect (find_section_for_span image rva size) bad_rva
            λ (_, s) _. section_file_offset-Ensures image s rva size)
    ]

pub rva_to_parser_offset-Ensures :
    (state : ParserState) (image : Image) (rva size : ℕ)
    → image.byte_count ≡ length state.bytes
    → Ensures
        (λ offset. offset + size ≤ length state.bytes)
        (rva_to_parser_offset state image rva size)
unfolding rva_to_parser_offset
rva_to_parser_offset-Ensures state image rva size counted =
    elim (Bool-cases (not state.mapped_image)) [
      | inl file ↦ rw (file, ← counted) (rva_to_file_offset_internal-Ensures image rva size)
      | inr mapped ↦ rw mapped (
          Ensures-refuse_if _ bad_rva
            λ fits. holds (at_most-add_u32 rva size (length state.bytes) (ground arith)))
    ]
