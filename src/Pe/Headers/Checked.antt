-- ===== src/Pe/Headers/Checked.antt =====
-- src/gem/pe_arm64x.c: what `parse_headers` makes sure of.
use metal_sharp_wine_runtime.Prelude.{
  ℕ, zero, suc, ◌+◌, ◌*◌, ◌≤◌, ◌<◌, ◌^◌, ◌≡◌, refl, Bool, true, false, ◌&&◌, not, Option, none,
  some, List, map, ◌!=◌, length, arith, ap, sym, ◌∙◌, ◌≢◌,
}
use metal_sharp_wine_runtime.Pe.{
  limit_exceeded, bad_section_table, Section, Image, Summary, ParserState,
}
use metal_sharp_wine_runtime.Pe.Bytes.{
  checked_add_u32, at_most, checked_mul_size, checked_mul_size_lem, checked_add_u32_lem,
  file_span_fits_lem, IsBytes, read_u32le_unchecked-Ensures,
}
use metal_sharp_wine_runtime.Pe.Span.{section_virtual_extent, at_most-add_u32}
use metal_sharp_wine_runtime.Pe.Spans.{Spans, All, section_span, low_of, follows-Ensures}
use metal_sharp_wine_runtime.Pe.Ensures.{
  Ensures, holds, Ensures-bind, Ensures-refuse_if, Ensures-expect, Ensures-then,
}
use metal_sharp_wine_runtime.Pe.Headers.{read_section, check_section, parse_sections, parse_headers}
use metal_sharp_wine_runtime.Pe.Headers.Fields.{
  parse_dos_header-Ensures, parse_coff_header-Ensures, parse_optional_header-Ensures,
}

-- The raw data of a section of a file lies in the file.
pub record IsSection (bytes : List ℕ) (mapped_image : Bool) (s : Section) : Type 0 where
  pub address_fits : s.virtual_address < 2 ^ 32
  pub raw_size_fits : s.raw_size < 2 ^ 32
  pub virtual_size_fits : s.virtual_size < 2 ^ 32
  pub raw_inside : mapped_image ≡ false → s.raw_size ≢ 0 → s.raw_pointer + s.raw_size ≤ length bytes

abbrev SectionWords : Section → Type 0
SectionWords s = (s.virtual_address < 2 ^ 32) × (s.raw_size < 2 ^ 32) × (s.virtual_size < 2 ^ 32)

read_section-Ensures :
    (bytes : List ℕ) (offset : ℕ)
    → IsBytes bytes
    → offset + 40 ≤ length bytes
    → Ensures SectionWords (read_section bytes offset)
unfolding read_section
read_section-Ensures bytes offset p h =
    Ensures-bind (read_u32le_unchecked-Ensures bytes (offset + 8) p (omega arith)) λ vs h0.
      Ensures-bind (read_u32le_unchecked-Ensures bytes (offset + 12) p (omega arith)) λ va h1.
        Ensures-bind (read_u32le_unchecked-Ensures bytes (offset + 16) p (omega arith)) λ rs h2.
          Ensures-bind (read_u32le_unchecked-Ensures bytes (offset + 20) p (omega arith)) λ rp h3.
            Ensures-bind (read_u32le_unchecked-Ensures bytes (offset + 36) p (omega arith))
              λ c h4. holds (h1, h2, h0)

extent_fits : (s : Section) → SectionWords s → section_virtual_extent s < 2 ^ 32
unfolding section_virtual_extent
extent_fits s h = ground arith

abbrev Checked : ParserState → ℕ → Option (ℕ × ℕ) → Section → ℕ → Type 0
Checked state size_of_image previous s end =
    (end ≡ s.virtual_address + section_virtual_extent s)
    × (low_of previous ≤ s.virtual_address)
    × (s.virtual_address < end)
    × (end ≤ size_of_image)
    × IsSection state.bytes state.mapped_image s

check_section-Ensures :
    (state : ParserState) (size_of_image : ℕ) (previous : Option (ℕ × ℕ)) (s : Section)
    → SectionWords s
    → Ensures
        (Checked state size_of_image previous s)
        (check_section state size_of_image previous s)
unfolding check_section
check_section-Ensures state size_of_image previous s w =
    let extent = section_virtual_extent s in
    Ensures-refuse_if _ bad_section_table λ some_extent.
      Ensures-expect (checked_add_u32 s.virtual_address extent) bad_section_table λ end sum.
        let (same, _) = checked_add_u32_lem s.virtual_address extent end (extent_fits s w) sum in
        Ensures-refuse_if _ bad_section_table λ inside.
          Ensures-then (follows-Ensures previous s.virtual_address) λ _ low.
            Ensures-refuse_if _ bad_section_table λ raw. holds (
              same,
              low,
              ground (arith, same),
              ground arith,
              record {
                address_fits = w.0;
                raw_size_fits = w.1;
                virtual_size_fits = w.2;
                raw_inside = λ file some_raw.
                    raw_lem s (length state.bytes) state.mapped_image raw file some_raw;
              },
            )
  where
    raw_lem :
        (s : Section) (n : ℕ) (mapped : Bool)
        → (not mapped
            && s.raw_size != 0
            && not (at_most (checked_add_u32 s.raw_pointer s.raw_size) n))
          ≡ false
        → mapped ≡ false
        → s.raw_size ≢ 0
        → s.raw_pointer + s.raw_size ≤ n
    raw_lem s n mapped e file some_raw = at_most-add_u32 s.raw_pointer s.raw_size n (ground arith)

abbrev SectionsFit : ParserState → ℕ → ℕ → ℕ → List Section → Type 0
SectionsFit state size_of_image left low sections =
    (length sections ≡ left)
    × Spans low size_of_image (map section_span sections)
    × All (IsSection state.bytes state.mapped_image) sections

parse_sections-Ensures :
    (state : ParserState) (size_of_image left offset : ℕ) (previous : Option (ℕ × ℕ))
    → IsBytes state.bytes
    → offset + left * 40 ≤ length state.bytes
    → Ensures
        (SectionsFit state size_of_image left (low_of previous))
        (parse_sections state size_of_image left offset previous)
unfolding parse_sections
parse_sections-Ensures state soi zero offset previous p h = holds (refl, tt, tt)
parse_sections-Ensures state soi (suc left) offset previous p h =
    Ensures-bind (read_section-Ensures state.bytes offset p (omega arith)) λ s w.
      Ensures-bind (check_section-Ensures state soi previous s w) λ end c.
        Ensures-bind
          (parse_sections-Ensures state soi left (offset + 40) (some (s.virtual_address, end)) p
            (omega arith))
          λ rest r.
            holds (ap suc r.0, (c.1, rw (← c.0) c.2, rw (← c.0) c.3, rw (← c.0) r.1), (c.4, r.2))

-- What `parse_headers` makes sure of: the sizes, the section table, and that the directory of the load
-- configuration lies in the file.
pub record HeadedParts (bytes : List ℕ) (mapped_image : Bool) (byte_count : ℕ) (summary : Summary)
    (size_of_headers : ℕ) (sections : List Section) : Type 0 where
  pub counted : byte_count ≡ length bytes
  pub base_fits : summary.image_base < 2 ^ 64
  pub size_fits : summary.size_of_image < 2 ^ 32
  pub size_positive : 0 < summary.size_of_image
  pub headers_positive : 0 < size_of_headers
  pub headers_fit : size_of_headers ≤ length bytes
  pub headers_copied : summary.size_of_headers ≡ size_of_headers
  pub mapped_fits : mapped_image ≡ true → summary.size_of_image ≤ length bytes
  pub section_count : summary.section_count ≡ length sections
  pub sections_sorted : Spans 0 summary.size_of_image (map section_span sections)
  pub sections_inside : All (IsSection bytes mapped_image) sections

-- It does not depend on the other tables of the image.
abbrev pub Headed : List ℕ → Bool → Image → Type 0
Headed bytes mapped_image image =
    HeadedParts bytes mapped_image image.byte_count image.summary image.size_of_headers
      image.sections

pub parse_headers-Ensures :
    (state : ParserState) (image : Image)
    → IsBytes state.bytes
    → image.byte_count ≡ length state.bytes
    → Ensures
        (λ (headed, dir).
          Headed state.bytes state.mapped_image headed × (dir + 8 ≤ length state.bytes))
        (parse_headers state image)
unfolding parse_headers
parse_headers-Ensures state image p counted =
    Ensures-bind (parse_dos_header-Ensures state.bytes p) λ pe_offset h.
      Ensures-bind (parse_coff_header-Ensures state pe_offset p h)
        λ (coff, table) (at, inside, large).
          Ensures-bind (parse_optional_header-Ensures state image coff p (omega arith)) λ filled f.
            Ensures-expect (checked_mul_size coff.section_count 40) bad_section_table
              λ size product. Ensures-refuse_if _ bad_section_table λ fits.
                Ensures-refuse_if _ limit_exceeded λ _.
                  let room : table + size ≤ length state.bytes =
                    file_span_fits_lem (length state.bytes) table size (ground arith) in
                  let same = checked_mul_size_lem coff.section_count 40 size product in
                  Ensures-bind
                    (parse_sections-Ensures state filled.summary.size_of_image coff.section_count
                      table none p (omega (arith, same)))
                    λ sections s. holds (
                      record {
                        counted = f.counted ∙ counted;
                        base_fits = f.base_fits;
                        size_fits = f.size_fits;
                        size_positive = f.size_positive;
                        headers_positive = f.headers_positive;
                        headers_fit = f.headers_fit;
                        headers_copied = f.headers_copied;
                        mapped_fits = f.mapped_fits;
                        section_count = f.section_count ∙ sym s.0;
                        sections_sorted = s.1;
                        sections_inside = s.2;
                      },
                      omega arith,
                    )
