-- ===== src/Pe/Headers/Fields.antt =====
-- src/gem/pe_arm64x.c: what the DOS, COFF and optional headers make sure of.
use metal_sharp_wine_runtime.Prelude.{ℕ, ◌+◌, ◌≤◌, ◌<◌, ◌^◌, ◌≡◌, refl, true, List, length, arith}
use metal_sharp_wine_runtime.Pe.{
  truncated, bad_dos_header, bad_pe_signature, unsupported_format, limit_exceeded, overflow,
  bad_optional_header, Image, ParserState,
}
use metal_sharp_wine_runtime.Pe.Bytes.{
  checked_add_size, checked_add_size_lem, file_span_fits_lem, byte_at-Ensures, IsBytes,
  read_u16le_unchecked-Ensures, read_u32le_unchecked-Ensures, read_u64le_unchecked-Ensures,
}
use metal_sharp_wine_runtime.Pe.Ensures.{
  Ensures, holds, Ensures-bind, Ensures-refuse_if, Ensures-expect,
}
use metal_sharp_wine_runtime.Pe.Headers.{
  parse_dos_header, parse_coff_header, CoffHeader, parse_optional_header,
}

pub parse_dos_header-Ensures :
    (bytes : List ℕ)
    → IsBytes bytes
    → Ensures (λ pe_offset. pe_offset + 24 ≤ length bytes) (parse_dos_header bytes)
unfolding parse_dos_header
parse_dos_header-Ensures bytes p = Ensures-refuse_if _ truncated λ long.
    let enough : 64 ≤ length bytes = ground arith in
    Ensures-bind (byte_at-Ensures bytes 0 p (omega arith)) λ b0 _.
      Ensures-bind (byte_at-Ensures bytes 1 p (omega arith)) λ b1 _.
        Ensures-refuse_if _ bad_dos_header λ _.
          Ensures-bind (read_u32le_unchecked-Ensures bytes 0x3C p (omega arith)) λ pe_offset _.
            Ensures-refuse_if _ bad_dos_header λ _. Ensures-refuse_if _ truncated λ fits.
              let inside : pe_offset + 24 ≤ length bytes =
                file_span_fits_lem (length bytes) pe_offset 24 (ground arith) in
              Ensures-bind (read_u32le_unchecked-Ensures bytes pe_offset p (omega arith))
                λ _ _. Ensures-refuse_if _ bad_pe_signature λ _. holds inside

-- The section table starts behind the optional header, which lies in the file and holds the
-- directory of the load configuration.
abbrev pub CoffFits : List ℕ → CoffHeader × ℕ → Type 0
CoffFits bytes (coff, table) =
    (table ≡ coff.optional_offset + coff.optional_header_size)
    × (coff.optional_offset + coff.optional_header_size ≤ length bytes)
    × (200 ≤ coff.optional_header_size)

pub parse_coff_header-Ensures :
    (state : ParserState) (pe_offset : ℕ)
    → IsBytes state.bytes
    → pe_offset + 24 ≤ length state.bytes
    → Ensures (CoffFits state.bytes) (parse_coff_header state pe_offset)
unfolding parse_coff_header
parse_coff_header-Ensures state pe_offset p h =
    let bytes = state.bytes in
    Ensures-bind (read_u16le_unchecked-Ensures bytes (pe_offset + 4) p (omega arith)) λ machine _.
      Ensures-bind (read_u16le_unchecked-Ensures bytes (pe_offset + 4 + 2) p (omega arith))
        λ section_count _.
          Ensures-bind (read_u16le_unchecked-Ensures bytes (pe_offset + 4 + 16) p (omega arith))
            λ optional_size _. Ensures-refuse_if _ unsupported_format λ _.
              Ensures-refuse_if _ limit_exceeded λ _.
                Ensures-expect (checked_add_size (pe_offset + 4 + 20) optional_size) overflow
                  λ table sum. Ensures-refuse_if _ truncated λ fits.
                    Ensures-refuse_if _ bad_optional_header λ large. holds (
                      checked_add_size_lem (pe_offset + 4 + 20) optional_size table sum,
                      file_span_fits_lem (length bytes) (pe_offset + 4 + 20) optional_size
                          (ground arith),
                      ground arith,
                    )

-- What the optional header says of the image.
pub record HeaderFields (state : ParserState) (coff : CoffHeader) (old image : Image) : Type 0 where
  pub counted : image.byte_count ≡ old.byte_count
  pub section_count : image.summary.section_count ≡ coff.section_count
  pub base_fits : image.summary.image_base < 2 ^ 64
  pub size_fits : image.summary.size_of_image < 2 ^ 32
  pub size_positive : 0 < image.summary.size_of_image
  pub headers_positive : 0 < image.size_of_headers
  pub headers_fit : image.size_of_headers ≤ length state.bytes
  pub headers_copied : image.summary.size_of_headers ≡ image.size_of_headers
  pub mapped_fits : state.mapped_image ≡ true → image.summary.size_of_image ≤ length state.bytes

pub parse_optional_header-Ensures :
    (state : ParserState) (image : Image) (coff : CoffHeader)
    → IsBytes state.bytes
    → coff.optional_offset + 200 ≤ length state.bytes
    → Ensures (HeaderFields state coff image) (parse_optional_header state image coff)
unfolding parse_optional_header
parse_optional_header-Ensures state image coff p h =
    let bs = state.bytes in
    let at = coff.optional_offset in
    Ensures-bind (read_u16le_unchecked-Ensures bs at p (omega arith)) λ _ _.
      Ensures-refuse_if _ unsupported_format λ _.
        Ensures-bind (read_u32le_unchecked-Ensures bs (at + 16) p (omega arith)) λ entry _.
          Ensures-bind (read_u64le_unchecked-Ensures bs (at + 24) p (omega arith)) λ base hb.
            Ensures-bind (read_u32le_unchecked-Ensures bs (at + 32) p (omega arith)) λ sa _.
              Ensures-bind (read_u32le_unchecked-Ensures bs (at + 36) p (omega arith)) λ fa _.
                Ensures-bind (read_u32le_unchecked-Ensures bs (at + 56) p (omega arith)) λ soi hs.
                  Ensures-bind (read_u32le_unchecked-Ensures bs (at + 60) p (omega arith)) λ soh _.
                    Ensures-bind (read_u32le_unchecked-Ensures bs (at + 108) p (omega arith))
                      λ dirs _. Ensures-refuse_if _ bad_optional_header λ good.
                        Ensures-refuse_if _ bad_optional_header λ short.
                          Ensures-refuse_if _ bad_optional_header λ mapped. holds (record {
                            counted = refl;
                            section_count = refl;
                            base_fits = hb;
                            size_fits = hs;
                            size_positive = ground arith;
                            headers_positive = ground arith;
                            headers_fit = ground arith;
                            headers_copied = refl;
                            mapped_fits = λ m. ground arith;
                          })
