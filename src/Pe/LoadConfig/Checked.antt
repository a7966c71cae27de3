-- ===== src/Pe/LoadConfig/Checked.antt =====
-- src/gem/pe_arm64x.c: `parse_load_config_and_chpe` reads inside the file and keeps what
-- `parse_headers` made sure of.
use metal_sharp_wine_runtime.Prelude.{
  ℕ, ◌+◌, ◌≤◌, ◌<◌, ◌^◌, ◌≡◌, refl, false, ◌!=◌, ◌==◌, length, arith, if◌then◌else◌, Bool-cases,
  inl, inr, ◌⊎◌, ◌&&◌,
}
use metal_sharp_wine_runtime.Pe.{
  bad_load_config, no_chpe_metadata, unsupported_chpe_version, Image, ParserState, ChpeFields,
}
use metal_sharp_wine_runtime.Pe.Bytes.{
  IsBytes, read_u32le_unchecked-Ensures, read_u64le_unchecked-Ensures,
}
use metal_sharp_wine_runtime.Pe.Span.{rva_to_parser_offset-Ensures}
use metal_sharp_wine_runtime.Pe.Ensures.{
  Ensures, holds, Ensures-bind, Ensures-refuse_if, Ensures-fail_as,
}
use metal_sharp_wine_runtime.Pe.Headers.Checked.{Headed}
use metal_sharp_wine_runtime.Pe.LoadConfig.{
  find_chpe_metadata, read_chpe_metadata, parse_load_config_and_chpe,
}

module _ (state : ParserState) (image : Image) (p : IsBytes state.bytes) where
  find_chpe_metadata-Ensures :
      (rva size : ℕ)
      → image.byte_count ≡ length state.bytes
      → Ensures (λ metadata_rva. metadata_rva < 2 ^ 32) (find_chpe_metadata state image rva size)
  unfolding find_chpe_metadata
  find_chpe_metadata-Ensures rva size counted =
      let bs = state.bytes in
      Ensures-refuse_if _ bad_load_config λ _.
        Ensures-bind (Ensures-fail_as _ (rva_to_parser_offset-Ensures state image rva 0xD0 counted))
          λ offset h.
            Ensures-bind (read_u32le_unchecked-Ensures bs offset p (omega (arith, h))) λ internal _.
              Ensures-refuse_if _ bad_load_config λ _.
                Ensures-bind (read_u64le_unchecked-Ensures bs (offset + 0xC8) p (omega (arith, h)))
                  λ va _. Ensures-refuse_if _ no_chpe_metadata λ _.
                    Ensures-refuse_if _ bad_load_config
                      λ _. Ensures-refuse_if _ bad_load_config λ small. holds (ground arith)

  version_lem : (version : ℕ) → 80 ≤ (if version == 1 then 80 else 92)
  version_lem version = ground arith

  read_chpe_metadata-Ensures :
      (rva : ℕ)
      → image.byte_count ≡ length state.bytes
      → Ensures
          (λ fields. (fields.version ≡ 1) ⊎ (fields.version ≡ 2))
          (read_chpe_metadata state image rva)
  unfolding read_chpe_metadata
  read_chpe_metadata-Ensures rva counted =
      let bs = state.bytes in
      Ensures-bind (Ensures-fail_as _ (rva_to_parser_offset-Ensures state image rva 4 counted))
        λ o h. Ensures-bind (read_u32le_unchecked-Ensures bs o p h) λ version _.
          Ensures-refuse_if _ unsupported_chpe_version λ known.
            let size = if version == 1 then 80 else 92 in
            Ensures-bind
              (Ensures-fail_as _ (rva_to_parser_offset-Ensures state image rva size counted))
              λ at inside.
                let room : at + 80 ≤ length bs = omega (arith, inside, version_lem version) in
                Ensures-bind (read_u32le_unchecked-Ensures bs (at + 4) p (omega arith)) λ _ _.
                  Ensures-bind (read_u32le_unchecked-Ensures bs (at + 8) p (omega arith)) λ _ _.
                    Ensures-bind (read_u32le_unchecked-Ensures bs (at + 12) p (omega arith)) λ _ _.
                      Ensures-bind (read_u32le_unchecked-Ensures bs (at + 16) p (omega arith))
                        λ _ _.
                          Ensures-bind (read_u32le_unchecked-Ensures bs (at + 48) p (omega arith))
                            λ _ _.
                              Ensures-bind
                                (read_u32le_unchecked-Ensures bs (at + 52) p (omega arith))
                                λ _ _. holds (known_lem version known)
    where
      known_lem : (v : ℕ) → (v != 1 && v != 2) ≡ false → (v ≡ 1) ⊎ (v ≡ 2)
      known_lem v e = elim (Bool-cases (v == 1)) [
        | inl one ↦ inl (ground arith)
        | inr other ↦ inr (ground arith)
      ]

-- The load configuration and the metadata are in the summary, and the version is one of the two.
pub record Configured (image : Image) (fields : ChpeFields) : Type 0 where
  pub metadata_fits : image.summary.chpe_metadata_rva < 2 ^ 32
  pub version_copied : image.summary.chpe_metadata_version ≡ fields.version
  pub version_known : (fields.version ≡ 1) ⊎ (fields.version ≡ 2)

pub parse_load_config_and_chpe-Ensures :
    (state : ParserState) (image : Image) (dir : ℕ)
    → IsBytes state.bytes
    → Headed state.bytes state.mapped_image image
    → dir + 8 ≤ length state.bytes
    → Ensures
        (λ (filled, fields).
          Headed state.bytes state.mapped_image filled × Configured filled fields)
        (parse_load_config_and_chpe state image dir)
unfolding parse_load_config_and_chpe
parse_load_config_and_chpe-Ensures state image dir p h room =
    Ensures-bind (read_u32le_unchecked-Ensures state.bytes dir p (omega arith)) λ rva _.
      Ensures-bind (read_u32le_unchecked-Ensures state.bytes (dir + 4) p (omega arith)) λ size _.
        Ensures-bind (find_chpe_metadata-Ensures state image p rva size h.counted) λ metadata small.
          Ensures-bind (read_chpe_metadata-Ensures state image p metadata h.counted) λ fields known.
            holds (
              record {
                counted = h.counted;
                base_fits = h.base_fits;
                size_fits = h.size_fits;
                size_positive = h.size_positive;
                headers_positive = h.headers_positive;
                headers_fit = h.headers_fit;
                headers_copied = h.headers_copied;
                mapped_fits = h.mapped_fits;
                section_count = h.section_count;
                sections_sorted = h.sections_sorted;
                sections_inside = h.sections_inside;
              },
              record { metadata_fits = small; version_copied = refl; version_known = known },
            )
