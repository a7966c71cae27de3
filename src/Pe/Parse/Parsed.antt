-- ===== src/Pe/Parse/Parsed.antt =====
-- src/gem/pe_arm64x.c: what every parsed image satisfies.
use metal_sharp_wine_runtime.Prelude.{
  ℕ, ◌<◌, ◌≡◌, ◌≢◌, ◌⊎◌, refl, sym, ◌∙◌, Bool, true, false, Option, none, some, List, map, length,
}
use metal_sharp_wine_runtime.Pe.{
  overflow, limit_exceeded, invalid_argument, done, fault, Image, Summary, ParserState,
  ParseOptions, Allocations, ChpeFields, empty_image,
}
use metal_sharp_wine_runtime.Pe.Bytes.{IsBytes}
use metal_sharp_wine_runtime.Pe.Spans.{Spans, All, code_span, entry_span, redirection_span}
use metal_sharp_wine_runtime.Pe.Ensures.{
  Ensures, holds, refused, Ensures-bind, Ensures-refuse_if, Ensures-expect, Ensures-fail_as,
  Ensures-done, Ensures-ne-fault,
}
use metal_sharp_wine_runtime.Pe.Headers.Checked.{Headed, parse_headers-Ensures}
use metal_sharp_wine_runtime.Pe.LoadConfig.Checked.{Configured, parse_load_config_and_chpe-Ensures}
use metal_sharp_wine_runtime.Pe.Tables.{
  allocate_metadata_arrays, parse_code_map, parse_entry_ranges, parse_redirections,
}
use metal_sharp_wine_runtime.Pe.Tables.Checked.{
  IsCode, IsEntry, table_file_span-Ensures, parse_code_ranges-Ensures,
}
use metal_sharp_wine_runtime.Pe.Tables.Entries.{
  parse_entries-Ensures, parse_redirection_list-Ensures,
}
use metal_sharp_wine_runtime.Pe.Parse.{copy_options, run_stages, parse_bytes, parse_image}

-- The summary counts what the metadata announces.
pub record Allocated (summary : Summary) (fields : ChpeFields) : Type 0 where
  pub code : summary.code_range_count ≡ fields.code_map_count
  pub entries : summary.entry_range_count ≡ fields.entry_range_count
  pub redirections : summary.redirection_count ≡ fields.redirection_count
  pub version_known : (summary.chpe_metadata_version ≡ 1) ⊎ (summary.chpe_metadata_version ≡ 2)

allocate_metadata_arrays-Ensures :
    (state : ParserState) (image : Image) (fields : ChpeFields)
    → Headed state.bytes state.mapped_image image
    → Configured image fields
    → Ensures
        (λ allocated.
          Headed state.bytes state.mapped_image allocated × Allocated allocated.summary fields)
        (allocate_metadata_arrays state image fields)
unfolding allocate_metadata_arrays
allocate_metadata_arrays-Ensures state image fields h c = Ensures-refuse_if _ limit_exceeded λ _.
    Ensures-expect _ overflow λ code _. Ensures-expect _ overflow λ entry _.
      Ensures-expect _ overflow λ redirection _. Ensures-expect _ overflow λ ranges _.
        Ensures-expect _ overflow λ total _. Ensures-refuse_if _ limit_exceeded λ _.
          Ensures-refuse_if _ limit_exceeded λ _. Ensures-refuse_if _ limit_exceeded λ _.
            Ensures-refuse_if _ limit_exceeded λ _. holds (
              record {
                counted = h.counted;
                base_fits = h.base_fits;
                size_fits = h.size_fits;
                size_positive = h.size_positive;
                headers_positive = h.headers_positive;
                headers_fit = h.headers_fit;
                headers_copied = h.headers_copied;
                mapped_fits = h.mapped_fits;
                section_count = h.section_count;
                sections_sorted = h.sections_sorted;
                sections_inside = h.sections_inside;
              },
              record {
                code = refl;
                entries = refl;
                redirections = refl;
                version_known = rw c.version_copied c.version_known;
              },
            )

abbrev pub CodeMapped : Image → Type 0
CodeMapped image =
    (length image.code_ranges ≡ image.summary.code_range_count)
    × Spans 0 image.summary.size_of_image (map code_span image.code_ranges)
    × All (IsCode image.sections) image.code_ranges

abbrev pub EntriesMapped : Image → Type 0
EntriesMapped image =
    (length image.entry_ranges ≡ image.summary.entry_range_count)
    × Spans 0 image.summary.size_of_image (map entry_span image.entry_ranges)
    × All (IsEntry image.code_ranges) image.entry_ranges

abbrev pub RedirectionsMapped : Image → Type 0
RedirectionsMapped image =
    (length image.redirections ≡ image.summary.redirection_count)
    × Spans 0 image.summary.size_of_image (map redirection_span image.redirections)
    × All (λ r. r.destination_rva < image.summary.size_of_image) image.redirections

-- A parsed image: the headers agree with the buffer, the sections and the three tables are sorted and
-- disjoint and inside the image, code starts and ends in executable sections, each entry range lies in
-- x64 code, the redirections lead into the image, and the counters are the lengths of the tables.
pub record Parsed (bytes : List ℕ) (mapped_image : Bool) (image : Image) : Type 0 where
  pub headed : Headed bytes mapped_image image
  pub version_known :
      (image.summary.chpe_metadata_version ≡ 1) ⊎ (image.summary.chpe_metadata_version ≡ 2)
  pub code_mapped : CodeMapped image
  pub entries_mapped : EntriesMapped image
  pub redirections_mapped : RedirectionsMapped image

module _ (state : ParserState) (p : IsBytes state.bytes) where
  parse_code_map-Ensures :
      (image : Image) (fields : ChpeFields)
      → Headed state.bytes state.mapped_image image
      → Allocated image.summary fields
      → Ensures
          (λ mapped.
            Headed state.bytes state.mapped_image mapped
            × Allocated mapped.summary fields
            × CodeMapped mapped)
          (parse_code_map state image fields)
  unfolding parse_code_map
  parse_code_map-Ensures image fields h a =
      Ensures-bind
        (Ensures-fail_as _ (
          table_file_span-Ensures state image p fields.code_map_rva fields.code_map_count 8
            h.counted))
        λ offset inside.
          Ensures-bind
            (parse_code_ranges-Ensures state image p fields.code_map_count offset none inside)
            λ ranges f. holds (h, a, (f.0 ∙ sym a.code, f.1, f.2))

  parse_entry_ranges-Ensures :
      (image : Image) (fields : ChpeFields)
      → Headed state.bytes state.mapped_image image
      → Allocated image.summary fields
      → CodeMapped image
      → Ensures
          (λ entered.
            Headed state.bytes state.mapped_image entered
            × Allocated entered.summary fields
            × CodeMapped entered
            × EntriesMapped entered)
          (parse_entry_ranges state image fields)
  unfolding parse_entry_ranges
  parse_entry_ranges-Ensures image fields h a c =
      Ensures-bind
        (Ensures-fail_as _ (
          table_file_span-Ensures state image p fields.entry_ranges_rva fields.entry_range_count 12
            h.counted))
        λ offset inside.
          Ensures-bind
            (parse_entries-Ensures state image p fields.entry_range_count offset none inside)
            λ ranges f. holds (h, a, c, (f.0 ∙ sym a.entries, f.1, f.2))

  parse_redirections-Parsed :
      (image : Image) (fields : ChpeFields)
      → Headed state.bytes state.mapped_image image
      → Allocated image.summary fields
      → CodeMapped image
      → EntriesMapped image
      → Ensures (Parsed state.bytes state.mapped_image) (parse_redirections state image fields)
  unfolding parse_redirections
  parse_redirections-Parsed image fields h a c e =
      Ensures-bind
        (Ensures-fail_as _ (
          table_file_span-Ensures state image p fields.redirections_rva fields.redirection_count 8
            h.counted))
        λ offset inside.
          Ensures-bind
            (parse_redirection_list-Ensures state image p fields.redirection_count offset none
              inside)
            λ redirections f. holds (record {
              headed = h;
              version_known = a.version_known;
              code_mapped = c;
              entries_mapped = e;
              redirections_mapped = (f.0 ∙ sym a.redirections, f.1, f.2);
            })

  run_stages-Parsed : Ensures (Parsed state.bytes state.mapped_image) (run_stages state)
  unfolding run_stages
  run_stages-Parsed =
      Ensures-bind (parse_headers-Ensures state (empty_image (length state.bytes)) p refl)
        λ (headed, dir) (h, room).
          Ensures-bind (parse_load_config_and_chpe-Ensures state headed dir p h room)
            λ (configured, fields) (h, c).
              Ensures-bind (allocate_metadata_arrays-Ensures state configured fields h c)
                λ allocated (h, a).
                  Ensures-bind (parse_code_map-Ensures allocated fields h a) λ mapped (h, a, c).
                    Ensures-bind (parse_entry_ranges-Ensures mapped fields h a c)
                      λ entered (h, a, c, e). parse_redirections-Parsed entered fields h a c e

copy_options-Ensures :
    (options : Option ParseOptions) → Ensures (λ _. Unit {0}) (copy_options options)
unfolding copy_options
copy_options-Ensures none = holds tt
copy_options-Ensures (some options) = Ensures-refuse_if _ invalid_argument λ _. holds tt

parse_bytes-Parsed :
    (allocations : Allocations) (bytes : List ℕ) (loaded_base : ℕ) (mapped_image : Bool)
    (options : Option ParseOptions)
    → IsBytes bytes
    → Ensures
        (Parsed bytes mapped_image)
        (parse_bytes allocations bytes loaded_base mapped_image options)
unfolding parse_bytes
parse_bytes-Parsed allocations bytes loaded_base mapped_image options p =
    Ensures-refuse_if _ invalid_argument λ _.
      Ensures-bind (copy_options-Ensures options) λ copied _.
        Ensures-refuse_if _ limit_exceeded λ _.
          run_stages-Parsed
            (record {
              bytes = bytes;
              loaded_base = loaded_base;
              mapped_image = mapped_image;
              options = copied;
              allocations = allocations;
            })
            p

module _ (allocations : Allocations) (bytes : List ℕ) (loaded_base : ℕ) (mapped_image : Bool)
    (options : Option ParseOptions) (out : Bool) (p : IsBytes bytes) where
  parse_image-Ensures :
      Ensures
        (Parsed bytes mapped_image)
        (parse_image allocations (some bytes) loaded_base mapped_image options out)
  unfolding parse_image
  parse_image-Ensures = given out
    where
      given :
          (out : Bool)
          → Ensures
              (Parsed bytes mapped_image)
              (parse_image allocations (some bytes) loaded_base mapped_image options out)
      given false = refused
      given true = parse_bytes-Parsed allocations bytes loaded_base mapped_image options p

  -- On a buffer of bytes `parse_image` never reads outside the buffer, whatever the buffer holds,
  -- whichever allocations fail and whatever the options are.
  pub parse_image-ne-fault :
      parse_image allocations (some bytes) loaded_base mapped_image options out ≢ fault
  parse_image-ne-fault = Ensures-ne-fault parse_image-Ensures

  -- An image that `parse_image` returns for a buffer of bytes is well formed: its sizes agree with the
  -- buffer, its sections and its three tables are sorted, disjoint, not empty and inside the image, code
  -- starts and ends in executable sections, each entry range lies in a range of x64 code and contains its
  -- entry point, the redirections lead into the image, and the counters are the lengths of the tables.
  pub parse_image-Parsed :
      {image : Image}
      → parse_image allocations (some bytes) loaded_base mapped_image options out ≡ done image
      → Parsed bytes mapped_image image
  parse_image-Parsed e = Ensures-done parse_image-Ensures e
