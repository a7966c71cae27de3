-- ===== src/Pe/Classify/Complete.antt =====
-- src/gem/pe_arm64x.c: `gem_pe_arm64x_classify_rva` on a parsed image.
use metal_sharp_wine_runtime.Prelude.{
  ℕ, ◌<◌, ◌≡◌, refl, Bool, true, false, Option, none, some, List, leb, arith, Bool-cases, inl, inr,
  ◌⊎◌, sym, ◌∙◌, not,
}
use metal_sharp_wine_runtime.Pe.{
  rva_invalid, rva_data, rva_thunk, rva_fast_forward, Image, Section, CodeRange, EntryRange,
  Redirection,
}
use metal_sharp_wine_runtime.Pe.Spans.{code_span, entry_span, redirection_span}
use metal_sharp_wine_runtime.Pe.Span.{find_section_for_span, section_is_executable}
use metal_sharp_wine_runtime.Pe.Find.{
  find_code_range, find_entry_range, find_redirection, find_in_code_ranges, find_in_entry_ranges,
  find_in_redirections,
}
use metal_sharp_wine_runtime.Pe.Find.Search.{contains, IsIn, Finds}
use metal_sharp_wine_runtime.Pe.Parse.Parsed.{Parsed}
use metal_sharp_wine_runtime.Pe.Classify.{
  PeRvaInfo, note_section, note_code_range, note_entry_range, note_redirection, class_of,
  classify_found, classify_in,
}
use metal_sharp_wine_runtime.Pe.Classify.Laws.{
  Classified, Finds-some, Finds-none, code_found, entry_found, redirection_found, code_at_entry,
  reported, destination, classify_found-redirected,
}

-- An address is found where it is.
contains_source :
    (r : Redirection) (rva : ℕ) → r.source_rva ≡ rva → contains (redirection_span r) rva ≡ true
contains_source r rva e = ground (arith, e)

-- The information by what is found, for each way out.
found_redirection :
    (rva : ℕ) (section : Option (ℕ × Section)) (code : Option CodeRange) (entry : Option EntryRange)
    (r : Redirection) (info : PeRvaInfo)
    → info ≡ classify_found rva section code entry (some r)
    → (info.classification ≡ rva_fast_forward)
      × (info.has_redirection ≡ true)
      × (info.redirection_destination_rva ≡ r.destination_rva)
unfolding classify_found note_redirection class_of
found_redirection rva section code entry r info e = rw e (refl, refl, refl)

found_entry :
    (rva : ℕ) (section : Option (ℕ × Section)) (c : CodeRange) (e : EntryRange) (info : PeRvaInfo)
    → info ≡ classify_found rva section (some c) (some e) none
    → (info.classification ≡ rva_thunk)
      × (info.has_redirection ≡ false)
      × (info.entry_point_rva ≡ e.entry_point_rva)
      × (info.code_map_isa ≡ c.isa)
unfolding classify_found note_redirection note_entry_range note_code_range note_section class_of
found_entry rva none c e info h = rw h (refl, refl, refl, refl)
found_entry rva (some s) c e info h = rw h (refl, refl, refl, refl)

found_code :
    (rva : ℕ) (section : Option (ℕ × Section)) (c : CodeRange) (info : PeRvaInfo)
    → info ≡ classify_found rva section (some c) none none
    → (info.classification ≡ c.isa)
      × (info.has_redirection ≡ false)
      × (info.has_entry_point ≡ false)
unfolding classify_found note_redirection note_entry_range note_code_range note_section class_of
found_code rva none c info h = rw h (refl, refl, refl)
found_code rva (some s) c info h = rw h (refl, refl, refl)

class_of-other :
    (section : Option (ℕ × Section))
    → (class_of section none none none ≡ rva_invalid) ⊎ (class_of section none none none ≡ rva_data)
unfolding class_of
class_of-other none = inl refl
class_of-other (some (i, s)) = elim (Bool-cases (not (section_is_executable s))) [
  | inl data_only ↦ inr (rw data_only refl)
  | inr executable ↦ inl (rw executable refl)
]

found_other :
    (rva : ℕ) (section : Option (ℕ × Section)) (info : PeRvaInfo)
    → info ≡ classify_found rva section none none none
    → (info.classification ≡ rva_invalid) ⊎ (info.classification ≡ rva_data)
unfolding classify_found
found_other rva section info h = rw h (class_of-other section)

module _ {bytes : List ℕ} {mapped_image : Bool} {image : Image}
    (parsed : Parsed bytes mapped_image image) (rva : ℕ)
    (inside : rva < image.summary.size_of_image) where
  -- The information is that of the tables.
  classify_in-found :
      classify_in image rva
      ≡ classify_found rva
          (find_section_for_span image rva 1)
          (find_in_code_ranges image.code_ranges rva)
          (find_in_entry_ranges image.entry_ranges rva)
          (find_in_redirections image.redirections rva)
  unfolding classify_in find_code_range find_entry_range find_redirection
  classify_in-found =
      let within : leb image.summary.size_of_image rva ≡ false = ground arith in rw within refl

  -- On a parsed image, the classification of an address of the image is that of a redirection if one
  -- starts there, else a thunk into x64 code if an entry range contains the address, else the kind of the
  -- code range that contains it, else data or nothing; with the destination and the entry point of what
  -- is there.
  pub classify_in-Classified : Classified image rva (classify_in image rva)
  classify_in-Classified = record {
    redirected = λ r is_in at.
        let found =
          Finds-some redirection_span rva image.redirections
            (find_in_redirections image.redirections rva) r (redirection_found parsed rva) is_in
            (contains_source r rva at) in
        found_redirection rva (find_section_for_span image rva 1)
          (find_in_code_ranges image.code_ranges rva) (find_in_entry_ranges image.entry_ranges rva)
          r (classify_in image rva) (rw found at classify_in-found);
    entered = λ e no_redirection is_in hit.
        let r =
          Finds-none redirection_span rva image.redirections
            (find_in_redirections image.redirections rva) (redirection_found parsed rva)
            no_redirection in
        let found =
          Finds-some entry_span rva image.entry_ranges (find_in_entry_ranges image.entry_ranges rva)
            e (entry_found parsed rva) is_in hit in
        let (c, code, x64) = code_at_entry parsed rva e is_in hit in
        let (class, flag, entry, isa) =
          found_entry rva (find_section_for_span image rva 1) c e (classify_in image rva)
            (rw (r, found, code) at classify_in-found) in
        (class, flag, entry, isa ∙ x64);
    code = λ c no_redirection no_entry is_in hit.
        let r =
          Finds-none redirection_span rva image.redirections
            (find_in_redirections image.redirections rva) (redirection_found parsed rva)
            no_redirection in
        let e =
          Finds-none entry_span rva image.entry_ranges (find_in_entry_ranges image.entry_ranges rva)
            (entry_found parsed rva) no_entry in
        let found =
          Finds-some code_span rva image.code_ranges (find_in_code_ranges image.code_ranges rva) c
            (code_found parsed rva) is_in hit in
        found_code rva (find_section_for_span image rva 1) c (classify_in image rva)
          (rw (r, e, found) at classify_in-found);
    other = λ no_redirection no_entry no_code.
        let r =
          Finds-none redirection_span rva image.redirections
            (find_in_redirections image.redirections rva) (redirection_found parsed rva)
            no_redirection in
        let e =
          Finds-none entry_span rva image.entry_ranges (find_in_entry_ranges image.entry_ranges rva)
            (entry_found parsed rva) no_entry in
        let c =
          Finds-none code_span rva image.code_ranges (find_in_code_ranges image.code_ranges rva)
            (code_found parsed rva) no_code in
        found_other rva (find_section_for_span image rva 1) (classify_in image rva)
          (rw (r, e, c) at classify_in-found);
  }

-- What a redirection that is reported is.
pub record IsRedirection (image : Image) (rva next : ℕ) : Type 0 where
  pub redirection : Redirection
  pub is_in : IsIn redirection image.redirections
  pub source : redirection.source_rva ≡ rva
  pub destination_is : redirection.destination_rva ≡ next

destination_lem :
    (image : Image) (rva next : ℕ) (o : Option Redirection)
    → Finds redirection_span image.redirections rva o
    → destination o ≡ some next
    → IsRedirection image rva next
destination_lem image rva next none f e = absurd (cc e)
destination_lem image rva next (some r) (is_in, hit, only) e = record {
  redirection = r;
  is_in = is_in;
  source = ground arith;
  destination_is = cc e;
}

pub classify_in-IsRedirection :
    {bytes : List ℕ} {mapped_image : Bool} {image : Image}
    (parsed : Parsed bytes mapped_image image) (rva next : ℕ)
    → reported (classify_in image rva) ≡ some next
    → IsRedirection image rva next
unfolding classify_in find_redirection
classify_in-IsRedirection {image} parsed rva next e =
    elim (Bool-cases (leb image.summary.size_of_image rva)) [
      | inl outside ↦ absurd (cc (rw (outside, classify_in) at e))
      | inr inside ↦
          destination_lem image rva next (find_in_redirections image.redirections rva)
            (redirection_found parsed rva)
            (sym (
                classify_found-redirected rva (find_section_for_span image rva 1)
                  (find_code_range image rva) (find_entry_range image rva)
                  (find_in_redirections image.redirections rva))
              ∙ (rw (inside, classify_in, find_redirection) at e))
    ]
