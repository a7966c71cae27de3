-- ===== src/Pe/Classify/Laws.antt =====
-- src/gem/pe_arm64x.c: what the classification of an address of a parsed image says.
use metal_sharp_wine_runtime.Prelude.{
  ℕ, ◌≤◌, ◌≡◌, refl, Bool, true, false, Option, none, some, List, arith, ◌⊎◌, ap, sym,
  if◌then◌else◌,
}
use metal_sharp_wine_runtime.Pe.{
  Classification, rva_invalid, rva_data, rva_arm64, rva_arm64ec, rva_thunk, rva_x64,
  rva_fast_forward, Image, Section, CodeRange, EntryRange, Redirection,
}
use metal_sharp_wine_runtime.Pe.Spans.{All, code_span, entry_span, redirection_span}
use metal_sharp_wine_runtime.Pe.Find.{
  find_in_code_ranges, find_in_entry_ranges, find_in_redirections, is_x64,
}
use metal_sharp_wine_runtime.Pe.Find.Search.{
  contains, IsIn, All-IsIn, Finds, find_in_code_ranges-Finds, find_in_entry_ranges-Finds,
  find_in_redirections-Finds,
}
use metal_sharp_wine_runtime.Pe.Tables.Checked.{IsEntry}
use metal_sharp_wine_runtime.Pe.Parse.Parsed.{Parsed}
use metal_sharp_wine_runtime.Pe.Classify.{
  PeRvaInfo, note_section, note_code_range, note_entry_range, note_redirection, classify_found,
  cleared_info,
}

-- The redirection that the information reports is the one that the search finds.
abbrev pub reported : PeRvaInfo → Option ℕ
reported info = if info.has_redirection then some info.redirection_destination_rva else none

abbrev pub destination : Option Redirection → Option ℕ
destination none = none
destination (some r) = some r.destination_rva

note_redirection_lem :
    (o : Option Redirection) (info : PeRvaInfo)
    → info.has_redirection ≡ false
    → reported (note_redirection o info) ≡ destination o
unfolding note_redirection
note_redirection_lem none info e = rw e refl
note_redirection_lem (some r) info e = refl

noted-has_redirection :
    (section : Option (ℕ × Section)) (code : Option CodeRange) (entry : Option EntryRange) (rva : ℕ)
    → (note_entry_range code entry
        (note_code_range code (note_section section (cleared_info rva)))).has_redirection
      ≡ false
unfolding note_entry_range note_code_range note_section
noted-has_redirection none none none rva = refl
noted-has_redirection none none (some e) rva = refl
noted-has_redirection none (some c) none rva = refl
noted-has_redirection none (some c) (some e) rva = refl
noted-has_redirection (some (i, s)) none none rva = refl
noted-has_redirection (some (i, s)) none (some e) rva = refl
noted-has_redirection (some (i, s)) (some c) none rva = refl
noted-has_redirection (some (i, s)) (some c) (some e) rva = refl

pub classify_found-redirected :
    (rva : ℕ) (section : Option (ℕ × Section)) (code : Option CodeRange) (entry : Option EntryRange)
    (redirection : Option Redirection)
    → reported (classify_found rva section code entry redirection) ≡ destination redirection
unfolding classify_found
classify_found-redirected rva section code entry redirection =
    note_redirection_lem redirection
      (note_entry_range code entry (note_code_range code (note_section section (cleared_info rva))))
      (noted-has_redirection section code entry rva)

-- No element of the table contains the address.
abbrev pub Misses : {A : Type 0} → (A → ℕ × ℕ) → List A → ℕ → Type 0
Misses span xs rva = All (λ x. contains (span x) rva ≡ false) xs

-- What the information on an address of the image says, by what the tables hold there.
pub record Classified (image : Image) (rva : ℕ) (info : PeRvaInfo) : Type 0 where
  pub redirected :
      (r : Redirection)
      → IsIn r image.redirections
      → r.source_rva ≡ rva
      → (info.classification ≡ rva_fast_forward)
        × (info.has_redirection ≡ true)
        × (info.redirection_destination_rva ≡ r.destination_rva)
  pub entered :
      (e : EntryRange)
      → Misses redirection_span image.redirections rva
      → IsIn e image.entry_ranges
      → contains (entry_span e) rva ≡ true
      → (info.classification ≡ rva_thunk)
        × (info.has_redirection ≡ false)
        × (info.entry_point_rva ≡ e.entry_point_rva)
        × (info.code_map_isa ≡ rva_x64)
  pub code :
      (c : CodeRange)
      → Misses redirection_span image.redirections rva
      → Misses entry_span image.entry_ranges rva
      → IsIn c image.code_ranges
      → contains (code_span c) rva ≡ true
      → (info.classification ≡ c.isa)
        × (info.has_redirection ≡ false)
        × (info.has_entry_point ≡ false)
  pub other :
      Misses redirection_span image.redirections rva
      → Misses entry_span image.entry_ranges rva
      → Misses code_span image.code_ranges rva
      → (info.classification ≡ rva_invalid) ⊎ (info.classification ≡ rva_data)

pub Finds-some :
    {A : Type 0} (span : A → ℕ × ℕ) (rva : ℕ) (xs : List A) (o : Option A) (x : A)
    → Finds span xs rva o
    → IsIn x xs
    → contains (span x) rva ≡ true
    → o ≡ some x
Finds-some {A} span rva xs none x f is_in hit =
    absurd (cc (hit, All-IsIn (λ (y : A). contains (span y) rva ≡ false) xs f is_in))
Finds-some {A} span rva xs (some y) x (_, _, only) is_in hit =
    ap some (sym (All-IsIn (λ (z : A). contains (span z) rva ≡ true → z ≡ y) xs only is_in hit))

pub Finds-none :
    {A : Type 0} (span : A → ℕ × ℕ) (rva : ℕ) (xs : List A) (o : Option A)
    → Finds span xs rva o
    → Misses span xs rva
    → o ≡ none
Finds-none span rva xs none f miss = refl
Finds-none {A} span rva xs (some y) (is_in, hit, _) miss =
    absurd (cc (hit, All-IsIn (λ (z : A). contains (span z) rva ≡ false) xs miss is_in))

module _ {bytes : List ℕ} {mapped_image : Bool} {image : Image}
    (parsed : Parsed bytes mapped_image image) (rva : ℕ) where
  pub code_found : Finds code_span image.code_ranges rva (find_in_code_ranges image.code_ranges rva)
  code_found =
      find_in_code_ranges-Finds 0 image.summary.size_of_image rva image.code_ranges
        parsed.code_mapped.1

  pub entry_found :
      Finds entry_span image.entry_ranges rva (find_in_entry_ranges image.entry_ranges rva)
  entry_found =
      find_in_entry_ranges-Finds 0 image.summary.size_of_image rva image.entry_ranges
        parsed.entries_mapped.1

  pub redirection_found :
      Finds redirection_span image.redirections rva (find_in_redirections image.redirections rva)
  redirection_found =
      find_in_redirections-Finds 0 image.summary.size_of_image rva image.redirections
        parsed.redirections_mapped.1

  -- The range of x64 code around an address of an entry range.
  pub code_at_entry :
      (e : EntryRange)
      → IsIn e image.entry_ranges
      → contains (entry_span e) rva ≡ true
      → (c : CodeRange) × (find_in_code_ranges image.code_ranges rva ≡ some c) × (c.isa ≡ rva_x64)
  code_at_entry e is_in hit =
      let entry : IsEntry image.code_ranges e =
        All-IsIn (IsEntry image.code_ranges) image.entry_ranges parsed.entries_mapped.2 is_in in
      let at_start =
        find_in_code_ranges-Finds 0 image.summary.size_of_image e.start_rva image.code_ranges
          parsed.code_mapped.1 in
      let found : Finds code_span image.code_ranges e.start_rva (some entry.code) =
        rw entry.found at at_start in
      (
        entry.code,
        Finds-some code_span rva image.code_ranges (find_in_code_ranges image.code_ranges rva)
            entry.code code_found found.0 (around entry.code e rva found.1 entry.inside hit),
        is_x64_lem entry.code.isa entry.is_x64_code,
      )
    where
      around :
          (c : CodeRange) (e : EntryRange) (rva : ℕ)
          → contains (code_span c) e.start_rva ≡ true
          → e.end_rva ≤ c.end_rva
          → contains (entry_span e) rva ≡ true
          → contains (code_span c) rva ≡ true
      around c e rva h inside hit = ground arith

      is_x64_lem : (c : Classification) → is_x64 c ≡ true → c ≡ rva_x64
      is_x64_lem rva_x64 h = refl
      is_x64_lem rva_invalid h = absurd (cc h)
      is_x64_lem rva_data h = absurd (cc h)
      is_x64_lem rva_arm64 h = absurd (cc h)
      is_x64_lem rva_arm64ec h = absurd (cc h)
      is_x64_lem rva_thunk h = absurd (cc h)
      is_x64_lem rva_fast_forward h = absurd (cc h)
