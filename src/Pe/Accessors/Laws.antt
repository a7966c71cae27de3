-- ===== src/Pe/Accessors/Laws.antt =====
-- src/gem/pe_arm64x.c: on a parsed image the accessors stay inside the arrays, and a clone is the image.
use metal_sharp_wine_runtime.Prelude.{
  ℕ, zero, suc, ◌+◌, ◌≤◌, ◌<◌, ◌≡◌, ◌≢◌, refl, sym, Bool, true, false, some, List, [], ◌∷◌, leb,
  length, arith,
}
use metal_sharp_wine_runtime.Pe.{
  invalid_argument, overflow, limit_exceeded, done, fault, ◌>>◌, refuse_if, Image, Allocations,
}
use metal_sharp_wine_runtime.Pe.Bytes.{checked_mul_size}
use metal_sharp_wine_runtime.Pe.Ensures.{
  Ensures, holds, Ensures-bind, Ensures-refuse_if, Ensures-expect, Ensures-done, Ensures-weaken,
  Ensures-ne-fault,
}
use metal_sharp_wine_runtime.Pe.Span.{rva_to_file_offset_internal-Ensures}
use metal_sharp_wine_runtime.Pe.Find.Search.{IsIn, first, later}
use metal_sharp_wine_runtime.Pe.Parse.Parsed.{Parsed}
use metal_sharp_wine_runtime.Pe.Accessors.{
  element_at, get_section, get_code_range, get_entry_range, get_redirection, rva_to_file_offset,
  copy_elements, clone_array, image_clone,
}

element_at-Ensures :
    {A : Type 0} (xs : List A) (i : ℕ) → i < length xs → Ensures (λ x. IsIn x xs) (element_at xs i)
unfolding element_at
element_at-Ensures [] i h = absurd (omega arith)
element_at-Ensures (x ∷ xs) zero h = holds first
element_at-Ensures (x ∷ xs) (suc i) h =
    Ensures-weaken (λ _ p. later p) (element_at-Ensures xs i (omega arith))

copy_elements-Ensures :
    {A : Type 0} (n : ℕ) (xs : List A)
    → length xs ≡ n
    → Ensures (λ ys. ys ≡ xs) (copy_elements n xs)
unfolding copy_elements
copy_elements-Ensures zero [] e = holds refl
copy_elements-Ensures zero (x ∷ xs) e = absurd (omega (arith, e))
copy_elements-Ensures (suc n) [] e = absurd (omega (arith, e))
copy_elements-Ensures (suc n) (x ∷ xs) e =
    Ensures-bind (copy_elements-Ensures n xs (omega (arith, e))) λ ys h. holds (rw h refl)

clone_array-Ensures :
    {A : Type 0} (n size : ℕ) (allocated : Bool) (xs : List A)
    → length xs ≡ n
    → Ensures (λ ys. ys ≡ xs) (clone_array n size allocated xs)
unfolding clone_array
clone_array-Ensures zero size allocated [] e = holds refl
clone_array-Ensures zero size allocated (x ∷ xs) e = absurd (omega (arith, e))
clone_array-Ensures (suc n) size allocated xs e =
    Ensures-expect (checked_mul_size (suc n) size) overflow
      λ _ _. Ensures-refuse_if _ limit_exceeded λ _. copy_elements-Ensures (suc n) xs e

module _ (bytes : List ℕ) (mapped_image : Bool) (image : Image)
    (parsed : Parsed bytes mapped_image image) where
  image_clone-Ensures :
      (allocations : Allocations)
      → Ensures (λ copy. copy ≡ image) (image_clone allocations (some image) true)
  unfolding image_clone
  image_clone-Ensures allocations =
      let s = image.summary in
      Ensures-refuse_if _ limit_exceeded λ _.
        Ensures-bind
          (clone_array-Ensures s.section_count 20 allocations.sections_allocated image.sections
            (sym parsed.headed.section_count))
          λ _ h0.
            Ensures-bind
              (clone_array-Ensures s.code_range_count 12 allocations.code_ranges_allocated
                image.code_ranges parsed.code_mapped.0)
              λ _ h1.
                Ensures-bind
                  (clone_array-Ensures s.entry_range_count 12 allocations.entry_ranges_allocated
                    image.entry_ranges parsed.entries_mapped.0)
                  λ _ h2.
                    Ensures-bind
                      (clone_array-Ensures s.redirection_count 8 allocations.redirections_allocated
                        image.redirections parsed.redirections_mapped.0)
                      λ _ h3. holds (rw (h0, h1, h2, h3) refl)

  -- A clone of a parsed image reads no element outside the arrays, and a clone that succeeds is equal
  -- to the image.
  pub image_clone-eq :
      (allocations : Allocations)
      → (image_clone allocations (some image) true ≢ fault)
        × ((copy : Image) → image_clone allocations (some image) true ≡ done copy → copy ≡ image)
  image_clone-eq allocations = (
    Ensures-ne-fault (image_clone-Ensures allocations),
    λ copy e. Ensures-done (image_clone-Ensures allocations) e,
  )

  indexed-Ensures :
      {A : Type 0} (count index : ℕ) (xs : List A)
      → length xs ≡ count
      → Ensures
          (λ x. IsIn x xs)
          (refuse_if (leb count index) invalid_argument >> element_at xs index)
  indexed-Ensures count index xs e =
      Ensures-refuse_if _ invalid_argument λ inside. element_at-Ensures xs index (ground (arith, e))

  indexed-ne-fault :
      {A : Type 0} (count index : ℕ) (xs : List A)
      → length xs ≡ count
      → refuse_if (leb count index) invalid_argument >> element_at xs index ≢ fault
  indexed-ne-fault count index xs e = Ensures-ne-fault (indexed-Ensures count index xs e)

  -- On a parsed image no accessor reads an element outside an array, whatever the index is.
  pub accessors-ne-fault :
      (index : ℕ) (out : Bool)
      → (get_section (some image) index out ≢ fault)
        × (get_code_range (some image) index out ≢ fault)
        × (get_entry_range (some image) index out ≢ fault)
        × (get_redirection (some image) index out ≢ fault)
  unfolding get_section get_code_range get_entry_range get_redirection
  accessors-ne-fault index false = (cc, cc, cc, cc)
  accessors-ne-fault index true = (
    Ensures-ne-fault {P = λ _. Unit} (
        Ensures-refuse_if _ invalid_argument λ inside.
          Ensures-bind
            (element_at-Ensures image.sections index (ground (arith, parsed.headed.section_count)))
            λ s _. holds tt),
    indexed-ne-fault image.summary.code_range_count index image.code_ranges parsed.code_mapped.0,
    indexed-ne-fault image.summary.entry_range_count index image.entry_ranges
        parsed.entries_mapped.0,
    indexed-ne-fault image.summary.redirection_count index image.redirections
        parsed.redirections_mapped.0,
  )

  -- An offset that `gem_pe_arm64x_rva_to_file_offset` stores for a span of a parsed image starts a span
  -- of that size in the buffer.
  pub rva_to_file_offset_inside :
      (rva size offset : ℕ)
      → rva_to_file_offset (some image) rva size true ≡ done offset
      → offset + size ≤ length bytes
  unfolding rva_to_file_offset
  rva_to_file_offset_inside rva size offset e = omega (
    arith,
    parsed.headed.counted,
    Ensures-done (rva_to_file_offset_internal-Ensures image rva size) e,
  )
