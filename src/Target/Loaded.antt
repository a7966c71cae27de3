-- ===== src/Target/Loaded.antt =====
-- src/gem/arm64ec_target.c over src/gem/pe_arm64x.c: what a target of a parsed image is.
use metal_sharp_wine_runtime.Prelude.{
  ℕ, ◌+◌, ◌≤◌, ◌<◌, ◌≡◌, refl, sym, ap, ◌∙◌, Bool, true, false, Option, none, some, List, ◌==◌,
  arith,
}
use metal_sharp_wine_runtime.Pe.{
  ParseOptions, Image, Summary, Allocations, Attempt, done, failed, fault, Redirection,
}
use metal_sharp_wine_runtime.Pe.Find.Search.{All-IsIn}
use metal_sharp_wine_runtime.Pe.Classify.{classify_rva, classify_in}
use metal_sharp_wine_runtime.Pe.Classify.Complete.{IsRedirection, classify_in-IsRedirection}
use metal_sharp_wine_runtime.Pe.Parse.Parsed.{Parsed, parse_image-Parsed}
use metal_sharp_wine_runtime.Pe.Parse.{parse_image}
use metal_sharp_wine_runtime.Pe.Bytes.{IsBytes}
use metal_sharp_wine_runtime.Pe.Accessors.{image_clone, get_summary}
use metal_sharp_wine_runtime.Pe.Accessors.Laws.{image_clone-eq}
use metal_sharp_wine_runtime.Target.{ok, Target, RvaInfo, TargetMap, add_u64, resolve}
use metal_sharp_wine_runtime.Target.Create.{
  target_info, map_of, map_from, map_ending, map_with, map_create,
}
use metal_sharp_wine_runtime.Target.Resolution.{
  HasWords, Leads, stays, hops, Resolved, resolve-Resolved, add_u64_lem,
}

-- The map over an image, at its whole size.
pub record IsMapOf (image : Image) (loaded_base : ℕ) (map : TargetMap) : Type 0 where
  pub loaded_end : ℕ
  pub is_map : map ≡ map_of image image.summary loaded_base loaded_end
  pub ends : loaded_end ≡ loaded_base + image.summary.size_of_image

module _ {bytes : List ℕ} {mapped_image : Bool} {image : Image}
    (parsed : Parsed bytes mapped_image image) where
  map_from-IsMapOf :
      (summary : Summary) (base end : ℕ) (copy : Attempt Image) (map : TargetMap)
      → ((c : Image) → copy ≡ done c → c ≡ image)
      → map_from summary base end copy ≡ done (ok, some map)
      → map ≡ map_of image summary base end
  unfolding map_from
  map_from-IsMapOf summary base end (done c) map same e =
      let is : map_of c summary base end ≡ map = cc e in sym is ∙ rw (same c refl) refl
  map_from-IsMapOf summary base end (failed s) map same e = absurd (cc e)
  map_from-IsMapOf summary base end fault map same e = absurd (cc e)

  map_ending-IsMapOf :
      (allocations : Allocations) (base : ℕ) (sum : Option ℕ) (map : TargetMap)
      → ((end : ℕ) → sum ≡ some end → end ≡ base + image.summary.size_of_image)
      → map_ending allocations image image.summary base sum ≡ done (ok, some map)
      → IsMapOf image base map
  unfolding map_ending
  map_ending-IsMapOf allocations base none map ends e = absurd (cc e)
  map_ending-IsMapOf allocations base (some end) map ends e = record {
    loaded_end = end;
    is_map =
        map_from-IsMapOf image.summary base end (image_clone allocations (some image) true) map
          (image_clone-eq bytes mapped_image image parsed allocations).1 e;
    ends = ends end refl;
  }

  pub map_create-IsMapOf :
      (allocated : Bool) (allocations : Allocations) (base : ℕ) (map : TargetMap)
      → map_create allocated allocations (some image) base true ≡ done (ok, some map)
      → IsMapOf image base map
  unfolding map_create map_with get_summary
  map_create-IsMapOf false allocations base map e = absurd (cc e)
  map_create-IsMapOf true allocations base map e =
      let size = image.summary.size_of_image in
      let some_size : (size == 0) ≡ false = ground (arith, parsed.headed.size_positive) in
      map_ending-IsMapOf allocations base (add_u64 base size) map
        (λ end sum. (add_u64_lem base size end (omega (arith, parsed.headed.size_fits)) sum).0)
        (rw (some_size, map_create, map_with, get_summary) at e)

  -- A redirection of the map leads into the image.
  pub redirected_inside :
      (base end rva next : ℕ) (info : RvaInfo)
      → (map_of image image.summary base end).classify_rva rva ≡ some info
      → info.redirection ≡ some next
      → IsRedirection image rva next
  unfolding map_of classify_rva
  redirected_inside base end rva next info e more =
      let is : target_info (classify_in image rva) ≡ info = cc e in
      classify_in-IsRedirection parsed rva next (ap (λ (i : RvaInfo). i.redirection) is ∙ more)

  IsRedirection-inside :
      (rva next : ℕ) → IsRedirection image rva next → next < image.summary.size_of_image
  IsRedirection-inside rva next r =
      let small =
        All-IsIn (λ (x : Redirection). x.destination_rva < image.summary.size_of_image)
          image.redirections parsed.redirections_mapped.2 r.is_in in
      omega (arith, r.destination_is)

  Leads-inside :
      (base e rva n end : ℕ)
      → rva < image.summary.size_of_image
      → Leads (map_of image image.summary base e) rva n end
      → end < image.summary.size_of_image
  Leads-inside base e rva n end lt (stays info found last) = lt
  Leads-inside base e rva n end lt (hops {next = next} {n = n'} info found more rest) =
      Leads-inside base e next n' end
        (IsRedirection-inside rva next (redirected_inside base e rva next info found more)) rest

  resolve-inside :
      (base e va : ℕ) (o : Option Target)
      → e ≡ base + image.summary.size_of_image
      → resolve (map_of image image.summary base e) va ≡ (ok, o)
      → (t : Target) × (o ≡ some t)
        × Resolved (map_of image image.summary base e) va t
        × (base ≤ t.resolved_va)
        × (t.resolved_va < base + image.summary.size_of_image)
  unfolding map_of
  resolve-inside base e va o ends resolved =
      let map = map_of image image.summary base e in
      let size = image.summary.size_of_image in
      let words : HasWords map = λ rva info next found more.
        let lt =
          IsRedirection-inside rva next (redirected_inside base e rva next info found more) in
        omega (arith, lt, parsed.headed.size_fits) in
      let (t, stored, r) = resolve-Resolved map va o words resolved in
      let offset : t.requested_rva < size =
        omega (arith, r.requested_offset, r.in_image.0, r.in_image.1, ends) in
      let arrived =
        Leads-inside base e t.requested_rva t.redirection_hops t.resolved_rva offset r.leads in
      (t, stored, r, omega (arith, r.resolved), omega (arith, r.resolved, arrived))

-- If an image that the parser returns for a buffer of bytes is given to
-- `gem_arm64ec_target_map_create`, every target that `gem_arm64ec_target_resolve` stores lies in the
-- loaded image, and is the end of all redirections from the requested address, executable and aligned.
pub resolve_loaded :
    (parse_allocations : Allocations) (bytes : List ℕ) (loaded_base : ℕ) (mapped_image : Bool)
    (options : Option ParseOptions) (out : Bool) (image : Image) (allocated : Bool)
    (allocations : Allocations) (base : ℕ) (map : TargetMap) (va : ℕ) (o : Option Target)
    → IsBytes bytes
    → parse_image parse_allocations (some bytes) loaded_base mapped_image options out ≡ done image
    → map_create allocated allocations (some image) base true ≡ done (ok, some map)
    → resolve map va ≡ (ok, o)
    → (t : Target) × (o ≡ some t)
      × Resolved map va t
      × (base ≤ t.resolved_va)
      × (t.resolved_va < base + image.summary.size_of_image)
resolve_loaded parse_allocations bytes loaded_base mapped_image options out image allocated
      allocations base map va o p read created resolved =
    let parsed =
      parse_image-Parsed parse_allocations bytes loaded_base mapped_image options out p read in
    let m = map_create-IsMapOf parsed allocated allocations base map created in
    rw m.is_map (resolve-inside parsed base m.loaded_end va o m.ends (rw m.is_map at resolved))
