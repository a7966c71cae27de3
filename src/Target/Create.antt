-- ===== src/Target/Create.antt =====
-- src/gem/arm64ec_target.c: `gem_arm64ec_target_map_create` on an image of src/gem/pe_arm64x.c.
use metal_sharp_wine_runtime.Prelude.{ℕ, Bool, true, not, Option, none, some, ◌==◌, if◌then◌else◌}
use metal_sharp_wine_runtime.Pe.{Image, Summary, Allocations, Attempt, done, failed, fault}
use metal_sharp_wine_runtime.Pe.Accessors.{get_summary, image_clone, redirection_count}
use metal_sharp_wine_runtime.Pe.Classify.{PeRvaInfo, classify_rva}
use metal_sharp_wine_runtime.Target.{
  Status, ok, invalid_argument, overflow, malformed_metadata, RvaInfo, TargetMap, add_u64,
}

-- What the resolution reads of the information on an address.
abbrev pub target_info : PeRvaInfo → RvaInfo
target_info info = record {
  classification = info.classification;
  code_map_isa = info.code_map_isa;
  executable_section = info.executable_section;
  redirection = if info.has_redirection then some info.redirection_destination_rva else none;
}

abbrev pub answered : Attempt PeRvaInfo → Option RvaInfo
answered (done info) = some (target_info info)
answered _ = none

-- The map over its copy of the image.
unfoldable pub map_of : Image → Summary → ℕ → ℕ → TargetMap
unfolding classify_rva redirection_count
map_of copy summary loaded_base loaded_end = record {
  classify_rva = λ rva. answered (classify_rva (some copy) rva true);
  redirection_count = redirection_count (some copy);
  size_of_image = summary.size_of_image;
  loaded_base = loaded_base;
  loaded_end = loaded_end;
}

-- After the copy of the image.
unfoldable pub map_from : Summary → ℕ → ℕ → Attempt Image → Attempt (Status × Option TargetMap)
unfolding map_of
map_from summary loaded_base loaded_end (done copy) =
    done (ok, some (map_of copy summary loaded_base loaded_end))
map_from summary loaded_base loaded_end (failed e) = done (malformed_metadata, none)
map_from summary loaded_base loaded_end fault = fault

-- After the sum of the base and the size.
unfoldable pub map_ending :
    Allocations → Image → Summary → ℕ → Option ℕ → Attempt (Status × Option TargetMap)
unfolding map_from image_clone
map_ending allocations image summary loaded_base none = done (overflow, none)
map_ending allocations image summary loaded_base (some loaded_end) =
    map_from summary loaded_base loaded_end (image_clone allocations (some image) true)

-- After the summary is read.
unfoldable pub map_with :
    Allocations → Image → ℕ → Attempt Summary → Attempt (Status × Option TargetMap)
unfolding map_ending add_u64
map_with allocations image loaded_base (done summary) =
    if summary.size_of_image == 0
    then done (overflow, none)
    else map_ending allocations image summary loaded_base
        (add_u64 loaded_base summary.size_of_image)
map_with allocations image loaded_base (failed e) = done (malformed_metadata, none)
map_with allocations image loaded_base fault = fault

-- The status, and the map that is stored on success; `fault` if the copy reads outside an array. The
-- arguments are whether `calloc` returns memory for the map, the allocations of the copy, the image and
-- the base, and whether the pointer to the result is not null.
unfoldable pub map_create :
    Bool → Allocations → Option Image → ℕ → Bool → Attempt (Status × Option TargetMap)
unfolding map_with get_summary
map_create allocated allocations (some image) loaded_base true =
    if not allocated
    then done (malformed_metadata, none)
    else map_with allocations image loaded_base (get_summary (some image) true)
map_create allocated allocations _ loaded_base _ = done (invalid_argument, none)
