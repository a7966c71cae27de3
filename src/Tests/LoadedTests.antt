-- ===== src/Tests/LoadedTests.antt =====
-- src/gem/pe_arm64x.c and src/gem/arm64ec_target.c: the image of the parser's test, classified, cloned
-- and given to a target map.
use metal_sharp_wine_runtime.Prelude.{
  ◌+◌, ◌≤◌, ◌<◌, ◌≡◌, ◌≢◌, ◌↔◌, refl, true, false, none, some, length, arith,
}
use metal_sharp_wine_runtime.Pe.{done, fault, Image, ◌>>=◌, ◌>>◌, refuse_if, expect}
use metal_sharp_wine_runtime.Pe.Classify.{classify_in}
use metal_sharp_wine_runtime.Pe.Classify.Laws.{Classified}
use metal_sharp_wine_runtime.Pe.Classify.Complete.{classify_in-Classified}
use metal_sharp_wine_runtime.Pe.Accessors.{
  image_clone, get_section, get_code_range, get_entry_range, get_redirection, rva_to_file_offset,
}
use metal_sharp_wine_runtime.Pe.Accessors.Laws.{
  image_clone-eq, accessors-ne-fault, rva_to_file_offset_inside,
}
use metal_sharp_wine_runtime.Target.{ok, Target, TargetMap, arm64ec, resolve, follow}
use metal_sharp_wine_runtime.Target.Create.{map_create, map_of}
use metal_sharp_wine_runtime.Target.Resolution.{Leads, Resolved}
use metal_sharp_wine_runtime.Target.Loaded.{resolve_loaded}
use metal_sharp_wine_runtime.Target.Chain.{follow_iff}
use metal_sharp_wine_runtime.Tests.PeTests.{
  allocate_all, parsed_image, image_bytes, image_bytes-IsBytes, parse_run, parsed_image-Parsed,
}

classify_in-Classified_example : Classified parsed_image 0x224 (classify_in parsed_image 0x224)
classify_in-Classified_example = classify_in-Classified parsed_image-Parsed 0x224 (omega arith)

image_clone-eq_example :
    (image_clone allocate_all (some parsed_image) true ≢ fault)
    × ((copy : Image)
        → image_clone allocate_all (some parsed_image) true ≡ done copy
        → copy ≡ parsed_image)
image_clone-eq_example =
    image_clone-eq image_bytes false parsed_image parsed_image-Parsed allocate_all

accessors-ne-fault_example :
    (get_section (some parsed_image) 1 true ≢ fault)
    × (get_code_range (some parsed_image) 1 true ≢ fault)
    × (get_entry_range (some parsed_image) 1 true ≢ fault)
    × (get_redirection (some parsed_image) 1 true ≢ fault)
accessors-ne-fault_example =
    accessors-ne-fault image_bytes false parsed_image parsed_image-Parsed 1 true

offset_found : rva_to_file_offset (some parsed_image) 0x310 4 true ≡ done 384
unfolding rva_to_file_offset ◌>>=◌ ◌>>◌ refuse_if expect
offset_found = refl

rva_to_file_offset_inside_example : 384 + 4 ≤ length image_bytes
rva_to_file_offset_inside_example =
    rva_to_file_offset_inside image_bytes false parsed_image parsed_image-Parsed 0x310 4 384
      offset_found

abbrev loaded_map : TargetMap
loaded_map = map_of parsed_image parsed_image.summary 0x20000 0x21000

map_created :
    map_create true allocate_all (some parsed_image) 0x20000 true ≡ done (ok, some loaded_map)
unfolding map_create ◌>>=◌ ◌>>◌ refuse_if expect
map_created = refl

abbrev redirected : Target
redirected = record {
  requested_va = 0x20228;
  resolved_va = 0x20200;
  requested_rva = 0x228;
  resolved_rva = 0x200;
  kind = arm64ec;
  redirection_hops = 1;
}

redirected_found : resolve loaded_map 0x20228 ≡ (ok, some redirected)
unfolding resolve map_of
redirected_found = refl

resolve_loaded_example :
    (t : Target) × (some redirected ≡ some t)
    × Resolved loaded_map 0x20228 t
    × (0x20000 ≤ t.resolved_va)
    × (t.resolved_va < 0x20000 + parsed_image.summary.size_of_image)
resolve_loaded_example =
    resolve_loaded allocate_all image_bytes 0 false none true parsed_image true allocate_all 0x20000
      loaded_map 0x20228 (some redirected) image_bytes-IsBytes parse_run map_created
      redirected_found

follow_iff_example :
    (follow loaded_map (parsed_image.summary.redirection_count + 1) 0x228 0 ≡ some (0x200, 1))
    ↔ Leads loaded_map 0x228 1 0x200
follow_iff_example = follow_iff parsed_image-Parsed 0x20000 0x21000 0x228 0x200 1
