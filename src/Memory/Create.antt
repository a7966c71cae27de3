-- ===== src/Memory/Create.antt =====
-- src/gem/memory.c: `gem_memory_create` and `gem_memory_destroy`.
use metal_sharp_wine_runtime.Prelude.{◌-◌, ◌^◌, Bool, true, false, ◌&&◌, not, if◌then◌else◌}
use metal_sharp_wine_runtime.Memory.{Error, ok, M, ◌>>=◌, ◌>>◌, pure, allocate, page_size}
use metal_sharp_wine_runtime.Memory.Rules.{page_readwrite}
use metal_sharp_wine_runtime.Memory.Reserve.{reserve}
use metal_sharp_wine_runtime.Memory.Commit.{commit}
use metal_sharp_wine_runtime.Memory.Alias.{alias}
use metal_sharp_wine_runtime.Memory.Release.{remove_pages}
use metal_sharp_wine_runtime.Memory.External.{kuser_shared_data_address, kuser_canonical_address}

abbrev succeeds : Error → Bool
succeeds ok = true
succeeds e = false

-- The three calls that map the page of KUSER_SHARED_DATA at its two addresses.
unfoldable pub map_kuser : M Bool
unfolding reserve commit alias
map_kuser = do
  r ← reserve kuser_canonical_address page_size
  if succeeds (r.0)
      then (do
        committed ← commit (r.1) page_size page_readwrite
        if succeeds committed
            then (do
              aliased ← alias kuser_shared_data_address (r.1) page_size page_readwrite
              pure (succeeds aliased))
            else pure false)
      else pure false

-- On a memory of zeros; the flag tells whether the locks and stripes could be initialized.
unfoldable pub create : Bool → M Bool
unfolding map_kuser remove_pages allocate
create locks_ok = do
  struct_ok ← allocate
  buckets_ok ← if struct_ok then allocate else pure false
  if not (buckets_ok && locks_ok) then pure false else (do
    mapped ← map_kuser
    if mapped then pure true else (do remove_pages 0 (2 ^ 64 - 1); pure false))

-- The pages go, and with them the references to the backings.
unfoldable pub destroy : M (Unit {0})
unfolding remove_pages
destroy = remove_pages 0 (2 ^ 64 - 1)
