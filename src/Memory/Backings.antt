-- ===== src/Memory/Backings.antt =====
-- src/gem/memory.c: counted backings.
use metal_sharp_wine_runtime.Prelude.{
  ℕ, zero, suc, ◌+◌, ◌-◌, ◌%◌, ◌^◌, false, Option, none, some, ◌==◌, if◌then◌else◌, replicate,
}
use metal_sharp_wine_runtime.Memory.{
  Storage, owned, external, Backing, Memory, M, ◌>>=◌, pure, allocate, page_size,
}

unfoldable pub put_backing : ℕ → Option Backing → Memory → Memory
put_backing id b m = record m { backings = λ j. if j == id then b else m.backings j }

-- `--b->refs`, which wraps at 0, and the `free` of a backing whose count comes to 0.
unfoldable pub released : Backing → ℕ → Option Backing
released b zero = some (record b { refs = 2 ^ 64 - 1 })
released b (suc zero) = none
released b (suc (suc refs)) = some (record b { refs = suc refs })

-- `drop` of a backing that is no null pointer. A freed backing is gone.
unfoldable pub drop_backing : ℕ → M (Unit {0})
unfolding put_backing released
drop_backing id m = elim (m.backings id) [
  | none ↦ none
  | some b ↦ some (tt, put_backing id (released b b.refs) m)
]

unfoldable pub drop : Option ℕ → M (Unit {0})
unfolding drop_backing
drop none = pure tt
drop (some id) = drop_backing id

-- The stores that follow the allocations of `new_backing`.
unfoldable pub fresh_backing : Storage → M (Option ℕ)
unfolding put_backing
fresh_backing s m =
    let b : Backing = record { storage = s; refs = 1; generation = none } in
    let id = m.next_backing in
    some (some id, record (put_backing id (some b) m) { next_backing = id + 1 })

-- `new_backing(NULL, false)`: the struct, then a zeroed page of its own.
unfoldable pub new_owned : M (Option ℕ)
unfolding fresh_backing allocate
new_owned = do
  struct_ok ← allocate
  data_ok ← if struct_ok then allocate else pure false
  if data_ok then fresh_backing (owned (replicate page_size 0)) else pure none

-- `new_backing(h, true)`
unfoldable pub new_external : ℕ → M (Option ℕ)
unfolding fresh_backing allocate
new_external h = do
  struct_ok ← allocate
  if struct_ok then fresh_backing (external h) else pure none

-- `++b->refs`
unfoldable pub retain : ℕ → M (Unit {0})
unfolding put_backing
retain id m = elim (m.backings id) [
  | none ↦ none
  | some b ↦ some (tt, put_backing id (some (record b { refs = (b.refs + 1) % 2 ^ 64 })) m)
]
