-- ===== src/Memory/Commit/Checked.antt =====
-- src/gem/memory.c: an operation that ends at its check.
use metal_sharp_wine_runtime.Prelude.{◌≡◌, ◌≢◌, refl, some}
use metal_sharp_wine_runtime.Memory.{Error, ok, Memory, M}
use metal_sharp_wine_runtime.Memory.Commit.{checked}

pub checked_refused :
    (e : Error) (rest : M Error) (m : Memory) → e ≢ ok → checked e rest m ≡ some (e, m)
checked_refused ok rest m bad = absurd (bad refl)
checked_refused _ rest m bad = refl
