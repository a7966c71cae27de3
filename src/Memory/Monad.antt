-- ===== src/Memory/Monad.antt =====
-- Steps through the sequences of src/gem/memory.c.
use metal_sharp_wine_runtime.Prelude.{◌≡◌, Option, some}
use metal_sharp_wine_runtime.Memory.{Memory, M, ◌>>=◌}

-- A statement that ends hands its value and the state to what follows it.
pub after :
    {A B : Type 0} (s : M A) (f : A → M B) {m m' : Memory} {a : A} {r : Option (B × Memory)}
    → s m ≡ some (a, m')
    → f a m' ≡ r
    → ◌>>=◌ s f m ≡ r
after s f e rest = rw (e, ◌>>=◌) rest
