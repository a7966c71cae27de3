-- ===== src/Memory.antt =====
-- src/gem/memory.c and include/metalsharp/gem/memory.h: the guest address space, a table of
-- 4 KiB pages over counted backings.
pub mod Monad
pub mod Rules
pub mod Table
pub mod Backings
pub mod Reserve
pub mod Commit
pub mod Release
pub mod Protect
pub mod Alias
pub mod External
pub mod Counts
pub mod Topology
pub mod Access
pub mod I386
pub mod Create
use metal_sharp_wine_runtime.Prelude.{
  ℕ, zero, suc, ◌+◌, ◌%◌, ◌^◌, Bool, true, false, Option, none, some, List, [], ◌∷◌, ◌==◌,
  if◌then◌else◌,
}

-- `enum gem_memory_error`
pub data Error : Type 0 where
  ok invalid_argument overflow no_memory conflict not_reserved not_committed access_denied : Error
  guard_page not_found : Error

-- What `data` of a backing points to: 4096 bytes of its own, or a host page of the caller.
pub data Storage : Type 0 where
  owned : List ℕ → Storage
  external : ℕ → Storage

-- `struct backing`. `malloc` leaves the generation unset until the first `touch_backing`.
pub record Backing : Type 0 where
  pub storage : Storage
  pub refs : ℕ
  pub generation : Option ℕ

-- `struct page`. A backing is named by the number that it got when it was allocated.
pub record Page : Type 0 where
  pub address : ℕ
  pub reservation_base : ℕ
  pub reservation_size : ℕ
  pub backing : Option ℕ
  pub protection : ℕ
  pub generation : ℕ

-- `struct gem_memory` with what it stands on: the live backings, the host's bytes, and the
-- number of allocations that succeed before one fails.
pub record Memory : Type 0 where
  pub pages : List Page
  pub next_generation : ℕ
  pub backings : ℕ → Option Backing
  pub next_backing : ℕ
  pub host : ℕ → ℕ
  pub allocations_left : ℕ

abbrev pub page_size : ℕ
page_size = 4096

-- A statement that runs under the lock. `none` is a call of `abort`, or an access through a null
-- or dangling pointer.
abbrev pub M : Type 0 → Type 0
M A = Memory → Option (A × Memory)

infixl 5 ◌>>=◌ ◌>>◌
abbrev pub ◌>>=◌ : {A B : Type 0} → M A → (A → M B) → M B
◌>>=◌ s f m = elim (s m) [ none ↦ none | some (a, m') ↦ f a m' ]

abbrev pub ◌>>◌ : {B : Type 0} → M (Unit {0}) → M B → M B
s >> t = s >>= λ _. t

abbrev pub pure : {A : Type 0} → A → M A
pure a m = some (a, m)

abbrev pub stop : {A : Type 0} → M A
stop m = none

-- `for (o = 0; o < n; o += 4096)`, with the rounds left and the address `a + o`.
unfoldable pub for_pages : ℕ → ℕ → (ℕ → M (Unit {0})) → M (Unit {0})
for_pages zero a body m = some (tt, m)
for_pages (suc left) a body m = elim (body a m) [
  | none ↦ none
  | some (_, m') ↦ for_pages left (a + page_size) body m'
]

-- `calloc` or `malloc`, and whether it gave memory.
unfoldable pub allocate_from : ℕ → M Bool
allocate_from zero m = some (false, m)
allocate_from (suc left) m = some (true, record m { allocations_left = left })

unfoldable pub allocate : M Bool
unfolding allocate_from
allocate m = allocate_from m.allocations_left m
