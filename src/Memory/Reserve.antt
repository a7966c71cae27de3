-- ===== src/Memory/Reserve.antt =====
-- src/gem/memory.c: `reserve_locked`. A call returns its error code and, on success, the value
-- left in `*a`.
pub mod Search
pub mod Laws
pub mod Outcome
use metal_sharp_wine_runtime.Prelude.{
  ℕ, zero, suc, ◌+◌, ◌-◌, ◌/◌, ◌%◌, ◌^◌, Bool, true, false, ◌&&◌, ◌||◌, not, Option, none, some,
  List, [], ◌∷◌, ◌++◌, ◌==◌, ◌!=◌, leb, ltb, if◌then◌else◌,
}
use metal_sharp_wine_runtime.Memory.{
  Error, ok, invalid_argument, overflow, no_memory, conflict, Page, M, ◌>>=◌, allocate, page_size,
}
use metal_sharp_wine_runtime.Memory.Rules.{range_ok, u64_max}
use metal_sharp_wine_runtime.Memory.Table.{is_mapped, next_generation}

abbrev pub max_pages : ℕ
max_pages = 1048576

-- The `while` that looks for a free page below the limit. The fuel is a round for each page of
-- the 64-bit space.
unfoldable pub find_free : ℕ → List Page → ℕ → ℕ → ℕ
find_free zero ps limit b = b
find_free (suc fuel) ps limit b = elim (is_mapped ps b && leb b limit) [
  | true ↦ find_free fuel ps limit (b + page_size)
  | false ↦ b
]

abbrev pub search_fuel : ℕ
search_fuel = 2 ^ 52

unfoldable pub choose_base : List Page → ℕ → ℕ → ℕ
choose_base ps a n =
    if a == 0 then find_free search_fuel ps (u64_max - n - page_size) 0x100000000 else a

-- The loop that looks for a page in the way, with the rounds left.
unfoldable pub any_mapped : List Page → ℕ → ℕ → Bool
any_mapped ps zero a = false
any_mapped ps (suc left) a = is_mapped ps a || any_mapped ps left (a + page_size)

-- The new pages in the order in which they end up in the table. After a failed `calloc` the
-- pages made so far are freed, and the generations that they took are gone.
unfoldable pub make_pages : ℕ → ℕ → (ℕ → ℕ → Page) → M (Option (List Page))
unfolding next_generation allocate
make_pages zero a page m = some (some [], m)
make_pages (suc left) a page m = elim (allocate m) [
  | none ↦ none
  | some (false, m') ↦ some (none, m')
  | some (true, m') ↦ elim (next_generation m') [
    | none ↦ none
    | some (g, m'') ↦ elim (make_pages left (a + page_size) page m'') [
      | none ↦ none
      | some (none, r) ↦ some (none, r)
      | some (some ps, r) ↦ some (some (page a g ∷ ps), r)
    ]
  ]
]

-- A page of a reservation, as `calloc` and the stores leave it.
abbrev pub reserved_page : ℕ → ℕ → ℕ → ℕ → Page
reserved_page b n a g = record {
  address = a;
  reservation_base = b;
  reservation_size = n;
  backing = none;
  protection = 0;
  generation = g;
}

unfoldable pub insert_pages : ℕ → Option (List Page) → M (Error × ℕ)
insert_pages b none m = some ((no_memory, b), m)
insert_pages b (some new) m = some ((ok, b), record m { pages = new ++ m.pages })

unfoldable pub reserve_at : ℕ → ℕ → M (Error × ℕ)
unfolding make_pages insert_pages
reserve_at b n m =
    if not (range_ok b n)
    then some ((overflow, b), m)
    else if any_mapped m.pages (n / page_size) b
    then some ((conflict, b), m)
    else (do new ← make_pages (n / page_size) b (reserved_page b n); insert_pages b new) m

unfoldable pub reserve : ℕ → ℕ → M (Error × ℕ)
unfolding reserve_at choose_base
reserve a n m =
    if n == 0 || (ltb max_pages (n / page_size) || n % page_size != 0)
    then some ((invalid_argument, a), m)
    else reserve_at (choose_base m.pages a n) n m
