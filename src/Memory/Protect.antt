-- ===== src/Memory/Protect.antt =====
-- src/gem/memory.c: `protect_locked`. A call returns its error code and the value stored
-- through `old`.
pub mod Laws
use metal_sharp_wine_runtime.Prelude.{
  ℕ, ◌/◌, Bool, true, not, Option, none, some, ◌==◌, if◌then◌else◌,
}
use metal_sharp_wine_runtime.Memory.{
  Error, ok, invalid_argument, Page, Memory, M, ◌>>=◌, ◌>>◌, pure, for_pages, page_size,
}
use metal_sharp_wine_runtime.Memory.Rules.{prot_ok}
use metal_sharp_wine_runtime.Memory.Table.{update, touch_page, page_at, check}

unfoldable pub protect_pages : ℕ → ℕ → ℕ → M (Error × Option ℕ)
unfolding page_at for_pages update touch_page
protect_pages a n prot = do
  first ← page_at a
  for_pages (n / page_size) a (λ q. update q (λ p. record p { protection = prot }))
  for_pages (n / page_size) a touch_page
  pure (ok, some first.protection)

-- Runs the rest of an operation if the check before it found nothing.
abbrev pub checked : {A : Type 0} → Error → M (Error × Option A) → M (Error × Option A)
checked ok rest m = rest m
checked e rest m = some ((e, none), m)

unfoldable pub protect : ℕ → ℕ → ℕ → M (Error × Option ℕ)
unfolding protect_pages
protect a n prot m =
    checked (check m.pages a n true)
      (λ m.
        if not (prot_ok prot) then some ((invalid_argument, none), m) else protect_pages a n prot m)
      m
