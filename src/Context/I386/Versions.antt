-- ===== src/Context/I386/Versions.antt =====
-- src/gem/i386_context.c: fresh contexts, and the two versions of the layout.
use metal_sharp_wine_runtime.Prelude.{
  ℕ, zero, suc, ◌≡◌, ◌≢◌, ◌↔◌, refl, true, some, List, [], ◌∷◌, drop, arith,
}
use metal_sharp_wine_runtime.Context.I386.{I386Context, i386_initialize, all_zero, i386_is_valid}

all_zero-drop : (n : ℕ) (xs : List ℕ) → all_zero xs ≡ true → all_zero (drop n xs) ≡ true
unfolding all_zero
all_zero-drop zero xs h = h
all_zero-drop (suc n) [] h = refl
all_zero-drop (suc n) (x ∷ xs) h = all_zero-drop n xs (ground arith)

-- A context that is set up is valid exactly when its thread block is not null, and a context of the
-- first layout that is valid stays valid when it is taken for one of the second.
pub i386_initialize-versions :
    (teb : ℕ) (c : I386Context)
    → ((i386_is_valid (some (i386_initialize teb)) ≡ true) ↔ (teb ≢ 0))
      × (c.layout_version ≡ 1
          → i386_is_valid (some c) ≡ true
          → i386_is_valid (some (record c { layout_version = 2 })) ≡ true)
unfolding i386_is_valid i386_initialize all_zero
i386_initialize-versions teb c = (
  (λ h z. ground arith, λ h. ground arith),
  λ first valid. ground (arith, all_zero-drop 3 c.reserved),
)
