-- ===== src/Memory/External.antt =====
-- src/gem/memory.c: pages over the caller's storage, `map_identity_locked`,
-- `commit_external_locked` and `bind_kuser_locked`. A host pointer is its address, 0 if null.
use metal_sharp_wine_runtime.Prelude.{
  ℕ, zero, suc, ◌+◌, ◌/◌, ◌%◌, Bool, true, false, ◌&&◌, ◌||◌, not, Option, none, some, List, [],
  ◌∷◌, ◌==◌, ◌!=◌, ltb, if◌then◌else◌,
}
use metal_sharp_wine_runtime.Memory.{
  Error, ok, invalid_argument, no_memory, conflict, owned, external, Backing, Page, M, ◌>>=◌, ◌>>◌,
  pure, allocate, page_size,
}
use metal_sharp_wine_runtime.Memory.Rules.{range_ok, prot_ok}
use metal_sharp_wine_runtime.Memory.Table.{at, has_backing, page_at, update, touch_page, check}
use metal_sharp_wine_runtime.Memory.Backings.{drop, put_backing, new_external}
use metal_sharp_wine_runtime.Memory.Reserve.{reserve}
use metal_sharp_wine_runtime.Memory.Commit.{checked, drop_all, install}
use metal_sharp_wine_runtime.Memory.Release.{release}

-- The loop of `map_identity_locked`; false if an allocation failed.
unfoldable pub identity_pages : ℕ → ℕ → ℕ → ℕ → M Bool
unfolding page_at new_external update touch_page
identity_pages zero a h prot m = some (true, m)
identity_pages (suc left) a h prot m = elim ((do p ← page_at a; new_external h) m) [
  | none ↦ none
  | some (none, m') ↦ some (false, m')
  | some (some id, m') ↦
      elim ((update a (λ p. record p { backing = some id; protection = prot }) >> touch_page a)
        m') [
          | none ↦ none
          | some (_, m'') ↦ identity_pages left (a + page_size) (h + page_size) prot m''
        ]
]

unfoldable pub finish_identity : ℕ → ℕ → Bool → M Error
unfolding release
finish_identity a n true = pure ok
finish_identity a n false = do released ← release a n; pure no_memory

unfoldable pub map_reserved : ℕ → ℕ → ℕ → Error × ℕ → M Error
unfolding identity_pages finish_identity
map_reserved h n prot (ok, a) = do
  done ← identity_pages (n / page_size) a h prot
  finish_identity a n done
map_reserved h n prot (e, a) = pure e

unfoldable pub map_identity : ℕ → ℕ → ℕ → ℕ → M Error
unfolding reserve map_reserved
map_identity a h n prot =
    if h == 0 || (ltb a 0x100000000 || (a != h || (not (range_ok a n) || not (prot_ok prot))))
    then pure invalid_argument
    else (do r ← reserve a n; map_reserved h n prot r)

-- `!p->backing->external || p->backing->data != h`
unfoldable pub stands_on : Backing → ℕ → Bool
stands_on b h = elim (b.storage) [ owned _ ↦ false | external h' ↦ h' == h ]

-- The test of a page that has a backing.
unfoldable pub same_host : Option ℕ → ℕ → M Bool
unfolding stands_on
same_host none h m = none
same_host (some id) h m = elim (m.backings id) [ none ↦ none | some b ↦ some (stands_on b h, m) ]

-- The array `backings` after the first loop of `commit_external_locked`, and its error code.
unfoldable pub make_externals : ℕ → ℕ → ℕ → M (List (Option ℕ) × Error)
unfolding page_at has_backing same_host new_external
make_externals zero a h m = some (([], ok), m)
make_externals (suc left) a h m = elim (page_at a m) [
  | none ↦ none
  | some (p, m') ↦ elim (has_backing p) [
    | true ↦ elim (same_host p.backing h m') [
      | none ↦ none
      | some (false, r) ↦ some (([], conflict), r)
      | some (true, m'') ↦ elim (make_externals left (a + page_size) (h + page_size) m'') [
        | none ↦ none
        | some ((bs, e), r) ↦ some ((none ∷ bs, e), r)
      ]
    ]
    | false ↦ elim (new_external h m') [
      | none ↦ none
      | some (none, r) ↦ some (([], no_memory), r)
      | some (some id, m'') ↦ elim (make_externals left (a + page_size) (h + page_size) m'') [
        | none ↦ none
        | some ((bs, e), r) ↦ some ((some id ∷ bs, e), r)
      ]
    ]
  ]
]

unfoldable pub finish_externals : ℕ → ℕ → List (Option ℕ) × Error → M Error
unfolding drop_all install
finish_externals a prot (bs, ok) = do install bs a prot; pure ok
finish_externals a prot (bs, e) = do drop_all bs; pure e

unfoldable pub commit_external_pages : ℕ → ℕ → ℕ → ℕ → M Error
unfolding make_externals finish_externals allocate
commit_external_pages a h n prot = do
  array_ok ← allocate
  if array_ok
      then (do made ← make_externals (n / page_size) a h; finish_externals a prot made)
      else pure no_memory

unfoldable pub commit_external : ℕ → ℕ → ℕ → ℕ → Bool → M Error
unfolding commit_external_pages
commit_external a h n prot require_identity m =
    if h == 0
      || (h % page_size != 0
          || ((require_identity && (ltb a 0x100000000 || a != h))
              || (not (range_ok a n) || not (prot_ok prot))))
    then some (invalid_argument, m)
    else checked (check m.pages a n false) (commit_external_pages a h n prot) m

abbrev pub kuser_shared_data_address : ℕ
kuser_shared_data_address = 0x7ffe0000

abbrev pub kuser_canonical_address : ℕ
kuser_canonical_address = 0x1007ffe0000

-- The stores of `bind_kuser_locked`: two references to the new backing, and two fewer to the old.
unfoldable pub rebind_kuser : ℕ → Option ℕ → ℕ → M Error
unfolding put_backing update touch_page drop
rebind_kuser h old id m =
    (do
      update kuser_canonical_address (λ p. record p { backing = some id })
      update kuser_shared_data_address (λ p. record p { backing = some id })
      touch_page kuser_canonical_address
      touch_page kuser_shared_data_address
      drop old
      drop old
      pure ok)
      (put_backing id (some (record { storage = external h; refs = 2; generation = none })) m)

-- `!canonical || !alias || !canonical->backing || canonical->backing != alias->backing`
unfoldable pub kuser_backing : Option Page → Option Page → Option ℕ
kuser_backing none alias = none
kuser_backing (some p) none = none
kuser_backing (some p) (some q) = elim (p.backing) [
  | none ↦ none
  | some i ↦ elim (q.backing) [ none ↦ none | some j ↦ if i == j then some i else none ]
]

unfoldable pub bind_shared : ℕ → Option ℕ → M Error
unfolding new_external rebind_kuser
bind_shared h none = pure conflict
bind_shared h (some old) = do
  made ← new_external h
  elim made [ none ↦ pure no_memory | some id ↦ rebind_kuser h (some old) id ]

unfoldable pub bind_kuser : ℕ → M Error
unfolding bind_shared kuser_backing
bind_kuser h m =
    if h == 0 || h % page_size != 0
    then some (invalid_argument, m)
    else bind_shared h
        (kuser_backing (at m.pages kuser_canonical_address) (at m.pages kuser_shared_data_address))
        m
