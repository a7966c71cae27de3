-- ===== src/Tests/PeekTests.antt =====
-- src/gem/memory.c: a peek, and the memory that `gem_memory_create` makes.
use metal_sharp_wine_runtime.Prelude.{◌≡◌, refl, Bool, true, false, Option, none, some, [], ◌∷◌}
use metal_sharp_wine_runtime.Memory.{Memory, ok, allocate, allocate_from}
use metal_sharp_wine_runtime.Memory.Rules.{
  range_ok, prot_ok, without_guard, has_guard, is_base_protection,
}
use metal_sharp_wine_runtime.Memory.Table.{
  at, is_mapped, has_backing, page_at, update, set_page, next_generation, touch_page, check,
  check_pages,
}
use metal_sharp_wine_runtime.Memory.Backings.{put_backing, fresh_backing, new_owned, retain}
use metal_sharp_wine_runtime.Memory.Reserve.{
  reserve, reserve_at, choose_base, any_mapped, make_pages, insert_pages,
}
use metal_sharp_wine_runtime.Memory.Commit.{
  commit, commit_pages, commit_backings, make_backings, install, install_page,
}
use metal_sharp_wine_runtime.Memory.Alias.{
  alias, alias_pages, make_aliases, alias_one, share, finish_alias, link_head,
}
use metal_sharp_wine_runtime.Memory.Access.{backing_of, load}
use metal_sharp_wine_runtime.Memory.Access.Transfer.{read_page}
use metal_sharp_wine_runtime.Memory.Access.Peek.{
  Peeked, peek, peek_found, peek_check, peek_backing, peek_bytes, peek-Peeked,
}
use metal_sharp_wine_runtime.Memory.Create.{create, map_kuser}
use metal_sharp_wine_runtime.Tests.MemoryTests.{empty, two}

peeked :
    peek (λ b o z. true) 0x10010 (some (9 ∷ 9 ∷ 9 ∷ [])) 2 two
    ≡ some ((ok, some (0 ∷ 0 ∷ 9 ∷ [])), two)
unfolding peek peek_check peek_backing peek_found peek_bytes read_page page_at backing_of load at
peeked = refl

peek-Peeked_example : Peeked (some (9 ∷ 9 ∷ 9 ∷ [])) two ok (some (0 ∷ 0 ∷ 9 ∷ [])) two
peek-Peeked_example =
    peek-Peeked (λ b o z. true) 0x10010 (some (9 ∷ 9 ∷ 9 ∷ [])) 2 two ok (some (0 ∷ 0 ∷ 9 ∷ [])) two
      peeked

abbrev answer_of : Option (Bool × Memory) → Bool
answer_of none = false
answer_of (some (b, m)) = b

created : answer_of (create true empty) ≡ true
unfolding create map_kuser reserve reserve_at choose_base any_mapped make_pages insert_pages
    allocate allocate_from next_generation range_ok is_mapped at commit commit_pages commit_backings
    make_backings install install_page check check_pages has_backing prot_ok without_guard has_guard
    is_base_protection page_at new_owned fresh_backing put_backing update set_page touch_page alias
    alias_pages make_aliases alias_one share retain finish_alias link_head
created = refl
