-- ===== src/Memory/Access/Guard.antt =====
-- src/gem/memory.c: an access to a guarded page in `access_memory_locked`.
use mathlib.Core.Option
use metal_sharp_wine_runtime.Prelude.{
  ℕ, zero, suc, ◌+◌, ◌-◌, ◌/◌, ◌%◌, ◌^◌, ◌≤◌, ◌<◌, ◌≡◌, ◌≢◌, refl, ap, sym, ◌∙◌, Bool, true, false,
  not, Option, none, some, List, [], ◌∷◌, ◌==◌, ◌!=◌, ltb, if◌then◌else◌, arith, Bool-cases,
  Option-cases, ==_refl, inl, inr, bit_and, testbit, testbit-bit_and, testbit_ext, bit_test,
  bit_and-lt,
}
use metal_sharp_wine_runtime.Memory.{
  guard_page, not_reserved, not_committed, access_denied, Page, Memory, allocate,
}
use metal_sharp_wine_runtime.Memory.Monad.{after}
use metal_sharp_wine_runtime.Memory.Rules.{u64_max, without_guard, has_guard, allowed, page_guard}
use metal_sharp_wine_runtime.Memory.Table.{at, is_mapped, has_backing, set_page, update, touch_page}
use metal_sharp_wine_runtime.Memory.Table.Laws.{at-set_page}
use metal_sharp_wine_runtime.Memory.Table.Loops.{update_lem, touch_page-Turns, is_mapped-set_page}
use metal_sharp_wine_runtime.Memory.Reserve.Laws.{allocate_lem}
use metal_sharp_wine_runtime.Memory.Access.{
  Lookup, found, refused, find_pages, page_of, piece, with_page, find_guard, hit_guard, clear_guard,
}
use metal_sharp_wine_runtime.Memory.Access.Transfer.{access, past_lookup}

-- A cleared guard stays cleared, and nothing else is cleared with it.
has_guard-without_guard : (p : ℕ) → has_guard (without_guard p) ≡ false
unfolding has_guard without_guard testbit
has_guard-without_guard p =
    bit_test 8 (bit_and p (2 ^ 32 - 1 - page_guard))
    ∙ testbit-bit_and 8 p (2 ^ 32 - 1 - page_guard)
    ∙ ground arith

find_guard_lem :
    (ps : List Page) (qs : List ℕ) (q : ℕ)
    → find_guard ps qs ≡ some q
    → (p : Page) × (at ps q ≡ some p) × (has_guard p.protection ≡ true)
unfolding find_guard
find_guard_lem ps [] q e = absurd (cc e)
find_guard_lem ps (r ∷ qs) q e = elim (Option-cases (at ps r)) [
  | inl gone ↦ find_guard_lem ps qs q (rw (gone, find_guard) at e)
  | inr (p, there) ↦ elim (Bool-cases (has_guard p.protection)) [
    | inr free ↦ find_guard_lem ps qs q (rw (there, free, find_guard) at e)
    | inl guarded ↦
        let here : r ≡ q = cc (rw (there, guarded, find_guard) at e) in
        (p, rw (← here) there, guarded)
  ]
]

without_guard_twice : (p : ℕ) → without_guard (without_guard p) ≡ without_guard p
unfolding without_guard
without_guard_twice p =
    let mask = 2 ^ 32 - 1 - page_guard in
    testbit_ext 32 (bit_and (bit_and p mask) mask) (bit_and p mask)
      (bit_and-lt 32 (bit_and p mask) mask (omega arith)) (bit_and-lt 32 p mask (omega arith))
      (λ i h. simp testbit-bit_and (ground arith))

allowed-without_guard : (p : ℕ) (w x : Bool) → allowed (without_guard p) w x ≡ allowed p w x
unfolding allowed
allowed-without_guard p w x = rw (without_guard_twice p) refl

-- The page that was guarded, as it is left.
abbrev pub struck : ℕ → Page → Page
struck g p = record p { protection = without_guard p.protection; generation = g }

module _ (ps ps' : List Page) (q g : ℕ)
    (view : (r : ℕ)
      → at ps' r ≡ (if r == q then Option.map (struck g) (at ps r) else at ps r)) where
  find_pages-struck :
      (rounds cur left : ℕ) (w x : Bool)
      → find_pages ps' rounds cur left w x ≡ find_pages ps rounds cur left w x
  unfolding find_pages has_backing
  find_pages-struck zero cur left w x = refl
  find_pages-struck (suc rounds) cur left w x =
      let z = piece cur left in
      ap (λ o. judge o (find_pages ps' rounds (cur + z) (left - z) w x)) (view (page_of cur))
      ∙ same (page_of cur == q) (at ps (page_of cur))
          (find_pages ps' rounds (cur + z) (left - z) w x)
      ∙ ap (judge (at ps (page_of cur))) (find_pages-struck rounds (cur + z) (left - z) w x)
    where
      judge : Option Page → Lookup → Lookup
      judge o rest = elim o [
        | none ↦ refused not_reserved
        | some p ↦
            if not (has_backing p)
            then refused not_committed
            else if not (allowed p.protection w x)
            then refused access_denied
            else with_page (page_of cur) rest
      ]

      same :
          (c : Bool) (o : Option Page) (rest : Lookup)
          → judge (if c then Option.map (struck g) o else o) rest ≡ judge o rest
      same false o rest = refl
      same true none rest = refl
      same true (some p) rest = rw (allowed-without_guard p.protection w x) refl

-- What an access to a guarded page leaves: only the guard of the first such page is gone, that page
-- has a new generation, and the same access comes past the lookup again and does not stop at that
-- guard.
pub record Struck (a : ℕ) (b : List ℕ) (n : ℕ) (w x : Bool) (m : Memory) (qs : List ℕ) (q : ℕ)
    : Type 0 where
  pub pages : List Page
  pub runs :
      access a (some b) n w x false true m
      ≡ some (
        (guard_page, some b),
        record m {
          pages = pages;
          next_generation = m.next_generation + 1;
          allocations_left = m.allocations_left - 1;
        },
      )
  pub view :
      (r : ℕ)
      → at pages r ≡ (
          if r == q
          then Option.map (struck (m.next_generation + 1)) (at m.pages r)
          else at m.pages r)
  pub retry : find_pages pages ((n + a % 4096 + 4095) / 4096) a n w x ≡ found qs
  pub cleared : find_guard pages qs ≢ some q

struck_view :
    (q g : ℕ) (ps : List Page) (r : ℕ)
    → at (set_page q (λ p. record p { generation = g }) (set_page q clear_guard ps)) r
      ≡ (if r == q then Option.map (struck g) (at ps r) else at ps r)
struck_view q g ps r =
    at-set_page q (λ p. record p { generation = g }) (set_page q clear_guard ps) r (λ p. refl)
    ∙ ap (λ o. if r == q then Option.map (λ (p : Page). record p { generation = g }) o else o)
        (at-set_page q clear_guard ps r (λ p. refl))
    ∙ both (r == q) (at ps r)
  where
    both :
        (c : Bool) (o : Option Page)
        → (if c
            then Option.map
                (λ (p : Page). record p { generation = g })
                (if c then Option.map clear_guard o else o)
            else (if c then Option.map clear_guard o else o))
          ≡ (if c then Option.map (struck g) o else o)
    both true none = refl
    both true (some p) = refl
    both false o = refl

hit_guard_lem :
    (q : ℕ) (m : Memory)
    → is_mapped m.pages q ≡ true
    → m.next_generation + 1 < 2 ^ 64
    → hit_guard q true m
      ≡ some (
        guard_page,
        record m {
          pages =
              set_page q
                (λ p. record p { generation = m.next_generation + 1 })
                (set_page q clear_guard m.pages);
          next_generation = m.next_generation + 1;
        },
      )
unfolding hit_guard
hit_guard_lem q m mapped room = after (update q clear_guard) _ (update_lem q clear_guard m mapped) (
    after (touch_page q) _
      (touch_page-Turns q (record m { pages = set_page q clear_guard m.pages })
        (is_mapped-set_page q clear_guard m.pages q (λ p. refl) ∙ mapped) room)
      refl)

struck-free :
    (g : ℕ) (c : Bool) (o : Option Page) (p : Page)
    → c ≡ true
    → (if c then Option.map (struck g) o else o) ≡ some p
    → has_guard p.protection ≡ false
struck-free g true none p h e = absurd (cc e)
struck-free g true (some p') p h e =
    let same : struck g p' ≡ p = cc e in
    ap (λ (p : Page). has_guard p.protection) (sym same) ∙ has_guard-without_guard p'.protection
struck-free g false o p h e = absurd (cc h)

-- An access with a buffer that comes past the lookup and meets a guarded page moves no byte and
-- reports the guard; the first guarded page loses its guard and has a new generation, no other page
-- changes, and the same access passes the lookup again and is not stopped by that guard.
pub access-Struck :
    (a : ℕ) (b : List ℕ) (n : ℕ) (w x : Bool) (m : Memory) (qs : List ℕ) (q : ℕ)
    → 0 < n
    → a + n ≤ u64_max
    → n + a % 4096 + 4095 ≤ u64_max
    → 0 < m.allocations_left
    → m.next_generation + 1 < 2 ^ 64
    → find_pages m.pages ((n + a % 4096 + 4095) / 4096) a n w x ≡ found qs
    → find_guard m.pages qs ≡ some q
    → Struck a b n w x m qs q
unfolding access past_lookup is_mapped
access-Struck a b n w x m qs q some_bytes fits no_overflow given room looked guarded =
    let m0 : Memory = record m { allocations_left = m.allocations_left - 1 } in
    let (p, there, has) = find_guard_lem m.pages qs q guarded in
    let mapped : is_mapped m.pages q ≡ true = rw (there, is_mapped) refl in
    let in_space : ltb (u64_max - n) a ≡ false = ground arith in
    let not_empty : (n == 0) ≡ false = ground arith in
    let not_empty' : (n != 0) ≡ true = ground arith in
    let short : ltb (u64_max - a % 4096 - 4095) n ≡ false = ground arith in
    let g = m.next_generation + 1 in
    record {
      pages = set_page q (λ p. record p { generation = g }) (set_page q clear_guard m.pages);
      runs =
          rw (in_space, not_empty, not_empty', short)
            (after allocate _ (allocate_lem m given) (
              rw (looked, guarded, past_lookup)
                (after (hit_guard q true) _ (hit_guard_lem q m0 mapped room) refl)));
      view = struck_view q g m.pages;
      retry =
          find_pages-struck m.pages _ q g (struck_view q g m.pages) ((n + a % 4096 + 4095) / 4096) a
            n w x
          ∙ looked;
      cleared = λ again.
          let (p', there', has') = find_guard_lem _ qs q again in
          absurd (
            cc (
              struck-free g (q == q) (at m.pages q) p' (==_refl q)
                  (sym (struck_view q g m.pages q) ∙ there'),
              has',
            ));
    }
