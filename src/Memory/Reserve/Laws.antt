-- ===== src/Memory/Reserve/Laws.antt =====
-- src/gem/memory.c: what `reserve_locked` adds to the table, and what it returns.
use metal_sharp_wine_runtime.Prelude.{
  ℕ, zero, suc, ◌+◌, ◌-◌, ◌/◌, ◌%◌, ◌^◌, ◌≤◌, ◌<◌, ◌≡◌, ◌≢◌, refl, ap, sym, ◌∙◌, Bool, true, false,
  ◌||◌, Option, none, some, List, [], ◌∷◌, ◌++◌, ◌==◌, ◌!=◌, ltb, if◌then◌else◌, arith, Bool-cases,
  ==-eq, inl, inr,
}
use metal_sharp_wine_runtime.Memory.{
  Error, ok, no_memory, Page, Memory, allocate, allocate_from, page_size,
}
use metal_sharp_wine_runtime.Memory.Monad.{after}
use metal_sharp_wine_runtime.Memory.Rules.{range_ok}
use metal_sharp_wine_runtime.Memory.Table.{at}
use metal_sharp_wine_runtime.Memory.Table.Laws.{at-append}
use metal_sharp_wine_runtime.Memory.Table.Loops.{covers, next_generation_lem}
use metal_sharp_wine_runtime.Memory.Reserve.Search.{any_mapped-eq_false}
use metal_sharp_wine_runtime.Memory.Reserve.{
  choose_base, any_mapped, make_pages, reserved_page, insert_pages, reserve_at, reserve, max_pages,
}

-- New pages for `k` addresses from `a` on, a generation each.
pub record Made (k a : ℕ) (page : ℕ → ℕ → Page) (m : Memory)
    (r : Option (Option (List Page) × Memory)) : Type 0 where
  pub new : List Page
  pub runs :
      r
      ≡ some (
        some new,
        record m {
          next_generation = m.next_generation + k;
          allocations_left = m.allocations_left - k;
        },
      )
  pub view :
      (q : ℕ)
      → at new q ≡ (
          if covers k a q
          then some (page q (m.next_generation + ((q - a) / page_size + 1)))
          else none)

pub allocate_lem :
    (m : Memory)
    → 0 < m.allocations_left
    → allocate m ≡ some (true, record m { allocations_left = m.allocations_left - 1 })
unfolding allocate
allocate_lem m h =
    let one_more : m.allocations_left ≡ suc (m.allocations_left - 1) = omega arith in
    ap (λ l. allocate_from l m) one_more

same_counts :
    {A : Type 0} {a : A} {g l : ℕ} (m : Memory)
    → m.next_generation ≡ g
    → m.allocations_left ≡ l
    → ◌≡◌ {A = Option (A × Memory)}
        (some (a, m))
        (some (a, record m { next_generation = g; allocations_left = l }))
same_counts {a} m e e' = λ i. some (a, record m { next_generation = e i; allocations_left = e' i })

make_pages-Made :
    (k a : ℕ) (page : ℕ → ℕ → Page) (m : Memory)
    → ((q g : ℕ) → (page q g).address ≡ q)
    → k ≤ m.allocations_left
    → m.next_generation + k < 2 ^ 64
    → Made k a page m (make_pages k a page m)
unfolding make_pages at
make_pages-Made zero a page m placed given room = record {
  new = [];
  runs = same_counts m (omega arith) (omega arith);
  view = λ q. ground arith;
}
make_pages-Made (suc k) a page m placed given room =
    let g = m.next_generation in
    let m0 : Memory = record m { allocations_left = m.allocations_left - 1 } in
    let m1 : Memory = record m {
      allocations_left = m.allocations_left - 1;
      next_generation = g + 1;
    } in
    let rest = make_pages-Made k (a + page_size) page m1 placed (omega arith) (omega arith) in
    let taken : g + 1 + k ≡ g + suc k = omega arith in
    let left : m.allocations_left - 1 - k ≡ m.allocations_left - suc k = omega arith in
    record {
      new = page a (g + 1) ∷ rest.new;
      runs =
          rw (allocate_lem m (omega arith), make_pages)
            (rw (next_generation_lem m0 (omega arith), make_pages)
              (rw (rest.runs, make_pages)
                λ i. some (
                  some (page a (g + 1) ∷ rest.new),
                  record m { next_generation = taken i; allocations_left = left i },
                )));
      view = λ q. elim (Bool-cases (q == a)) [
        | inl here ↦
            let e : q ≡ a = ==-eq q a here in
            let first : g + 1 ≡ g + ((q - a) / page_size + 1) = omega arith in
            let inside : covers (suc k) a q ≡ true = ground arith in
            let found : at (page a (g + 1) ∷ rest.new) q ≡ some (page a (g + 1)) =
              ground (arith, placed a (g + 1)) in
            found ∙ rw inside (λ i. some (page (sym e i) (first i)))
        | inr there ↦
            let skipped : at (page a (g + 1) ∷ rest.new) q ≡ at rest.new q =
              ground (arith, placed a (g + 1)) in
            let same : covers (suc k) a q ≡ covers k (a + page_size) q = ground arith in
            skipped ∙ rest.view q ∙ rw same (later q there)
      ];
    }
  where
    later :
        (q : ℕ)
        → (q == a) ≡ false
        → (if covers k (a + page_size) q
            then some (page q (m.next_generation + 1 + ((q - (a + page_size)) / page_size + 1)))
            else none)
          ≡ (if covers k (a + page_size) q
              then some (page q (m.next_generation + ((q - a) / page_size + 1)))
              else none)
    later q there = elim (Bool-cases (covers k (a + page_size) q)) [
      | inr out ↦ rw out refl
      | inl within ↦
          let next : m.next_generation + 1 + ((q - (a + page_size)) / page_size + 1)
              ≡ m.next_generation + ((q - a) / page_size + 1) =
            ground arith in
          rw within (ap (λ n. some (page q n)) next)
    ]

-- The arguments that `reserve_locked` lets through.
pub record IsReservable (a n : ℕ) (m : Memory) : Type 0 where
  pub not_empty : n ≢ 0
  pub few_pages : n / page_size ≤ max_pages
  pub whole_pages : n % page_size ≡ 0
  pub in_space : range_ok (choose_base m.pages a n) n ≡ true
  pub free : any_mapped m.pages (n / page_size) (choose_base m.pages a n) ≡ false

-- The table with the pages of a new reservation at `b`, not committed, and the others as before.
pub record Reserved (b n : ℕ) (m : Memory) (r : Option ((Error × ℕ) × Memory)) : Type 0 where
  pub pages : List Page
  pub runs :
      r
      ≡ some (
        (ok, b),
        record m {
          pages = pages;
          next_generation = m.next_generation + n / page_size;
          allocations_left = m.allocations_left - n / page_size;
        },
      )
  pub view :
      (q : ℕ)
      → at pages q ≡ (
          if covers (n / page_size) b q
          then some (record {
            address = q;
            reservation_base = b;
            reservation_size = n;
            backing = none;
            protection = 0;
            generation = m.next_generation + ((q - b) / page_size + 1);
          })
          else at m.pages q)

over :
    {A : Type 0} (c : Bool) (o : Option A) (a : A) (old : Option A)
    → o ≡ (if c then some a else none)
    → elim o [ none ↦ old | some p ↦ some p ] ≡ (if c then some a else old)
over true none a old e = cc
over true (some p) a old e = e
over false none a old e = refl
over false (some p) a old e = cc

reserve_at-Reserved :
    (b n : ℕ) (m : Memory)
    → range_ok b n ≡ true
    → any_mapped m.pages (n / page_size) b ≡ false
    → n / page_size ≤ m.allocations_left
    → m.next_generation + n / page_size < 2 ^ 64
    → Reserved b n m (reserve_at b n m)
unfolding reserve_at insert_pages
reserve_at-Reserved b n m in_space free given room =
    let k = n / page_size in
    let made = make_pages-Made k b (reserved_page b n) m (λ q g. refl) given room in
    record {
      pages = made.new ++ m.pages;
      runs =
          rw (in_space, free, reserve_at)
            (after (make_pages k b (reserved_page b n)) _ made.runs refl);
      view =
          λ q. at-append made.new m.pages q ∙ over (covers k b q) (at made.new q) _ _ (made.view q);
    }

-- `reserve_locked` on arguments that it lets through, with memory for the new pages, adds exactly
-- the pages of the range at the chosen base: uncommitted, of one reservation, a generation each.
pub reserve-Reserved :
    (a n : ℕ) (m : Memory)
    → IsReservable a n m
    → n / page_size ≤ m.allocations_left
    → m.next_generation + n / page_size < 2 ^ 64
    → Reserved (choose_base m.pages a n) n m (reserve a n m)
unfolding reserve
reserve-Reserved a n m v given room =
    let admitted : (n == 0 || (ltb max_pages (n / page_size) || n % page_size != 0)) ≡ false =
      ground (arith, v.not_empty, v.few_pages, v.whole_pages) in
    rw (admitted, reserve)
      (reserve_at-Reserved (choose_base m.pages a n) n m v.in_space v.free given room)

-- No page of the table is in the way of such a reservation.
pub IsReservable-free :
    (a n : ℕ) (m : Memory) (q : ℕ)
    → IsReservable a n m
    → covers (n / page_size) (choose_base m.pages a n) q ≡ true
    → at m.pages q ≡ none
IsReservable-free a n m q v within =
    any_mapped-eq_false m.pages (n / page_size) (choose_base m.pages a n) q v.free within

allocate_fails : (m : Memory) → m.allocations_left ≡ 0 → allocate m ≡ some (false, m)
unfolding allocate
allocate_fails m e = ap (λ l. allocate_from l m) e

make_pages_short :
    (k a : ℕ) (page : ℕ → ℕ → Page) (m : Memory)
    → m.allocations_left < k
    → m.next_generation + m.allocations_left < 2 ^ 64
    → make_pages k a page m
      ≡ some (
        none,
        record m { next_generation = m.next_generation + m.allocations_left; allocations_left = 0 },
      )
unfolding make_pages
make_pages_short zero a page m short room = absurd (omega arith)
make_pages_short (suc k) a page m short room = elim (Bool-cases (m.allocations_left == 0)) [
  | inl used_up ↦
      rw (allocate_fails m (==-eq m.allocations_left 0 used_up), make_pages)
        (same_counts m (ground arith) (ground arith))
  | inr some_left ↦
      let m0 : Memory = record m { allocations_left = m.allocations_left - 1 } in
      let m1 : Memory = record m0 { next_generation = m.next_generation + 1 } in
      let rest = make_pages_short k (a + page_size) page m1 (ground arith) (ground arith) in
      let taken : m.next_generation + 1 + (m.allocations_left - 1)
          ≡ m.next_generation + m.allocations_left =
        ground arith in
      rw (allocate_lem m (ground arith), make_pages)
        (rw (next_generation_lem m0 (ground arith), make_pages)
          (rw (rest, make_pages)
            (ap (λ g. some (none, record m { next_generation = g; allocations_left = 0 })) taken)))
]

-- When fewer allocations succeed than the reservation has pages, `reserve_locked` reports it and the
-- table is as before; only generations and allocations are used up.
pub reserve_short :
    (a n : ℕ) (m : Memory)
    → IsReservable a n m
    → m.allocations_left < n / page_size
    → m.next_generation + m.allocations_left < 2 ^ 64
    → reserve a n m
      ≡ some (
        (no_memory, choose_base m.pages a n),
        record m { next_generation = m.next_generation + m.allocations_left; allocations_left = 0 },
      )
unfolding reserve reserve_at insert_pages
reserve_short a n m v short room =
    let b = choose_base m.pages a n in
    let admitted : (n == 0 || (ltb max_pages (n / page_size) || n % page_size != 0)) ≡ false =
      ground (arith, v.not_empty, v.few_pages, v.whole_pages) in
    rw (admitted, reserve)
      (rw (v.in_space, v.free, reserve_at)
        (after (make_pages (n / page_size) b (reserved_page b n)) _
          (make_pages_short (n / page_size) b (reserved_page b n) m short room) refl))
