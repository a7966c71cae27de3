-- ===== src/Memory/Table/Loops.antt =====
-- src/gem/memory.c: the loops over the pages of a range, seen through `at`.
use mathlib.Core.Option
use metal_sharp_wine_runtime.Prelude.{
  ℕ, zero, suc, ◌+◌, ◌-◌, ◌*◌, ◌/◌, ◌%◌, ◌^◌, ◌<◌, ◌≡◌, refl, ap, ◌∙◌, Bool, true, false, ◌&&◌,
  Option, some, List, ◌==◌, leb, ltb, if◌then◌else◌, arith, Bool-cases, inl, inr,
}
use metal_sharp_wine_runtime.Memory.{Page, Memory, M, for_pages, page_size}
use metal_sharp_wine_runtime.Memory.Monad.{after}
use metal_sharp_wine_runtime.Memory.Counts.{count, KeepsBacking, count-set_page}
use metal_sharp_wine_runtime.Memory.Table.{
  at, is_mapped, set_page, update, touch_page, next_generation,
}
use metal_sharp_wine_runtime.Memory.Table.Laws.{KeepsAddress, at-set_page}

-- Every page of `k` pages from `a` on is in the table.
abbrev pub Mapped : List Page → ℕ → ℕ → Type 0
Mapped ps zero a = Unit
Mapped ps (suc k) a = (is_mapped ps a ≡ true) × Mapped ps k (a + page_size)

-- Whether `q` is the address of one of `k` pages from `a` on.
abbrev pub covers : ℕ → ℕ → ℕ → Bool
covers k a q = leb a q && (ltb q (a + k * page_size) && (q - a) % page_size == 0)

pub covers-suc :
    (k a q : ℕ) → covers (suc k) a q ≡ (if q == a then true else covers k (a + page_size) q)
covers-suc k a q = ground arith

pub is_mapped-set_page :
    (a : ℕ) (f : Page → Page) (ps : List Page) (q : ℕ)
    → KeepsAddress f
    → is_mapped (set_page a f ps) q ≡ is_mapped ps q
unfolding is_mapped
is_mapped-set_page a f ps q keeps = ground (arith, at-set_page a f ps q keeps)

Mapped-set_page :
    (a : ℕ) (f : Page → Page) (ps : List Page) (k b : ℕ)
    → KeepsAddress f
    → Mapped ps k b
    → Mapped (set_page a f ps) k b
Mapped-set_page a f ps zero b keeps h = tt
Mapped-set_page a f ps (suc k) b keeps h =
    (is_mapped-set_page a f ps b keeps ∙ h.0, Mapped-set_page a f ps k (b + page_size) keeps h.1)

-- What a loop makes of the page at `q`, if its body turns the page at hand by `f` at the
-- generation that it took: `d` is 1 for a body that takes one, else 0.
abbrev walk : ℕ → ℕ → ℕ → ℕ → (ℕ → Page → Page) → ℕ → Option Page → Option Page
walk d zero a g f q o = o
walk d (suc k) a g f q o =
    walk d k (a + page_size) (g + d) f q (if q == a then Option.map (f (g + d)) o else o)

walk_lem :
    (d k a g : ℕ) (f : ℕ → Page → Page) (q : ℕ) (o : Option Page)
    → walk d k a g f q o
      ≡ (if covers k a q then Option.map (f (g + d * ((q - a) / page_size + 1))) o else o)
walk_lem d zero a g f q o = ground arith
walk_lem d (suc k) a g f q o = elim (Bool-cases (q == a)) [
  | inl here ↦
      let beyond : covers k (a + page_size) q ≡ false = ground arith in
      let inside : covers (suc k) a q ≡ true = ground arith in
      let first : (q - a) / page_size + 1 ≡ 1 = ground arith in
      let taken : g + d * ((q - a) / page_size + 1) ≡ g + d =
        omega (arith, ap (λ (t : ℕ). d * t) first) in
      rw
        (
          here,
          inside,
          taken,
          walk_lem d k (a + page_size) (g + d) f q (Option.map (f (g + d)) o),
          beyond,
        )
        refl
  | inr there ↦
      let same : covers (suc k) a q ≡ covers k (a + page_size) q = ground arith in
      rw (there, same, walk_lem d k (a + page_size) (g + d) f q o) (later there)
]
  where
    later :
        (q == a) ≡ false
        → (if covers k (a + page_size) q
            then Option.map (f (g + d + d * ((q - (a + page_size)) / page_size + 1))) o
            else o)
          ≡ (if covers k (a + page_size) q
              then Option.map (f (g + d * ((q - a) / page_size + 1))) o
              else o)
    later there = elim (Bool-cases (covers k (a + page_size) q)) [
      | inr out ↦ rw out refl
      | inl within ↦
          let next : (q - a) / page_size ≡ (q - (a + page_size)) / page_size + 1 = ground arith in
          rw within (ap (λ n. Option.map (f n) o) (omega (arith, ap (λ (t : ℕ). d * (t + 1)) next)))
    ]

-- A body that turns the page at hand by `f`, and takes `d` generations to do so.
abbrev pub Turns : ℕ → (ℕ → Page → Page) → (ℕ → M (Unit {0})) → Type 0
Turns d f body =
    (a : ℕ) (m : Memory)
    → is_mapped m.pages a ≡ true
    → m.next_generation + d < 2 ^ 64
    → body a m
      ≡ some (
        tt,
        record m {
          pages = set_page a (f (m.next_generation + d)) m.pages;
          next_generation = m.next_generation + d;
        },
      )

-- A loop over mapped pages runs to its end, turns each page of the range, takes `d` generations
-- for each and leaves all else alone.
pub record Turned (d k a : ℕ) (f : ℕ → Page → Page) (m : Memory) (r : Option (Unit {0} × Memory))
    : Type 0 where
  pub pages : List Page
  pub runs : r ≡ some (tt, record m { pages = pages; next_generation = m.next_generation + d * k })
  pub view :
      (q : ℕ)
      → at pages q ≡ (
          if covers k a q
          then Option.map (f (m.next_generation + d * ((q - a) / page_size + 1))) (at m.pages q)
          else at m.pages q)
  pub counts : ((g : ℕ) → KeepsBacking (f g)) → (id : ℕ) → count id pages ≡ count id m.pages

module _ (d : ℕ) (f : ℕ → Page → Page) (body : ℕ → M (Unit {0}))
    (keeps : (g : ℕ) → KeepsAddress (f g)) (turns : Turns d f body) where
  walks :
      (k a : ℕ) (m : Memory)
      → Mapped m.pages k a
      → m.next_generation + d * k < 2 ^ 64
      → (ps : List Page) × (for_pages k a body m
          ≡ some (tt, record m { pages = ps; next_generation = m.next_generation + d * k }))
        × ((q : ℕ) → at ps q ≡ walk d k a m.next_generation f q (at m.pages q))
        × (((g : ℕ) → KeepsBacking (f g)) → (id : ℕ) → count id ps ≡ count id m.pages)
  unfolding for_pages
  walks zero a m mapped room = (
    m.pages,
    ap (λ n. some (tt, record m { next_generation = n })) (omega arith),
    λ q. refl,
    λ _ id. refl,
  )
  walks (suc k) a m mapped room =
      let g = m.next_generation in
      let grown : d * suc k ≡ d + d * k = omega arith in
      let m1 : Memory = record m {
        pages = set_page a (f (g + d)) m.pages;
        next_generation = g + d;
      } in
      let rest =
        walks k (a + page_size) m1
          (Mapped-set_page a (f (g + d)) m.pages k (a + page_size) (keeps (g + d)) mapped.1)
          (omega arith) in
      let total : g + d + d * k ≡ g + d * suc k = omega arith in
      (
        rest.0,
        rw (turns a m mapped.0 (omega arith), for_pages)
            (rest.1 ∙ ap (λ n. some (tt, record m { pages = rest.0; next_generation = n })) total),
        λ q.
            rest.2 q
            ∙ ap (walk d k (a + page_size) (g + d) f q)
                (at-set_page a (f (g + d)) m.pages q (keeps (g + d))),
        λ same id. rest.3 same id ∙ count-set_page id a (f (g + d)) m.pages (same (g + d)),
      )

  pub loop-Turned :
      (k a : ℕ) (m : Memory)
      → Mapped m.pages k a
      → m.next_generation + d * k < 2 ^ 64
      → Turned d k a f m (for_pages k a body m)
  loop-Turned k a m mapped room =
      let (ps, runs, view, counts) = walks k a m mapped room in
      record {
        pages = ps;
        runs = runs;
        view = λ q. view q ∙ walk_lem d k a m.next_generation f q (at m.pages q);
        counts = counts;
      }

pub is_mapped-eq_some :
    (ps : List Page) (a : ℕ) → is_mapped ps a ≡ true → (p : Page) × (at ps a ≡ some p)
unfolding is_mapped
is_mapped-eq_some ps a h = ground arith

pub update_lem :
    (a : ℕ) (f : Page → Page) (m : Memory)
    → is_mapped m.pages a ≡ true
    → update a f m ≡ some (tt, record m { pages = set_page a f m.pages })
unfolding update
update_lem a f m mapped = rw ((is_mapped-eq_some m.pages a mapped).1, update) refl

pub next_generation_lem :
    (m : Memory)
    → m.next_generation + 1 < 2 ^ 64
    → next_generation m
      ≡ some (m.next_generation + 1, record m { next_generation = m.next_generation + 1 })
unfolding next_generation
next_generation_lem m room =
    let same : (m.next_generation + 1) % 2 ^ 64 ≡ m.next_generation + 1 = omega arith in
    let not_zero : (m.next_generation + 1 == 0) ≡ false = ground arith in rw (same, not_zero) refl

pub touch_page-Turns : Turns 1 (λ g p. record p { generation = g }) touch_page
unfolding touch_page
touch_page-Turns a m mapped room =
    let g = m.next_generation + 1 in
    after next_generation _ (next_generation_lem m room)
      (update_lem a (λ p. record p { generation = g }) (record m { next_generation = g }) mapped)

-- A page assignment alone takes no generation.
pub update-Turns : (f : Page → Page) → Turns 0 (λ _. f) (λ q. update q f)
update-Turns f a m mapped room =
    update_lem a f m mapped
    ∙ ap (λ n. some (tt, record m { pages = set_page a f m.pages; next_generation = n }))
        (omega arith)

pub is_mapped_of_at :
    (ps ps' : List Page) (f : Page → Page) (c : Bool) (q : ℕ)
    → at ps' q ≡ (if c then Option.map f (at ps q) else at ps q)
    → is_mapped ps' q ≡ is_mapped ps q
unfolding is_mapped
is_mapped_of_at ps ps' f c q e = ground arith

pub Mapped-transfer :
    (ps ps' : List Page) (k a : ℕ)
    → ((q : ℕ) → is_mapped ps' q ≡ is_mapped ps q)
    → Mapped ps k a
    → Mapped ps' k a
Mapped-transfer ps ps' zero a same h = tt
Mapped-transfer ps ps' (suc k) a same h =
    (same a ∙ h.0, Mapped-transfer ps ps' k (a + page_size) same h.1)

-- The pages stay mapped through such a loop.
pub Turned-Mapped :
    {d k a : ℕ} {f : ℕ → Page → Page} {m : Memory} {r : Option (Unit {0} × Memory)} (j b : ℕ)
    → (t : Turned d k a f m r) → Mapped m.pages j b
    → Mapped t.pages j b
Turned-Mapped {d} {k} {a} {f} {m} j b t = Mapped-transfer m.pages t.pages j b λ q.
    is_mapped_of_at m.pages t.pages (f (m.next_generation + d * ((q - a) / page_size + 1)))
      (covers k a q) q (t.view q)

pub Mapped-first : (ps : List Page) (k a : ℕ) → 0 < k → Mapped ps k a → is_mapped ps a ≡ true
Mapped-first ps zero a h mapped = absurd (omega arith)
Mapped-first ps (suc k) a h mapped = mapped.0
