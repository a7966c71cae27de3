-- ===== src/Memory/Reserve/Outcome.antt =====
-- src/gem/memory.c: when `reserve_locked` succeeds, and what it leaves otherwise.
use metal_sharp_wine_runtime.Prelude.{
  ℕ, zero, suc, ◌+◌, ◌/◌, ◌%◌, ◌^◌, ◌≤◌, ◌<◌, ◌≡◌, ◌≢◌, ◌↔◌, ◌⊎◌, inl, inr, refl, sym, ◌∙◌, true,
  false, ◌||◌, none, some, List, ◌==◌, ◌!=◌, leb, ltb, arith, Bool-cases,
}
use metal_sharp_wine_runtime.Memory.{
  Error, ok, invalid_argument, overflow, no_memory, conflict, Page, Memory, page_size,
}
use metal_sharp_wine_runtime.Memory.Rules.{range_ok, u64_max}
use metal_sharp_wine_runtime.Memory.Table.{at, is_mapped}
use metal_sharp_wine_runtime.Memory.Table.Loops.{covers}
use metal_sharp_wine_runtime.Memory.Table.Check.{range_ok_lem}
use metal_sharp_wine_runtime.Memory.Reserve.{
  choose_base, any_mapped, reserve, reserve_at, max_pages,
}
use metal_sharp_wine_runtime.Memory.Reserve.Laws.{
  IsReservable, IsReservable-free, reserve-Reserved, reserve_short,
}

-- The arguments that `reserve_locked` does not refuse.
pub reserve_cases :
    (a n : ℕ) (m : Memory)
    → IsReservable a n m ⊎ ((e : Error) × (b : ℕ) × (e ≢ ok) × (reserve a n m ≡ some ((e, b), m)))
unfolding reserve reserve_at
reserve_cases a n m =
    let b = choose_base m.pages a n in
    elim (Bool-cases (n == 0 || (ltb max_pages (n / page_size) || n % page_size != 0))) [
      | inl bad ↦ inr (invalid_argument, a, (λ e. absurd (cc e)), rw bad refl)
      | inr good ↦ elim (Bool-cases (range_ok b n)) [
        | inr bad ↦ inr (overflow, b, (λ e. absurd (cc e)), rw (good, bad) refl)
        | inl space ↦ elim (Bool-cases (any_mapped m.pages (n / page_size) b)) [
          | inl bad ↦ inr (conflict, b, (λ e. absurd (cc e)), rw (good, space, bad) refl)
          | inr free ↦ inl (record {
            not_empty = ground arith;
            few_pages = ground arith;
            whole_pages = ground arith;
            in_space = space;
            free = free;
          })
        ]
      ]
    ]

-- There is room for a reservation at the base that is chosen: it is of whole pages, not too many of
-- them, in the address space, with no page of the table in it, and as many pages can be allocated.
pub record HasRoom (a n : ℕ) (m : Memory) : Type 0 where
  pub not_empty : n ≢ 0
  pub few_pages : n / page_size ≤ max_pages
  pub whole_pages : n % page_size ≡ 0
  pub aligned : choose_base m.pages a n % page_size ≡ 0
  pub in_space : choose_base m.pages a n + n ≤ u64_max
  pub free :
      (q : ℕ) → covers (n / page_size) (choose_base m.pages a n) q ≡ true → at m.pages q ≡ none
  pub allocatable : n / page_size ≤ m.allocations_left

any_mapped_free :
    (ps : List Page) (k a : ℕ)
    → ((q : ℕ) → covers k a q ≡ true → at ps q ≡ none)
    → any_mapped ps k a ≡ false
unfolding any_mapped is_mapped
any_mapped_free ps zero a free = refl
any_mapped_free ps (suc k) a free =
    let rest = any_mapped_free ps k (a + page_size) (λ q inside. free q (ground arith)) in
    let first : is_mapped ps a ≡ false = rw (free a (ground arith), is_mapped) refl in
    rw (first, rest, any_mapped) refl

HasRoom-IsReservable : (a n : ℕ) (m : Memory) → n ≤ u64_max → HasRoom a n m → IsReservable a n m
unfolding range_ok
HasRoom-IsReservable a n m fits h = record {
  not_empty = h.not_empty;
  few_pages = h.few_pages;
  whole_pages = h.whole_pages;
  in_space = ground (arith, h);
  free = any_mapped_free m.pages (n / page_size) (choose_base m.pages a n) h.free;
}

IsReservable-HasRoom :
    (a n : ℕ) (m : Memory)
    → n ≤ u64_max
    → IsReservable a n m
    → n / page_size ≤ m.allocations_left
    → HasRoom a n m
IsReservable-HasRoom a n m fits v enough =
    let (_, aligned, _, space) = range_ok_lem (choose_base m.pages a n) n fits v.in_space in
    record {
      not_empty = v.not_empty;
      few_pages = v.few_pages;
      whole_pages = v.whole_pages;
      aligned = aligned;
      in_space = space;
      free = λ q inside. IsReservable-free a n m q v inside;
      allocatable = enough;
    }

-- The call ends; it succeeds exactly if there is room, and otherwise changes nothing but the
-- counters of generations and allocations.
pub record Decided (a n : ℕ) (m : Memory) : Type 0 where
  pub error : Error
  pub base : ℕ
  pub left : Memory
  pub runs : reserve a n m ≡ some ((error, base), left)
  pub succeeds : (error ≡ ok) ↔ HasRoom a n m
  pub atomic :
      error ≢ ok
      → left ≡ record m {
        next_generation = left.next_generation;
        allocations_left = left.allocations_left;
      }

-- If the generations do not run out, `reserve_locked` of a 64-bit size ends. It succeeds exactly if
-- the size is positive, of whole pages and not over the limit, the range from the chosen base on is
-- aligned and in the address space with no page in it, and every page can be allocated. Otherwise,
-- also where an allocation fails after others succeeded, it changes
-- nothing but the counters of generations and of allocations.
pub reserve-Decided :
    (a n : ℕ) (m : Memory)
    → n ≤ u64_max
    → m.next_generation + n / page_size < 2 ^ 64
    → Decided a n m
reserve-Decided a n m fits room = elim (reserve_cases a n m) [
  | inr (e, b, bad, r) ↦ record {
    error = e;
    base = b;
    left = m;
    runs = r;
    succeeds = (
      λ good. absurd (bad good),
      λ h.
          let done =
            reserve-Reserved a n m (HasRoom-IsReservable a n m fits h) h.allocatable room in
          cc (sym r ∙ done.runs),
    );
    atomic = λ _. refl;
  }
  | inl v ↦ elim (Bool-cases (leb (n / page_size) m.allocations_left)) [
    | inl enough ↦
        let done = reserve-Reserved a n m v (ground arith) room in
        record {
          error = ok;
          base = choose_base m.pages a n;
          left = _;
          runs = done.runs;
          succeeds = (λ _. IsReservable-HasRoom a n m fits v (ground arith), λ _. refl);
          atomic = λ bad. absurd (bad refl);
        }
    | inr short ↦
        let r = reserve_short a n m v (ground arith) (ground arith) in
        record {
          error = no_memory;
          base = choose_base m.pages a n;
          left = _;
          runs = r;
          succeeds = (λ e. absurd (cc e), λ h. absurd (ground (arith, h.allocatable)));
          atomic = λ _. refl;
        }
  ]
]
