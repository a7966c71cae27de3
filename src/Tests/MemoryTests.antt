-- ===== src/Tests/MemoryTests.antt =====
-- src/gem/memory.c at small tables.
use metal_sharp_wine_runtime.Prelude.{
  ℕ, ◌-◌, ◌/◌, ◌≡◌, ◌↔◌, refl, true, false, none, some, [], ◌∷◌, ◌==◌, if◌then◌else◌, arith,
  replicate,
}
use metal_sharp_wine_runtime.Memory.{ok, owned, Backing, Page, Memory, page_size}
use metal_sharp_wine_runtime.Memory.Rules.{
  range_ok, prot_ok, u64_max, without_guard, has_guard, is_base_protection,
}
use metal_sharp_wine_runtime.Memory.Table.{at, check, check_pages, is_mapped, has_backing}
use metal_sharp_wine_runtime.Memory.Table.Loops.{covers}
use metal_sharp_wine_runtime.Memory.Table.Check.{Present, check_iff}
use metal_sharp_wine_runtime.Memory.Reserve.{choose_base, any_mapped, reserve}
use metal_sharp_wine_runtime.Memory.Reserve.Search.{IsFirstFree, choose_base-IsFirstFree}
use metal_sharp_wine_runtime.Memory.Reserve.Laws.{IsReservable, Reserved, reserve-Reserved}
use metal_sharp_wine_runtime.Memory.Reserve.Outcome.{Decided, reserve-Decided}
use metal_sharp_wine_runtime.Memory.Release.Outcome.{Settled, release-Settled}
use metal_sharp_wine_runtime.Memory.Protect.{protect}
use metal_sharp_wine_runtime.Memory.Protect.Laws.{Protected, protect-Protected}
use metal_sharp_wine_runtime.Memory.Counts.{count, points_at}
use metal_sharp_wine_runtime.Memory.Release.{release}
use metal_sharp_wine_runtime.Memory.Release.Remove.{IsBalanced, Released, release-Released}
use metal_sharp_wine_runtime.Memory.Topology.{spans, IsTopology, IsTopology-cong, IsTopology-add}
use metal_sharp_wine_runtime.Memory.Topology.Operations.{
  EndsWhole, reserve-EndsWhole, protect-EndsWhole,
}

abbrev pub empty : Memory
empty = record {
  pages = [];
  next_generation = 0;
  backings = λ _. none;
  next_backing = 0;
  host = λ _. 0;
  allocations_left = 10;
}

abbrev pub low : Page
low = record {
  address = 0x10000;
  reservation_base = 0x10000;
  reservation_size = 0x2000;
  backing = some 0;
  protection = 4;
  generation = 1;
}

abbrev pub high : Page
high = record low { address = 0x11000; backing = none; generation = 2 }

abbrev pub zeroed : Backing
zeroed = record { storage = owned (replicate 4096 0); refs = 1; generation = none }

-- A reservation of two pages, the first of them committed.
abbrev pub two : Memory
two = record empty {
  pages = low ∷ high ∷ [];
  next_generation = 2;
  backings = λ id. if id == 0 then some zeroed else none;
  next_backing = 1;
}

pub two-check : check two.pages 0x10000 0x2000 false ≡ ok
unfolding check check_pages range_ok at has_backing
two-check = refl

two-check_committed : check two.pages 0x10000 0x1000 true ≡ ok
unfolding check check_pages range_ok at has_backing
two-check_committed = refl

check_iff_example :
    (check two.pages 0x10000 0x2000 true ≡ ok)
    ↔ (range_ok 0x10000 0x2000 ≡ true) × Present two.pages (0x2000 / page_size) 0x10000 true
check_iff_example = check_iff two.pages 0x10000 0x2000 true

readonly-prot_ok : prot_ok 2 ≡ true
unfolding prot_ok without_guard has_guard is_base_protection
readonly-prot_ok = refl

protect-Protected_example : Protected 0x10000 0x1000 2 two (protect 0x10000 0x1000 2 two)
protect-Protected_example =
    protect-Protected 0x10000 0x1000 2 two (omega arith) (omega arith) two-check_committed
      readonly-prot_ok

choose_base-IsFirstFree_example :
    IsFirstFree two.pages
      (u64_max - 0x1000 - page_size)
      0x100000000
      (choose_base two.pages 0 0x1000)
choose_base-IsFirstFree_example = choose_base-IsFirstFree two.pages 0x1000

behind-IsReservable : IsReservable 0x12000 0x1000 two
unfolding choose_base range_ok any_mapped is_mapped at
behind-IsReservable = record {
  not_empty = λ e. omega (arith, e);
  few_pages = omega arith;
  whole_pages = refl;
  in_space = refl;
  free = refl;
}

reserve-Reserved_example :
    Reserved (choose_base two.pages 0x12000 0x1000) 0x1000 two (reserve 0x12000 0x1000 two)
reserve-Reserved_example =
    reserve-Reserved 0x12000 0x1000 two behind-IsReservable (omega arith) (omega arith)

-- The range has a page in it.
reserve-Decided_example : Decided 0x10000 0x2000 two
reserve-Decided_example = reserve-Decided 0x10000 0x2000 two (omega arith) (omega arith)

pub two-IsBalanced : IsBalanced (λ _. 0) two
unfolding count points_at
two-IsBalanced = record {
  refs = λ id. ground arith;
  live = λ id b e. ground arith;
  unused = λ id past. ground arith;
}

release-Released_example : Released 0x10000 0x2000 (λ _. 0) two (release 0x10000 0x2000 two)
release-Released_example =
    release-Released 0x10000 0x2000 (λ _. 0) two low two-IsBalanced two-check (unfold at in refl)
      refl refl

-- A part of a reservation.
release-Settled_example : Settled 0x10000 0x1000 two
release-Settled_example = release-Settled 0x10000 0x1000 (λ _. 0) two two-IsBalanced (omega arith)

nothing-IsTopology : IsTopology (λ _. none)
nothing-IsTopology = record {
  placed = λ q s e. absurd (cc (e));
  complete = λ q r s e within. absurd (cc (e));
}

two-spans :
    (q : ℕ)
    → spans two.pages q ≡ (
        if covers (0x2000 / page_size) 0x10000 q
        then some (record { base = 0x10000; size = 0x2000 })
        else none)
unfolding at
two-spans q = ground arith

pub two-IsTopology : IsTopology (spans two.pages)
two-IsTopology = IsTopology-cong _ (spans two.pages) two-spans (
    IsTopology-add (λ _. none) 0x10000 0x2000 refl refl (omega arith) (λ q inside. refl)
      nothing-IsTopology)

reserve-EndsWhole_example : EndsWhole (reserve 0x12000 0x1000 two)
reserve-EndsWhole_example =
    reserve-EndsWhole 0x12000 0x1000 two (omega arith) (omega arith) two-IsTopology

protect-EndsWhole_example : EndsWhole (protect 0x10000 0x1000 2 two)
protect-EndsWhole_example =
    protect-EndsWhole 0x10000 0x1000 2 two (omega arith) (omega arith) two-IsTopology
