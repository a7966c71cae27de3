-- ===== src/Memory/Topology/Operations.antt =====
-- src/gem/memory.c: `reserve_locked`, `protect_locked`, `release_locked` and `unmap_locked` on whole
-- reservations, on each of their branches.
use mathlib.Core.Option
use metal_sharp_wine_runtime.Prelude.{
  ℕ, ◌+◌, ◌-◌, ◌/◌, ◌^◌, ◌≤◌, ◌<◌, ◌≡◌, ◌≢◌, inl, inr, refl, true, Option, none, some, leb, arith,
  Bool-cases,
}
use metal_sharp_wine_runtime.Memory.{Error, ok, invalid_argument, no_memory, Memory, M, page_size}
use metal_sharp_wine_runtime.Memory.Rules.{prot_ok, u64_max}
use metal_sharp_wine_runtime.Memory.Table.{check}
use metal_sharp_wine_runtime.Memory.Reserve.{choose_base, reserve}
use metal_sharp_wine_runtime.Memory.Reserve.Laws.{reserve-Reserved, reserve_short}
use metal_sharp_wine_runtime.Memory.Reserve.Outcome.{reserve_cases}
use metal_sharp_wine_runtime.Memory.Protect.{protect, checked}
use metal_sharp_wine_runtime.Memory.Protect.Laws.{protect-Protected}
use metal_sharp_wine_runtime.Memory.Release.Outcome.{ok_cases}
use metal_sharp_wine_runtime.Memory.Topology.{
  spans, IsTopology, Reserved-IsTopology, Protected-IsTopology,
}

-- The call ends, with a table in which every page lies in its reservation and the reservations have
-- all their pages.
pub record EndsWhole {A : Type 0} (r : Option (A × Memory)) : Type 0 where
  pub answer : A
  pub left : Memory
  pub runs : r ≡ some (answer, left)
  pub whole : IsTopology (spans left.pages)

unchanged :
    {A : Type 0} (a : A) (m : Memory) {r : Option (A × Memory)}
    → IsTopology (spans m.pages)
    → r ≡ some (a, m)
    → EndsWhole r
unchanged a m t e = record { answer = a; left = m; runs = e; whole = t }

-- If every page lies in its reservation and the reservations have all their pages, and the generations
-- do not run out, `reserve_locked` of a 64-bit size ends and leaves the table so: when it makes a
-- reservation, when it refuses the arguments, and when an allocation fails.
pub reserve-EndsWhole :
    (a n : ℕ) (m : Memory)
    → n ≤ u64_max
    → m.next_generation + n / page_size < 2 ^ 64
    → IsTopology (spans m.pages)
    → EndsWhole (reserve a n m)
reserve-EndsWhole a n m fits room t = elim (reserve_cases a n m) [
  | inr (e, b, _, refused) ↦ unchanged (e, b) m t refused
  | inl v ↦ elim (Bool-cases (leb (n / page_size) m.allocations_left)) [
    | inl enough ↦
        let done = reserve-Reserved a n m v (ground arith) room in
        record {
          answer = (ok, choose_base m.pages a n);
          left = record m {
            pages = done.pages;
            next_generation = m.next_generation + n / page_size;
            allocations_left = m.allocations_left - n / page_size;
          };
          runs = done.runs;
          whole = Reserved-IsTopology (choose_base m.pages a n) n m fits v.in_space v.free done t;
        }
    | inr short ↦
        let r = reserve_short a n m v (ground arith) (ground arith) in
        record {
          answer = (no_memory, choose_base m.pages a n);
          left = record m {
            next_generation = m.next_generation + m.allocations_left;
            allocations_left = 0;
          };
          runs = r;
          whole = t;
        }
  ]
]

checked_protect :
    (e : Error) (rest : M (Error × Option ℕ)) (m : Memory)
    → e ≢ ok
    → checked e rest m ≡ some ((e, none), m)
checked_protect ok rest m bad = absurd (bad refl)
checked_protect _ rest m bad = refl

-- If every page lies in its reservation and the reservations have all their pages, and the generations
-- do not run out, `protect_locked` of a 64-bit size ends and leaves the table so: when it sets the
-- protection, and when it refuses the range or the protection.
pub protect-EndsWhole :
    (a n prot : ℕ) (m : Memory)
    → n ≤ u64_max
    → m.next_generation + n / page_size < 2 ^ 64
    → IsTopology (spans m.pages)
    → EndsWhole (protect a n prot m)
unfolding protect
protect-EndsWhole a n prot m fits room t = elim (ok_cases (check m.pages a n true)) [
  | inr bad ↦
      unchanged (check m.pages a n true, none) m t
        (checked_protect (check m.pages a n true) _ m bad)
  | inl found ↦ elim (Bool-cases (prot_ok prot)) [
    | inr bad ↦ unchanged (invalid_argument, none) m t (rw (found, bad, protect) refl)
    | inl good ↦
        let done = protect-Protected a n prot m fits room found good in
        record {
          answer = (ok, some done.first.protection);
          left = record m {
            pages = done.pages;
            next_generation = m.next_generation + n / page_size;
          };
          runs = done.runs;
          whole = Protected-IsTopology a n prot m done t;
        }
  ]
]
