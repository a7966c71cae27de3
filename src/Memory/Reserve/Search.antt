-- ===== src/Memory/Reserve/Search.antt =====
-- src/gem/memory.c: where `reserve_locked` places a reservation.
use metal_sharp_wine_runtime.Prelude.{
  ℕ, zero, suc, ◌+◌, ◌-◌, ◌*◌, ◌%◌, ◌≤◌, ◌<◌, ◌≡◌, ap, ◌∙◌, true, false, ◌&&◌, none, List, ◌==◌,
  leb, arith, Bool-cases, ==-eq, and-eq_true, or-eq_false, inl, inr,
}
use metal_sharp_wine_runtime.Memory.{Page, page_size}
use metal_sharp_wine_runtime.Memory.Rules.{u64_max}
use metal_sharp_wine_runtime.Memory.Table.{at, is_mapped}
use metal_sharp_wine_runtime.Memory.Table.Loops.{covers, covers-suc}
use metal_sharp_wine_runtime.Memory.Reserve.{find_free, choose_base, search_fuel, any_mapped}

-- Where the search stops: at the first address, in steps of a page, that is free or past the
-- limit.
pub record IsFirstFree (ps : List Page) (limit b r : ℕ) : Type 0 where
  pub stopped : (is_mapped ps r && leb r limit) ≡ false
  pub from_start : b ≤ r
  pub on_grid : (r - b) % page_size ≡ 0
  pub before : (q : ℕ) → b ≤ q → q < r → (q - b) % page_size ≡ 0 → is_mapped ps q ≡ true

find_free-IsFirstFree :
    (fuel : ℕ) (ps : List Page) (limit b : ℕ)
    → limit < b + fuel * page_size
    → IsFirstFree ps limit b (find_free fuel ps limit b)
unfolding find_free
find_free-IsFirstFree zero ps limit b enough = record {
  stopped = ground arith;
  from_start = omega arith;
  on_grid = omega arith;
  before = λ q h h' _. absurd (omega arith);
}
find_free-IsFirstFree (suc fuel) ps limit b enough =
    elim (Bool-cases (is_mapped ps b && leb b limit)) [
      | inr free ↦
          rw (free, find_free)
            record {
              stopped = free;
              from_start = omega arith;
              on_grid = omega arith;
              before = λ q h h' _. absurd (omega arith);
            }
      | inl taken ↦
          let rest = find_free-IsFirstFree fuel ps limit (b + page_size) (omega arith) in
          rw (taken, find_free)
            record {
              stopped = rest.stopped;
              from_start = omega (arith, rest.from_start);
              on_grid = omega (arith, rest.from_start, rest.on_grid);
              before = λ q h h' grid. elim (Bool-cases (q == b)) [
                | inl here ↦
                    ap (is_mapped ps) (==-eq q b here) ∙ (and-eq_true (is_mapped ps b) _ taken).0
                | inr there ↦ rest.before q (ground arith) h' (ground arith)
              ];
            }
    ]

-- With no address given, `reserve_locked` takes the first free page address from 4 GiB on, or
-- stops past the last address at which the reservation would fit.
pub choose_base-IsFirstFree :
    (ps : List Page) (n : ℕ)
    → IsFirstFree ps (u64_max - n - page_size) 0x100000000 (choose_base ps 0 n)
unfolding choose_base
choose_base-IsFirstFree ps n =
    find_free-IsFirstFree search_fuel ps (u64_max - n - page_size) 0x100000000 (omega arith)

is_mapped-eq_false : (ps : List Page) (a : ℕ) → is_mapped ps a ≡ false → at ps a ≡ none
unfolding is_mapped
is_mapped-eq_false ps a h = ground arith

-- When no page stands in the way, none is mapped at a page address of the range.
pub any_mapped-eq_false :
    (ps : List Page) (k a q : ℕ) → any_mapped ps k a ≡ false → covers k a q ≡ true → at ps q ≡ none
unfolding any_mapped
any_mapped-eq_false ps zero a q free within = absurd (ground arith)
any_mapped-eq_false ps (suc k) a q free within =
    let (here_free, rest) = or-eq_false (is_mapped ps a) (any_mapped ps k (a + page_size)) free in
    elim (Bool-cases (q == a)) [
      | inl here ↦ ap (at ps) (==-eq q a here) ∙ is_mapped-eq_false ps a here_free
      | inr there ↦
          any_mapped-eq_false ps k (a + page_size) q rest (ground (arith, covers-suc k a q))
    ]
