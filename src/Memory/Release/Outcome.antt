-- ===== src/Memory/Release/Outcome.antt =====
-- src/gem/memory.c: when `release_locked` succeeds, and what it leaves otherwise.
use metal_sharp_wine_runtime.Prelude.{
  ℕ, ◌+◌, ◌%◌, ◌<◌, ◌/◌, ◌≤◌, ◌≡◌, ◌≢◌, ◌↔◌, ◌⊎◌, inl, inr, refl, true, false, ◌&&◌, some, ◌==◌,
  arith, sym, ◌∙◌, Bool-cases,
}
use metal_sharp_wine_runtime.Memory.{Error, ok, invalid_argument, Page, Memory, page_size}
use metal_sharp_wine_runtime.Memory.Rules.{range_ok, u64_max}
use metal_sharp_wine_runtime.Memory.Table.{at, check}
use metal_sharp_wine_runtime.Memory.Table.Check.{Present, range_ok_lem, check_iff}
use metal_sharp_wine_runtime.Memory.Release.{release}
use metal_sharp_wine_runtime.Memory.Release.Remove.{IsBalanced, release-Released, release_refused}

pub ok_cases : (e : Error) → (e ≡ ok) ⊎ (e ≢ ok)
ok_cases ok = inl refl
ok_cases _ = inr (λ e. absurd (cc e))

-- The first page of a range that `check` accepts.
pub first_found :
    (a n : ℕ) (m : Memory)
    → n ≤ u64_max
    → check m.pages a n false ≡ ok
    → (p : Page) × (at m.pages a ≡ some p)
first_found a n m fits found =
    let (accepted, present) = (check_iff m.pages a n false).0 found in
    let (positive, _, whole, _) = range_ok_lem a n fits accepted in
    let (p, there, _) = present a (ground arith) in (p, there)

-- The range is of whole pages in the address space, all of them in the table, and is the reservation
-- of its first page.
pub record IsReservation (a n : ℕ) (m : Memory) : Type 0 where
  pub positive : 0 < n
  pub aligned : a % page_size ≡ 0
  pub whole_pages : n % page_size ≡ 0
  pub in_space : a + n ≤ u64_max
  pub present : Present m.pages (n / page_size) a false
  pub first : Page
  pub first_page : at m.pages a ≡ some first
  pub base : first.reservation_base ≡ a
  pub size : first.reservation_size ≡ n

IsReservation-range_ok :
    (a n : ℕ) (m : Memory) → n ≤ u64_max → IsReservation a n m → range_ok a n ≡ true
unfolding range_ok
IsReservation-range_ok a n m fits h = ground (arith, h)

-- The call ends; it succeeds exactly on a whole reservation, and otherwise changes nothing.
pub record Settled (a n : ℕ) (m : Memory) : Type 0 where
  pub error : Error
  pub left : Memory
  pub runs : release a n m ≡ some (error, left)
  pub succeeds : (error ≡ ok) ↔ IsReservation a n m
  pub atomic : error ≢ ok → left ≡ m

-- If the backings count their references, `release_locked` of a 64-bit size ends. It succeeds exactly
-- if the range is positive, of whole pages, aligned and in the address space, all its pages are in the
-- table, and the first of them is of a
-- reservation that starts there and has that size. Otherwise it changes nothing.
pub release-Settled :
    (a n : ℕ) (pins : ℕ → ℕ) (m : Memory) → IsBalanced pins m → n ≤ u64_max → Settled a n m
release-Settled a n pins m balanced fits = elim (ok_cases (check m.pages a n false)) [
  | inr bad ↦ record {
    error = check m.pages a n false;
    left = m;
    runs = (release_refused a n m).0 bad;
    succeeds = (
      λ e. absurd (bad e),
      λ h.
          absurd (
            bad ((check_iff m.pages a n false).1 (IsReservation-range_ok a n m fits h, h.present))),
    );
    atomic = λ _. refl;
  }
  | inl found ↦
      let (p, there) = first_found a n m fits found in
      elim (Bool-cases (p.reservation_base == a && p.reservation_size == n)) [
        | inr part ↦ record {
          error = invalid_argument;
          left = m;
          runs = (release_refused a n m).1 p found there (ground arith);
          succeeds = (
            λ e. absurd (cc e),
            λ h.
                let same : some h.first ≡ some p = sym h.first_page ∙ there in
                let equal : h.first ≡ p = cc same in
                absurd (ground (arith, rw equal at h.base, rw equal at h.size)),
          );
          atomic = λ _. refl;
        }
        | inl entire ↦
            let base : p.reservation_base ≡ a = ground arith in
            let size : p.reservation_size ≡ n = ground arith in
            let done = release-Released a n pins m p balanced found there base size in
            record {
              error = ok;
              left = record m { pages = done.pages; backings = done.backings };
              runs = done.runs;
              succeeds = (
                λ _.
                    let (accepted, present) = (check_iff m.pages a n false).0 found in
                    let (positive, aligned, whole, space) = range_ok_lem a n fits accepted in
                    record {
                      positive = positive;
                      aligned = aligned;
                      whole_pages = whole;
                      in_space = space;
                      present = present;
                      first = p;
                      first_page = there;
                      base = base;
                      size = size;
                    },
                λ _. refl,
              );
              atomic = λ bad. absurd (bad refl);
            }
      ]
]
