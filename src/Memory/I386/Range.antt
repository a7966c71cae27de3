-- ===== src/Memory/I386/Range.antt =====
-- src/gem/i386_memory.c: nothing is reserved or reached beyond the 32-bit address space.
use metal_sharp_wine_runtime.Prelude.{
  ℕ, zero, suc, ◌+◌, ◌-◌, ◌*◌, ◌/◌, ◌%◌, ◌≤◌, ◌<◌, ◌≡◌, ◌≢◌, ◌↔◌, ◌⊎◌, refl, ap, sym, ◌∙◌, true,
  false, ◌||◌, Option, none, some, List, ◌==◌, ◌!=◌, ltb, if◌then◌else◌, arith, Bool-cases,
  Option-cases, inl, inr,
}
use metal_sharp_wine_runtime.Memory.{
  Error, ok, overflow, conflict, Page, Memory, M, ◌>>=◌, page_size,
}
use metal_sharp_wine_runtime.Memory.Rules.{range_ok}
use metal_sharp_wine_runtime.Memory.Reserve.{
  choose_base, any_mapped, make_pages, insert_pages, reserve_at, reserve, reserved_page, max_pages,
}
use metal_sharp_wine_runtime.Memory.Monad.{after}
use metal_sharp_wine_runtime.Memory.I386.{
  address_space_size, lowest_allocation, allocation_granularity, range_error, range_valid, is_ok,
  after_candidate, search_candidates, candidates, given_address, i386_reserve,
}

-- A range is accepted exactly when it is not empty and ends within the 32-bit address space.
pub range_valid_iff :
    (address size : ℕ)
    → (range_valid address size ≡ true) ↔ (0 < size) × (address + size ≤ address_space_size)
unfolding range_valid range_error
range_valid_iff address size = (λ h. ground arith, λ h. ground arith)

-- What an answer of `reserve_locked` says, whichever branch it came from.
record Answer (a : ℕ) (m : Memory) (e : Error) (b : ℕ) (m' : Memory) : Type 0 where
  same_base : a ≢ 0 → b ≡ a
  unchanged : e ≡ conflict → m' ≡ m

insert_pages-Answer :
    (b : ℕ) (new : Option (List Page)) (m m0 : Memory) {e : Error} {b' : ℕ} {m' : Memory}
    → insert_pages b new m ≡ some ((e, b'), m')
    → Answer b m0 e b' m'
unfolding insert_pages
insert_pages-Answer b none m m0 h = record {
  same_base = λ _. cc h;
  unchanged = λ c. absurd (cc (h, c));
}
insert_pages-Answer b (some new) m m0 h = record {
  same_base = λ _. cc h;
  unchanged = λ c. absurd (cc (h, c));
}

reserve_at-Answer :
    (b n : ℕ) (m : Memory) {e : Error} {b' : ℕ} {m' : Memory}
    → reserve_at b n m ≡ some ((e, b'), m')
    → Answer b m e b' m'
unfolding reserve_at
reserve_at-Answer b n m h = elim (Bool-cases (range_ok b n)) [
  | inr bad ↦
      let h' = rw (bad, reserve_at) at h in
      record { same_base = λ _. cc h'; unchanged = λ c. cc h' }
  | inl good ↦ elim (Bool-cases (any_mapped m.pages (n / page_size) b)) [
    | inl taken ↦
        let h' = rw (good, taken, reserve_at) at h in
        record { same_base = λ _. cc h'; unchanged = λ c. cc h' }
    | inr free ↦ elim (Option-cases (make_pages (n / page_size) b (reserved_page b n) m)) [
      | inl stopped ↦
          let step : reserve_at b n m ≡ none =
            rw (good, free, reserve_at) (rw (stopped, ◌>>=◌) refl) in
          absurd (cc (step, h))
      | inr ((new, m1), made) ↦
          let step : reserve_at b n m ≡ insert_pages b new m1 =
            rw (good, free, reserve_at)
              (after (make_pages (n / page_size) b (reserved_page b n)) _ made refl) in
          insert_pages-Answer b new m1 m (sym step ∙ h)
    ]
  ]
]

reserve-Answer :
    (a n : ℕ) (m : Memory) {e : Error} {b : ℕ} {m' : Memory}
    → a ≢ 0
    → reserve a n m ≡ some ((e, b), m')
    → Answer a m e b m'
unfolding reserve choose_base
reserve-Answer a n m given h =
    let at_a : choose_base m.pages a n ≡ a = ground arith in
    elim (Bool-cases (n == 0 || (ltb max_pages (n / page_size) || n % page_size != 0))) [
      | inl bad ↦
          let h' = rw (bad, reserve) at h in
          record { same_base = λ _. cc h'; unchanged = λ c. cc h' }
      | inr good ↦
          let step : reserve a n m ≡ reserve_at a n m =
            rw (good, reserve) (ap (λ b. reserve_at b n m) at_a) in
          reserve_at-Answer a n m (sym step ∙ h)
    ]

-- A reservation found by the loop: a multiple of 64 KiB at or above the lowest allocation.
record Candidate (size : ℕ) (m : Memory) (r : Option ℕ) (m' : Memory) : Type 0 where
  base : ℕ
  stored : r ≡ some base
  reserved : reserve base size m ≡ some ((ok, base), m')
  in_space : base + size ≤ address_space_size
  aligned : base % allocation_granularity ≡ 0
  above : lowest_allocation ≤ base

after_answer :
    (rest : M (Error × Option ℕ)) (er : Error) (b : ℕ) (m1 : Memory) (r : Option ℕ) (m' : Memory)
    → after_candidate rest (er, b) m1 ≡ some ((ok, r), m')
    → ((er ≡ ok) × (r ≡ some b) × (m1 ≡ m')) ⊎ ((er ≡ conflict) × (rest m1 ≡ some ((ok, r), m')))
after_answer rest ok b m1 r m' e = inl (refl, cc e, cc e)
after_answer rest conflict b m1 r m' e = inr (refl, e)
after_answer rest _ b m1 r m' e = absurd (cc e)

search-Candidate :
    (rounds c size : ℕ) (m : Memory) (r : Option ℕ) (m' : Memory)
    → lowest_allocation ≤ c
    → c % allocation_granularity ≡ 0
    → (0 < rounds → c + (rounds - 1) * allocation_granularity + size ≤ address_space_size)
    → search_candidates rounds c size m ≡ some ((ok, r), m')
    → Candidate size m r m'
unfolding search_candidates
search-Candidate zero c size m r m' above aligned fits e = absurd (cc e)
search-Candidate (suc rounds) c size m r m' above aligned fits e =
    elim (Option-cases (reserve c size m)) [
      | inl stopped ↦ absurd (cc (rw (stopped, search_candidates) at e))
      | inr (((er, b), m1), made) ↦
          let answer = reserve-Answer c size m (λ z. omega (arith, z)) made in
          let next = search_candidates rounds (c + allocation_granularity) size in
          let e' : after_candidate next (er, b) m1 ≡ some ((ok, r), m') =
            rw (made, search_candidates) at e in
          elim (after_answer next er b m1 r m' e') [
            | inl (fine, stored, same) ↦
                let here : b ≡ c = answer.same_base (λ z. omega (arith, z)) in
                record {
                  base = c;
                  stored = cc (stored, here);
                  reserved = cc (made, fine, here, same);
                  in_space = ground (arith, fits (omega arith));
                  aligned = aligned;
                  above = above;
                }
            | inr (taken, later) ↦
                search-Candidate rounds (c + allocation_granularity) size m r m' (omega arith)
                  (omega arith) (λ more. omega (arith, fits (omega arith)))
                  (cc (answer.unchanged taken, later))
          ]
    ]

given_answer :
    (o : Option ((Error × ℕ) × Memory)) (r : Option ℕ) (m' : Memory)
    → given_address o ≡ some ((ok, r), m')
    → (b : ℕ) × (o ≡ some ((ok, b), m')) × (r ≡ none)
given_answer none r m' e = absurd (cc e)
given_answer (some ((er, b), m1)) r m' e =
    let fine : er ≡ ok = cc e in let same : m1 ≡ m' = cc e in (b, cc (fine, same), cc e)

-- Success at a given address.
given_in_space :
    (address size : ℕ) (m m' : Memory) (r : Option ℕ)
    → address ≢ 0
    → (if is_ok (range_error address size)
        then given_address (reserve address size m)
        else some ((overflow, none), m))
      ≡ some ((ok, r), m')
    → (r ≡ none)
      × (reserve address size m ≡ some ((ok, address), m'))
      × (address + size ≤ address_space_size)
unfolding range_error
given_in_space address size m m' r given e = elim (Bool-cases (is_ok (range_error address size))) [
  | inr out ↦ absurd (cc (rw out at e))
  | inl inside ↦
      let (b, made, nothing) = given_answer (reserve address size m) r m' (rw inside at e) in
      let here : b ≡ address = (reserve-Answer address size m given made).same_base given in
      (nothing, cc (made, here), range_error_lem address size inside)
]
  where
    range_error_lem :
        (address size : ℕ)
        → is_ok (range_error address size) ≡ true
        → address + size ≤ address_space_size
    range_error_lem address size inside = ground arith

-- `gem_i386_memory_reserve` that succeeds has made a reservation that `reserve_locked` made in this
-- very memory, within the 32-bit address space: at the address that was given, or else at a multiple
-- of 64 KiB that is not below the lowest allocation and that is stored through the pointer.
pub i386_reserve-in_space :
    (address size : ℕ) (m m' : Memory) (r : Option ℕ)
    → i386_reserve address size m ≡ some ((ok, r), m')
    → (address ≢ 0
        → (r ≡ none)
          × (reserve address size m ≡ some ((ok, address), m'))
          × (address + size ≤ address_space_size))
      × (address ≡ 0
          → (base : ℕ) × (r ≡ some base)
            × (reserve base size m ≡ some ((ok, base), m'))
            × (base + size ≤ address_space_size)
            × (base % allocation_granularity ≡ 0)
            × (lowest_allocation ≤ base))
unfolding i386_reserve
i386_reserve-in_space address size m m' r e =
    elim (Bool-cases (size == 0 || (size % page_size != 0 || ltb address_space_size size))) [
      | inl bad ↦ absurd (cc (rw (bad, i386_reserve) at e))
      | inr good ↦ (
        λ given.
            let some_address : (address != 0) ≡ true = ground arith in
            given_in_space address size m m' r given (rw (good, some_address, i386_reserve) at e),
        λ any.
            let no_address : (address != 0) ≡ false = ground arith in
            let found =
              search-Candidate (candidates size) lowest_allocation size m r m' (omega arith) refl
                (λ more. ground arith) (rw (good, no_address, i386_reserve) at e) in
            (found.base, found.stored, found.reserved, found.in_space, found.aligned, found.above),
      )
    ]
