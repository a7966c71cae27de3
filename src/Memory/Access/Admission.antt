-- ===== src/Memory/Access/Admission.antt =====
-- src/gem/memory.c: which accesses `access_memory_locked` lets through.
use metal_sharp_wine_runtime.Prelude.{
  ℕ, zero, suc, ◌+◌, ◌-◌, ◌*◌, ◌/◌, ◌%◌, ◌≤◌, ◌<◌, ◌≡◌, ◌↔◌, ◌⊎◌, refl, Bool, true, some, List, [],
  ◌∷◌, arith, Bool-cases, Option-cases, inl, inr, ltb,
}
use metal_sharp_wine_runtime.Memory.{Error, Page}
use metal_sharp_wine_runtime.Memory.Rules.{allowed}
use metal_sharp_wine_runtime.Memory.Table.{at, has_backing}
use metal_sharp_wine_runtime.Memory.Access.{page_of, piece, Lookup, found, refused, find_pages}

-- The byte is on a committed page that lets the access through.
pub record IsOpen (ps : List Page) (w x : Bool) (q : ℕ) : Type 0 where
  pub page : Page
  pub mapped : at ps q ≡ some page
  pub committed : has_backing page ≡ true
  pub permitted : allowed page.protection w x ≡ true

Lookup-cases : (l : Lookup) → ((qs : List ℕ) × (l ≡ found qs)) ⊎ ((e : Error) × (l ≡ refused e))
Lookup-cases (found qs) = inl (qs, refl)
Lookup-cases (refused e) = inr (e, refl)

module _ (ps : List Page) (w x : Bool) where
  -- One round of the loop.
  round_found :
      (rounds cur left : ℕ) (qs : List ℕ)
      → find_pages ps (suc rounds) cur left w x ≡ found qs
      → IsOpen ps w x (page_of cur)
        × (rest : List ℕ) × (find_pages ps rounds (cur + piece cur left) (left - piece cur left) w x
            ≡ found rest)
  unfolding find_pages
  round_found rounds cur left qs e = elim (Option-cases (at ps (page_of cur))) [
    | inl gone ↦ absurd (cc (rw (gone, find_pages) at e))
    | inr (p, there) ↦ elim (Bool-cases (has_backing p)) [
      | inr empty ↦ absurd (cc (rw (there, empty, find_pages) at e))
      | inl full ↦ elim (Bool-cases (allowed p.protection w x)) [
        | inr closed ↦ absurd (cc (rw (there, full, closed, find_pages) at e))
        | inl open_page ↦
            elim (Lookup-cases
              (find_pages ps rounds (cur + piece cur left) (left - piece cur left) w x)) [
                | inr (bad, r) ↦ absurd (cc (rw (there, full, open_page, r, find_pages) at e))
                | inl (rest, r) ↦ (
                  record { page = p; mapped = there; committed = full; permitted = open_page },
                  rest,
                  r,
                )
              ]
      ]
    ]
  ]

  found_round :
      (rounds cur left : ℕ) (rest : List ℕ)
      → IsOpen ps w x (page_of cur)
      → find_pages ps rounds (cur + piece cur left) (left - piece cur left) w x ≡ found rest
      → find_pages ps (suc rounds) cur left w x ≡ found (page_of cur ∷ rest)
  unfolding find_pages
  found_round rounds cur left rest o e = rw (o.mapped, o.committed, o.permitted, e, find_pages) refl

  found-IsOpen :
      (rounds cur left : ℕ) (qs : List ℕ)
      → (0 < left → left + cur % 4096 ≤ rounds * 4096)
      → find_pages ps rounds cur left w x ≡ found qs
      → (i : ℕ) → i < left
      → IsOpen ps w x (page_of (cur + i))
  found-IsOpen zero cur left qs enough e i h = absurd (omega (arith, enough (omega arith)))
  found-IsOpen (suc rounds) cur left qs enough e i h =
      let (o, rest, e') = round_found rounds cur left qs e in
      let z = piece cur left in
      elim (Bool-cases (ltb i z)) [
        | inl here ↦ let same : page_of (cur + i) ≡ page_of cur = ground arith in rw same o
        | inr beyond ↦
            let there : cur + z + (i - z) ≡ cur + i = ground arith in
            rw (← there) (
              found-IsOpen rounds (cur + z) (left - z) rest
                (λ more. ground (arith, enough (omega arith))) e' (i - z) (ground arith))
      ]

  IsOpen-found :
      (rounds cur left : ℕ)
      → (0 < rounds → (0 < left) × (rounds * 4096 < left + cur % 4096 + 4096))
      → ((i : ℕ) → i < left → IsOpen ps w x (page_of (cur + i)))
      → (qs : List ℕ) × (find_pages ps rounds cur left w x ≡ found qs)
  unfolding find_pages
  IsOpen-found zero cur left some_left all = ([], refl)
  IsOpen-found (suc rounds) cur left some_left all =
      let z = piece cur left in
      let (more, few) = some_left (omega arith) in
      let start : cur + 0 ≡ cur = omega arith in
      let first : IsOpen ps w x (page_of cur) = rw (← start) (all 0 more) in
      let (rest, e) =
        IsOpen-found rounds (cur + z) (left - z) (λ again. ground arith)
          (λ i h.
            let there : cur + z + i ≡ cur + (z + i) = omega arith in
            rw there (all (z + i) (ground arith))) in
      (page_of cur ∷ rest, found_round rounds cur left rest first e)

  -- The lookup of an access of `n` bytes comes to its end exactly when every byte of the range is on a
  -- page that is reserved, committed and open to the kind of access.
  pub find_pages_iff :
      (a n : ℕ)
      → 0 < n
      → ((qs : List ℕ) × (find_pages ps ((n + a % 4096 + 4095) / 4096) a n w x ≡ found qs))
        ↔ ((i : ℕ) → i < n → IsOpen ps w x (page_of (a + i)))
  find_pages_iff a n some_bytes = (
    λ (qs, e). found-IsOpen ((n + a % 4096 + 4095) / 4096) a n qs (λ _. omega arith) e,
    λ all. IsOpen-found ((n + a % 4096 + 4095) / 4096) a n (λ _. (some_bytes, omega arith)) all,
  )
