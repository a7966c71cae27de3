-- ===== src/Target/Chain.antt =====
-- src/gem/arm64ec_target.c over src/gem/pe_arm64x.c: the limit of the loop over the redirections is
-- enough for every chain that ends.
use mathlib.Core.Path.{subst}
use native.Mathlib.Decide.{ℕ_discrete}
use metal_sharp_wine_runtime.Prelude.{
  ℕ, zero, suc, ◌+◌, ◌≤◌, ◌<◌, ◌≡◌, ◌↔◌, refl, ap, ◌∙◌, Bool, some, List, [], ◌∷◌, length, arith,
  ◌⊎◌, inl, inr,
}
use metal_sharp_wine_runtime.Pe.{Image, Redirection}
use metal_sharp_wine_runtime.Pe.Find.Search.{IsIn, first, later}
use metal_sharp_wine_runtime.Pe.Parse.Parsed.{Parsed}
use metal_sharp_wine_runtime.Target.{TargetMap, follow}
use metal_sharp_wine_runtime.Target.Create.{map_of}
use metal_sharp_wine_runtime.Target.Resolution.{Leads, stays, hops, follow-Leads}
use metal_sharp_wine_runtime.Target.Loaded.{redirected_inside}

-- The list without one of its elements.
remove : {A : Type 0} {x : A} (xs : List A) → IsIn x xs → List A
remove [] i = []
remove (x ∷ xs) first = xs
remove (y ∷ xs) (later i) = y ∷ remove xs i

length-remove :
    {A : Type 0} {x : A} (xs : List A) (i : IsIn x xs) → length xs ≡ suc (length (remove xs i))
unfolding remove
length-remove [] i = elim i [ ]
length-remove (x ∷ xs) first = refl
length-remove (y ∷ xs) (later i) = ap suc (length-remove xs i)

IsIn-remove :
    {A : Type 0} {x y : A} (xs : List A) (i : IsIn x xs)
    → IsIn y xs
    → (y ≡ x) ⊎ IsIn y (remove xs i)
unfolding remove
IsIn-remove [] i j = elim i [ ]
IsIn-remove (x ∷ xs) first first = inl refl
IsIn-remove (x ∷ xs) first (later j) = inr j
IsIn-remove (y ∷ xs) (later i) first = inr first
IsIn-remove (z ∷ xs) (later i) (later j) = elim (IsIn-remove xs i j) [
  | inl e ↦ inl e
  | inr k ↦ inr (later k)
]

-- Elements that carry the numbers from 1 to `n`, each only one, are at least `n`.
pigeonhole :
    {A : Type 0} (R : A → ℕ → Type 0)
    → ((x : A) (k k' : ℕ) → R x k → R x k' → k ≡ k')
    → (n : ℕ) (xs : List A) → ((k : ℕ) → k < n → (x : A) × IsIn x xs × R x (suc k))
    → n ≤ length xs
pigeonhole R only zero xs at = omega arith
pigeonhole {A} R only (suc n) xs at =
    let (x, i, r) = at n (omega arith) in
    let fewer = pigeonhole R only n (remove xs i) (λ k lt.
      let (y, j, s) = at k (omega arith) in
      elim (IsIn-remove xs i j) [
        | inl same ↦
            absurd (omega (arith, only x (suc k) (suc n) (subst (λ (z : A). R z (suc k)) same s) r))
        | inr there ↦ (y, there, s)
      ]) in
    omega (arith, length-remove xs i, fewer)

module _ (map : TargetMap) where
  -- A chain from an address has only one length.
  Leads-unique : (rva n m e e' : ℕ) → Leads map rva n e → Leads map rva m e' → n ≡ m
  Leads-unique rva n m e e' (stays i f last) (stays i' f' last') = refl
  Leads-unique rva n m e e' (stays i f last) (hops i' f' more rest) =
      absurd (cc (f, f', last, more))
  Leads-unique rva n m e e' (hops i f more rest) (stays i' f' last) =
      absurd (cc (f, f', last, more))
  Leads-unique rva n m e e' (hops {next = a} {n = k} i f more rest)
        (hops {next = b} {n = k'} i' f' more' rest') =
      let same : a ≡ b = cc (f, f', more, more') in
      ap suc (Leads-unique b k k' e e' (subst (λ (x : ℕ). Leads map x k e) same rest) rest')

  follow_complete :
      (left rva n e h : ℕ) → Leads map rva n e → n < left → follow map left rva h ≡ some (e, h + n)
  unfolding follow
  follow_complete zero rva n e h leads lt = absurd (omega arith)
  follow_complete (suc left) rva n e h (stays i f last) lt = rw (f, last, follow) (ground arith)
  follow_complete (suc left) rva n e h (hops {next = next} {n = k} i f more rest) lt =
      rw (f, more, follow) (follow_complete left next k e (h + 1) rest (omega arith) ∙ ground arith)

module _ {bytes : List ℕ} {mapped_image : Bool} {image : Image}
    (parsed : Parsed bytes mapped_image image) (base loaded_end : ℕ) where
  -- The redirections of a chain, each with the length of the chain from its source.
  Leads-redirections :
      (rva n e k : ℕ)
      → Leads (map_of image image.summary base loaded_end) rva n e
      → k < n
      → (r : Redirection) × IsIn r image.redirections
        × Leads (map_of image image.summary base loaded_end) r.source_rva (suc k) e
  Leads-redirections rva zero e k leads lt = absurd (omega arith)
  Leads-redirections rva (suc n) e k (hops {next = next} i f more rest) lt = elim (ℕ_discrete k n) [
    | yes last ↦
        let r = redirected_inside parsed base loaded_end rva next i f more in
        (r.redirection, r.is_in, rw (r.source, last) (hops i f more rest))
    | no other ↦ Leads-redirections next n e k rest (omega arith)
  ]

  -- A chain is no longer than the table, since no redirection occurs twice in it.
  Leads-le :
      (rva n e : ℕ)
      → Leads (map_of image image.summary base loaded_end) rva n e
      → n ≤ image.summary.redirection_count
  Leads-le rva n e leads =
      let map = map_of image image.summary base loaded_end in
      let few =
        pigeonhole (λ (r : Redirection) k. Leads map r.source_rva k e)
          (λ r k k' a b. Leads-unique map r.source_rva k k' e e a b) n image.redirections
          (λ k lt. Leads-redirections rva n e k leads lt) in
      omega (arith, few, parsed.redirections_mapped.0)

  -- On a parsed image, the loop over the redirections of `gem_arm64ec_target_resolve` ends at an address
  -- after a number of hops exactly when the chain of redirections ends there after that many: its limit
  -- never cuts off a chain that ends, and only a chain without an end is refused.
  pub follow_iff :
      (rva e n : ℕ)
      → (follow
            (map_of image image.summary base loaded_end)
            (image.summary.redirection_count + 1)
            rva
            0
          ≡ some (e, n))
        ↔ Leads (map_of image image.summary base loaded_end) rva n e
  follow_iff rva e n =
      let map = map_of image image.summary base loaded_end in
      let limit = image.summary.redirection_count + 1 in
      (
        (λ h.
            let (m, total, few, leads) = follow-Leads map limit rva 0 e n h in
            let same : n ≡ m = omega (arith, total) in rw same leads),
        (λ leads.
            let enough : n < limit = omega (arith, Leads-le rva n e leads) in
            follow_complete map limit rva n e 0 leads enough ∙ ground arith),
      )
