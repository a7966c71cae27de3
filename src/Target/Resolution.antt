-- ===== src/Target/Resolution.antt =====
-- src/gem/arm64ec_target.c: where a resolution ends.
use metal_sharp_wine_runtime.Prelude.{
  ℕ, zero, suc, ◌+◌, ◌-◌, ◌%◌, ◌^◌, ◌≤◌, ◌<◌, ◌≡◌, refl, true, false, ◌&&◌, ◌||◌, not, Option, none,
  some, ◌!=◌, ltb, leb, arith, Bool-cases, Option-cases, inl, inr,
}
use metal_sharp_wine_runtime.Target.{
  Status, ok, Kind, Target, RvaInfo, TargetMap, is_x64_boundary, is_invalid, add_u64, kind_of,
  aligned_kind, classify_terminal, follow, finish, arrive, resolve,
}

-- `hops` redirections lead from one address to another, which has none.
pub data Leads (map : TargetMap) : ℕ → ℕ → ℕ → Type 0 where
  stays :
      {rva : ℕ} (info : RvaInfo)
      → map.classify_rva rva ≡ some info
      → info.redirection ≡ none
      → Leads map rva 0 rva
  hops :
      {rva next end n : ℕ} (info : RvaInfo)
      → map.classify_rva rva ≡ some info
      → info.redirection ≡ some next
      → Leads map next n end
      → Leads map rva (suc n) end

pub follow-Leads :
    (map : TargetMap) (left rva h end h' : ℕ)
    → follow map left rva h ≡ some (end, h')
    → (n : ℕ) × (h' ≡ h + n) × (n < left) × Leads map rva n end
unfolding follow
follow-Leads map zero rva h end h' e = absurd (cc e)
follow-Leads map (suc left) rva h end h' e = elim (Option-cases (map.classify_rva rva)) [
  | inl bad ↦ absurd (cc (rw (bad, follow) at e))
  | inr (info, found) ↦ elim (Option-cases (info.redirection)) [
    | inl last ↦
        let e' : some (rva, h) ≡ some (end, h') = rw (found, last, follow) at e in
        let here : rva ≡ end = cc e' in
        let same : h ≡ h' = cc e' in
        (0, omega (arith, same), omega arith, rw (← here) (stays info found last))
    | inr (next, more) ↦
        let (n, total, few, rest) =
          follow-Leads map left next (h + 1) end h' (rw (found, more, follow) at e) in
        (suc n, omega (arith, total), omega (arith, few), hops info found more rest)
  ]
]

aligned_kind_lem :
    (v : ℕ) (p : Status × Kind) (k : Kind)
    → aligned_kind v p ≡ (ok, k)
    → is_x64_boundary k ≡ false
    → v % 4 ≡ 0
unfolding aligned_kind
aligned_kind_lem v (ok, kind) k e h = elim (Bool-cases (not (is_x64_boundary kind) && v % 4 != 0)) [
  | inl bad ↦ absurd (cc (rw (bad, aligned_kind) at e))
  | inr good ↦
      let same : kind ≡ k = cc (rw (good, aligned_kind) at e) in ground (arith, rw (← same) at h)
]
aligned_kind_lem v (_, kind) k e h = absurd (cc e)

-- An address at which code may run.
pub record IsTerminal (map : TargetMap) (rva v : ℕ) (k : Kind) : Type 0 where
  pub info : RvaInfo
  pub classified : map.classify_rva rva ≡ some info
  pub executable : info.executable_section ≡ true
  pub aligned : is_x64_boundary k ≡ false → v % 4 ≡ 0

classify_terminal-IsTerminal :
    (map : TargetMap) (rva v : ℕ) (k : Kind)
    → classify_terminal map rva v ≡ (ok, k)
    → IsTerminal map rva v k
unfolding classify_terminal
classify_terminal-IsTerminal map rva v k e = elim (Option-cases (map.classify_rva rva)) [
  | inl bad ↦ absurd (cc (rw (bad, classify_terminal) at e))
  | inr (info, found) ↦ elim (Bool-cases (is_invalid info.classification)) [
    | inl invalid ↦ elim (Bool-cases (leb map.size_of_image rva)) [
      | inl out ↦ absurd (cc (rw (found, invalid, out, classify_terminal) at e))
      | inr inside ↦ absurd (cc (rw (found, invalid, inside, classify_terminal) at e))
    ]
    | inr valid ↦ elim (Bool-cases (info.executable_section)) [
      | inr data_only ↦ absurd (cc (rw (found, valid, data_only, classify_terminal) at e))
      | inl executable ↦
          let e' : aligned_kind v (kind_of info) ≡ (ok, k) =
            rw (found, valid, executable, classify_terminal) at e in
          record {
            info = info;
            classified = found;
            executable = executable;
            aligned = aligned_kind_lem v (kind_of info) k e';
          }
    ]
  ]
]

-- A resolution that succeeds followed all redirections from the requested address, at most as many as
-- the image has, to executable code that is aligned if it is not x64 code.
pub record Resolved (map : TargetMap) (va : ℕ) (t : Target) : Type 0 where
  pub requested : t.requested_va ≡ va
  pub in_image : (map.loaded_base ≤ va) × (va < map.loaded_end)
  pub requested_offset : t.requested_rva ≡ (va - map.loaded_base) % 2 ^ 32
  pub leads : Leads map t.requested_rva t.redirection_hops t.resolved_rva
  pub few : t.redirection_hops ≤ map.redirection_count
  pub resolved : t.resolved_va ≡ map.loaded_base + t.resolved_rva
  pub in_space : t.resolved_va < 2 ^ 64
  pub terminal : IsTerminal map t.resolved_rva t.resolved_va t.kind

finish_lem :
    (rq rr v rva h : ℕ) (p : Status × Kind) (o : Option Target)
    → finish rq rr v rva h p ≡ (ok, o)
    → (k : Kind) × (p ≡ (ok, k))
      × (o
          ≡ some (record {
            requested_va = rq;
            resolved_va = v;
            requested_rva = rr;
            resolved_rva = rva;
            kind = k;
            redirection_hops = h;
          }))
unfolding finish
finish_lem rq rr v rva h (ok, k) o e = (k, refl, cc e)
finish_lem rq rr v rva h (_, k) o e = absurd (cc e)

pub add_u64_lem : (x y z : ℕ) → y < 2 ^ 64 → add_u64 x y ≡ some z → (z ≡ x + y) × (z < 2 ^ 64)
unfolding add_u64
add_u64_lem x y z bound e = elim (Bool-cases (ltb (2 ^ 64 - 1 - y) x)) [
  | inl over ↦ absurd (cc (rw over at e))
  | inr fits ↦
      let same : x + y ≡ z = cc (rw fits at e) in (omega (arith, same), ground (arith, same))
]

-- The destinations of the redirections are 32-bit words.
abbrev pub HasWords : TargetMap → Type 0
HasWords map =
    (rva : ℕ) (info : RvaInfo) (next : ℕ)
    → map.classify_rva rva ≡ some info
    → info.redirection ≡ some next
    → next < 2 ^ 32

Leads-lt :
    (map : TargetMap) (rva n end : ℕ)
    → HasWords map
    → rva < 2 ^ 32
    → Leads map rva n end
    → end < 2 ^ 32
Leads-lt map rva n end words small (stays info found last) = small
Leads-lt map rva n end words small (hops {next = next} {n = n'} info found more rest) =
    Leads-lt map next n' end words (words rva info next found more) rest

-- If the redirections lead to 32-bit addresses, `gem_arm64ec_target_resolve` that succeeds stores a
-- target: the end of all redirections from the requested address, which lies in the image, after at
-- most as many hops as the image has redirections, at an address that does not wrap around, in an
-- executable section, and aligned to 4 bytes unless it is x64 code.
pub resolve-Resolved :
    (map : TargetMap) (va : ℕ) (o : Option Target)
    → HasWords map
    → resolve map va ≡ (ok, o)
    → (t : Target) × (o ≡ some t) × Resolved map va t
unfolding resolve arrive
resolve-Resolved map va o words e =
    elim (Bool-cases (ltb va map.loaded_base || leb map.loaded_end va)) [
      | inl outside ↦ absurd (cc (rw (outside, resolve) at e))
      | inr inside ↦
          let rr = (va - map.loaded_base) % 2 ^ 32 in
          let e1 : arrive map va rr (follow map (map.redirection_count + 1) rr 0) ≡ (ok, o) =
            rw (inside, resolve) at e in
          elim (Option-cases (follow map (map.redirection_count + 1) rr 0)) [
            | inl lost ↦ absurd (cc (rw (lost, arrive) at e1))
            | inr ((rva, h), arrived) ↦
                let (n, total, few, leads) =
                  follow-Leads map (map.redirection_count + 1) rr 0 rva h arrived in
                let same : h ≡ n = omega (arith, total) in
                elim (Option-cases (add_u64 map.loaded_base rva)) [
                  | inl over ↦
                      let e2 : arrive map va rr (some (rva, h)) ≡ (ok, o) = rw arrived at e1 in
                      absurd (cc (rw (over, arrive) at e2))
                  | inr (v, sum) ↦
                      let e2 : arrive map va rr (some (rva, h)) ≡ (ok, o) = rw arrived at e1 in
                      let e3 : finish va rr v rva h (classify_terminal map rva v) ≡ (ok, o) =
                        rw (sum, arrive) at e2 in
                      let (k, classified, stored) =
                        finish_lem va rr v rva h (classify_terminal map rva v) o e3 in
                      let (resolved, in_space) =
                        add_u64_lem map.loaded_base rva v
                          (omega (arith, Leads-lt map rr n rva words (omega arith) leads)) sum in
                      (
                        _,
                        stored,
                        record {
                          requested = refl;
                          in_image = ground arith;
                          requested_offset = refl;
                          leads = rw same leads;
                          few = omega (arith, same, few);
                          resolved = resolved;
                          in_space = in_space;
                          terminal = classify_terminal-IsTerminal map rva v k classified;
                        },
                      )
                ]
          ]
    ]
