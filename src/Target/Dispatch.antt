-- ===== src/Target/Dispatch.antt =====
-- src/gem/arm64ec_target.c: what `gem_arm64ec_checker_dispatch` answers and changes.
use metal_sharp_wine_runtime.Prelude.{
  ℕ, ◌≡◌, ◌≢◌, refl, sym, ◌∙◌, length, set, arith, length-set, get_or-set_same, get_or-set_other,
  Bool, true, false, ◌||◌, not, Option, none, some, ◌!=◌, if◌then◌else◌, get_or, Bool-cases, inl,
  inr,
}
use metal_sharp_wine_runtime.Context.{ThreadContext, is_valid, isa_arm64ec}
use metal_sharp_wine_runtime.Target.{
  Status, ok, Target, TargetMap, is_x64_boundary, is_ok, resolve, cfg_authorize, cross, cross_by,
  dispatch_to, checker_dispatch,
}
use metal_sharp_wine_runtime.Target.Resolution.{HasWords, resolve-Resolved}

-- The context after a call that crosses to x64 code: `x9` is what `x11` was, `x11` the address of the
-- exit thunk, and every other register and field as before.
pub record Crossed (c : ThreadContext) (thunk_va : ℕ) (c' : ThreadContext) : Type 0 where
  pub target_kept : get_or c'.x 9 0 ≡ get_or c.x 11 0
  pub thunk_given : get_or c'.x 11 0 ≡ thunk_va
  pub registers : (i : ℕ) → i ≢ 9 → i ≢ 11 → get_or c'.x i 0 ≡ get_or c.x i 0
  pub count : length c'.x ≡ length c.x
  pub fields : record c' { x = c.x } ≡ c

cross-Crossed :
    (c : ThreadContext) (thunk_va : ℕ) → length c.x ≡ 31 → Crossed c thunk_va (cross c thunk_va)
cross-Crossed c thunk_va many =
    let first = set c.x 9 (get_or c.x 11 0) in
    let same : length first ≡ length c.x = length-set c.x 9 (get_or c.x 11 0) in
    record {
      target_kept =
          get_or-set_other first 11 9 thunk_va 0 (λ e. omega (arith, e))
          ∙ get_or-set_same c.x 9 (get_or c.x 11 0) 0 (omega arith);
      thunk_given = get_or-set_same first 11 thunk_va 0 (omega arith);
      registers = λ i not9 not11.
          get_or-set_other first 11 i thunk_va 0 (λ e. not11 (sym e))
          ∙ get_or-set_other c.x 9 i (get_or c.x 11 0) 0 (λ e. not9 (sym e));
      count = length-set first 11 thunk_va ∙ same;
      fields = refl;
    }

-- What a dispatch answers: an error and nothing changed; a target of this instruction set and nothing
-- changed; or an x64 target, its address in `x9` and the exit thunk, which is no x64 code, in `x11`.
pub data Dispatched (map : TargetMap) (policy : Option (ℕ → Bool)) (require_cfg : Bool)
    (c : ThreadContext) : Status × ThreadContext × Option Target → Type 0 where
  denied : {s : Status} → s ≢ ok → Dispatched map policy require_cfg c (s, c, none)
  direct :
      (t : Target)
      → resolve map (get_or c.x 11 0) ≡ (ok, some t)
      → (require_cfg ≡ true → cfg_authorize policy (get_or c.x 11 0) ≡ ok)
      → is_x64_boundary t.kind ≡ false
      → Dispatched map policy require_cfg c (ok, c, some t)
  crossed :
      (t thunk : Target) {c' : ThreadContext}
      → resolve map (get_or c.x 11 0) ≡ (ok, some t)
      → (require_cfg ≡ true → cfg_authorize policy (get_or c.x 11 0) ≡ ok)
      → is_x64_boundary t.kind ≡ true
      → resolve map (get_or c.x 10 0) ≡ (ok, some thunk)
      → is_x64_boundary thunk.kind ≡ false
      → Crossed c thunk.resolved_va c'
      → Dispatched map policy require_cfg c (ok, c', some t)

is_ok-eq_ok : (s : Status) → is_ok s ≡ true → s ≡ ok
is_ok-eq_ok ok h = refl
is_ok-eq_ok _ h = absurd (cc h)

not_ok : (s : Status) → is_ok s ≡ false → s ≢ ok
not_ok s h e = absurd (cc (rw e at h))

module _ (map : TargetMap) (policy : Option (ℕ → Bool)) (require_cfg : Bool) (c : ThreadContext)
    (words : HasWords map) (many : length c.x ≡ 31) where
  cross_by-Dispatched :
      (t : Target) (r : Status × Option Target)
      → resolve map (get_or c.x 11 0) ≡ (ok, some t)
      → (require_cfg ≡ true → cfg_authorize policy (get_or c.x 11 0) ≡ ok)
      → is_x64_boundary t.kind ≡ true
      → resolve map (get_or c.x 10 0) ≡ r
      → Dispatched map policy require_cfg c (cross_by c t r)
  unfolding cross_by
  cross_by-Dispatched t (ok, some thunk) found permitted x64 exit =
      elim (Bool-cases (is_x64_boundary thunk.kind)) [
        | inl wrong ↦ rw wrong (denied (λ e. absurd (cc e)))
        | inr right ↦ rw right (
            crossed t thunk found permitted x64 exit right (cross-Crossed c thunk.resolved_va many))
      ]
  cross_by-Dispatched t (ok, none) found permitted x64 exit =
      absurd (cc (resolve-Resolved map (get_or c.x 10 0) none words exit).1)
  cross_by-Dispatched t (_, o) found permitted x64 exit = denied (λ e. absurd (cc e))

  dispatch_to-Dispatched :
      (r : Status × Option Target)
      → resolve map (get_or c.x 11 0) ≡ r
      → Dispatched map policy require_cfg c (dispatch_to map policy require_cfg c r)
  unfolding dispatch_to
  dispatch_to-Dispatched (ok, none) found =
      absurd (cc (resolve-Resolved map (get_or c.x 11 0) none words found).1)
  dispatch_to-Dispatched (ok, some t) found =
      let cfg : Status = if require_cfg then cfg_authorize policy (get_or c.x 11 0) else ok in
      elim (Bool-cases (is_ok cfg)) [
        | inr refused ↦ rw refused (denied (not_ok cfg refused))
        | inl fine ↦
            let permitted : require_cfg ≡ true → cfg_authorize policy (get_or c.x 11 0) ≡ ok =
              λ on. is_ok-eq_ok (cfg_authorize policy (get_or c.x 11 0)) (rw on at fine) in
            elim (Bool-cases (is_x64_boundary t.kind)) [
              | inl x64 ↦
                  rw (fine, x64)
                    (cross_by-Dispatched t (resolve map (get_or c.x 10 0)) found permitted x64 refl)
              | inr here ↦ rw (fine, here) (direct t found permitted here)
            ]
      ]
  dispatch_to-Dispatched (_, o) found = denied (λ e. absurd (cc e))

-- If the redirections lead to 32-bit addresses and the context has its 31 registers,
-- `gem_arm64ec_checker_dispatch` either fails with the context unchanged, or succeeds with a target
-- that is resolved, and that the policy authorizes when that is required. For a target that is no x64
-- code the context is unchanged. For x64 code `x10` resolves to an exit thunk, which is no x64 code;
-- `x9` becomes what `x11` was, `x11` the resolved address of the thunk, and all other registers and
-- fields are as before.
pub checker_dispatch-Dispatched :
    (map : TargetMap) (policy : Option (ℕ → Bool)) (require_cfg : Bool) (c : ThreadContext)
    → HasWords map
    → length c.x ≡ 31
    → Dispatched map policy require_cfg c (checker_dispatch map policy require_cfg c)
unfolding checker_dispatch
checker_dispatch-Dispatched map policy require_cfg c words many =
    elim (Bool-cases (not (is_valid (some c)) || c.isa != isa_arm64ec)) [
      | inl bad ↦ rw bad (denied (λ e. absurd (cc e)))
      | inr good ↦ rw good (
          dispatch_to-Dispatched map policy require_cfg c words many (resolve map (get_or c.x 11 0))
            refl)
    ]
