-- ===== src/Pe/Ensures.antt =====
-- Postconditions on the outcome of a function of src/gem/pe_arm64x.c: it does not fault, and what it
-- stores on success has the property.
use metal_sharp_wine_runtime.Prelude.{◌≡◌, refl, ◌≢◌, Bool, true, false, Option, none, some}
use metal_sharp_wine_runtime.Pe.{
  PeStatus, Attempt, done, failed, fault, ◌>>=◌, ◌>>◌, refuse_if, expect, fail_as,
}
use mathlib.Core.Path.{subst}

pub data Ensures {A : Type 0} (P : A → Type 0) : Attempt A → Type 0 where
  holds : {a : A} → P a → Ensures P (done a)
  refused : {e : PeStatus} → Ensures P (failed e)

module _ {A : Type 0} {P : A → Type 0} where
  pub Ensures-done : {r : Attempt A} {a : A} → Ensures P r → r ≡ done a → P a
  Ensures-done (holds h) e = subst P (cc) h
  Ensures-done refused e = absurd (cc e)

  pub Ensures-ne-fault : {r : Attempt A} → Ensures P r → r ≢ fault
  Ensures-ne-fault (holds h) e = cc
  Ensures-ne-fault refused e = cc

  pub Ensures-bind :
      {B : Type 0} {Q : B → Type 0} {r : Attempt A} {f : A → Attempt B}
      → Ensures P r
      → ((a : A) → P a → Ensures Q (f a))
      → Ensures Q (r >>= f)
  unfolding ◌>>=◌
  Ensures-bind (holds {a} h) k = k a h
  Ensures-bind refused k = refused

  pub Ensures-refuse_if :
      (b : Bool) (e : PeStatus) {r : Attempt A}
      → (b ≡ false → Ensures P r)
      → Ensures P (refuse_if b e >> r)
  unfolding ◌>>◌ refuse_if
  Ensures-refuse_if true e k = refused
  Ensures-refuse_if false e k = k refl

  pub Ensures-expect :
      {B : Type 0} (o : Option B) (e : PeStatus) {f : B → Attempt A}
      → ((b : B) → o ≡ some b → Ensures P (f b))
      → Ensures P (expect o e >>= f)
  unfolding ◌>>=◌ expect
  Ensures-expect none e k = refused
  Ensures-expect (some b) e k = k b refl

  pub Ensures-fail_as :
      (f : PeStatus → PeStatus) {r : Attempt A} → Ensures P r → Ensures P (fail_as f r)
  unfolding fail_as
  Ensures-fail_as f (holds h) = holds h
  Ensures-fail_as f refused = refused

  pub Ensures-weaken :
      {Q : A → Type 0} {r : Attempt A} → ((a : A) → P a → Q a) → Ensures P r → Ensures Q r
  Ensures-weaken w (holds {a} h) = holds (w a h)
  Ensures-weaken w refused = refused

pub Ensures-last :
    {P : Bool → Type 0} (b : Bool) (e : PeStatus) → (b ≡ false → P true) → Ensures P (refuse_if b e)
unfolding refuse_if
Ensures-last true e k = refused
Ensures-last false e k = holds (k refl)

pub Ensures-then :
    {A : Type 0} {P : Bool → Type 0} {Q : A → Type 0} {r : Attempt Bool} {k : Attempt A}
    → Ensures P r
    → ((b : Bool) → P b → Ensures Q k)
    → Ensures Q (r >> k)
unfolding ◌>>◌
Ensures-then h k = Ensures-bind h k
