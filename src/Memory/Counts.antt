-- ===== src/Memory/Counts.antt =====
-- src/gem/memory.c: the references to backings, counted. A backing is freed when its last
-- reference is dropped, never before, and no reference is left to a freed one.
use metal_sharp_wine_runtime.Prelude.{
  ℕ, zero, suc, ◌+◌, ◌-◌, ◌≤◌, ◌<◌, ◌≡◌, refl, ap, sym, ◌∙◌, false, Option, none, some, List, [],
  ◌∷◌, ◌==◌, if◌then◌else◌, leb, leb→le, arith, Bool-cases, Option-cases, ==-eq, ==_refl, inl, inr,
}
use metal_sharp_wine_runtime.Memory.{Backing, Page, Memory}
use metal_sharp_wine_runtime.Memory.Table.{set_page}
use metal_sharp_wine_runtime.Memory.Backings.{put_backing, drop_backing, drop, released}

-- 1 if the page stands on the backing, else 0.
unfoldable pub points_at : ℕ → Option ℕ → ℕ
points_at id none = 0
points_at id (some j) = if j == id then 1 else 0

-- The number of pages that stand on a backing.
unfoldable pub count : ℕ → List Page → ℕ
unfolding points_at
count id [] = 0
count id (p ∷ ps) = points_at id p.backing + count id ps

abbrev pub refs_of : Option Backing → ℕ
refs_of none = 0
refs_of (some b) = b.refs

-- Each backing has the references that are owed to it, a live one has some, and the numbers that
-- are still to be given out are unused.
pub record Balanced (owed : ℕ → ℕ) (m : Memory) : Type 0 where
  pub refs : (id : ℕ) → refs_of (m.backings id) ≡ owed id
  pub live : (id : ℕ) (b : Backing) → m.backings id ≡ some b → 0 < b.refs
  pub unused : (id : ℕ) → m.next_backing ≤ id → m.backings id ≡ none

pub Balanced-cong :
    (owed owed' : ℕ → ℕ) (m : Memory)
    → ((id : ℕ) → owed id ≡ owed' id)
    → Balanced owed m
    → Balanced owed' m
Balanced-cong owed owed' m same h = record {
  refs = λ id. h.refs id ∙ same id;
  live = h.live;
  unused = h.unused;
}

-- Only what is owed is read of the backings, so other fields may change.
pub Balanced-pages :
    (owed : ℕ → ℕ) (m : Memory) (ps : List Page) (g : ℕ)
    → Balanced owed m
    → Balanced owed (record m { pages = ps; next_generation = g })
Balanced-pages owed m ps g h = record { refs = h.refs; live = h.live; unused = h.unused }

abbrev less_one : ℕ → (ℕ → ℕ) → ℕ → ℕ
less_one id owed j = if j == id then owed j - 1 else owed j

-- A state after a drop: only the backings differ.
pub record Dropped (owed : ℕ → ℕ) (m : Memory) (r : Option (Unit {0} × Memory)) : Type 0 where
  pub backings : ℕ → Option Backing
  pub runs : r ≡ some (tt, record m { backings = backings })
  pub balanced : Balanced owed (record m { backings = backings })

owed_some :
    (owed : ℕ → ℕ) (m : Memory) (id : ℕ)
    → Balanced owed m
    → 0 < owed id
    → (b : Backing) × (m.backings id ≡ some b) × (b.refs ≡ owed id)
owed_some owed m id h some_owed = elim (Option-cases (m.backings id)) [
  | inl gone ↦ absurd (omega (arith, h.refs id, ap refs_of gone))
  | inr (b, found) ↦ (b, found, sym (ap refs_of found) ∙ h.refs id)
]

refs-released : (b : Backing) (r : ℕ) → 0 < r → refs_of (released b r) ≡ r - 1
unfolding released
refs-released b zero h = absurd (omega arith)
refs-released b (suc zero) h = omega arith
refs-released b (suc (suc r)) h = omega arith

released_live : (b b' : Backing) (r : ℕ) → released b r ≡ some b' → 0 < b'.refs
unfolding released
released_live b b' zero e = ground arith
released_live b b' (suc zero) e = cc
released_live b b' (suc (suc r)) e = ground arith

-- Putting a value for one backing, of as many references as are then owed to it.
Balanced-put_backing :
    (owed owed' : ℕ → ℕ) (m : Memory) (id : ℕ) (o : Option Backing)
    → Balanced owed m
    → id < m.next_backing
    → refs_of o ≡ owed' id
    → ((b : Backing) → o ≡ some b → 0 < b.refs)
    → ((j : ℕ) → (j == id) ≡ false → owed' j ≡ owed j)
    → Balanced owed' (put_backing id o m)
unfolding put_backing
Balanced-put_backing owed owed' m id o h known refs live others = record {
  refs = λ j. elim (Bool-cases (j == id)) [
    | inl here ↦ rw here (refs ∙ ap owed' (sym (==-eq j id here)))
    | inr there ↦ rw there (h.refs j ∙ sym (others j there))
  ];
  live = λ j b e. elim (Bool-cases (j == id)) [
    | inl here ↦ live b (rw here at e)
    | inr there ↦ h.live j b (rw there at e)
  ];
  unused = λ j past. elim (Bool-cases (j == id)) [
    | inl here ↦ absurd (omega (arith, ==-eq j id here))
    | inr there ↦ rw there (h.unused j past)
  ];
}

known_of_owed :
    (owed : ℕ → ℕ) (m : Memory) (id : ℕ) → Balanced owed m → 0 < owed id → id < m.next_backing
known_of_owed owed m id h some_owed = elim (Bool-cases (leb m.next_backing id)) [
  | inl past ↦
      absurd (omega (arith, h.refs id, ap refs_of (h.unused id (leb→le m.next_backing id past))))
  | inr known ↦ ground arith
]

drop_backing-Dropped :
    (owed : ℕ → ℕ) (m : Memory) (id : ℕ)
    → Balanced owed m
    → 0 < owed id
    → Dropped (less_one id owed) m (drop_backing id m)
unfolding drop_backing put_backing
drop_backing-Dropped owed m id h some_owed =
    let (b, found, counted) = owed_some owed m id h some_owed in
    record {
      backings = (put_backing id (released b b.refs) m).backings;
      runs = rw (found, drop_backing) refl;
      balanced =
          Balanced-put_backing owed (less_one id owed) m id (released b b.refs) h
            (known_of_owed owed m id h some_owed)
            (refs-released b b.refs (omega arith) ∙ rw ==_refl (ap (λ r. r - 1) counted))
            (λ b' e. released_live b b' b.refs e) (λ j there. rw there refl);
    }

-- `drop` of what a page points to takes one reference away; of a null pointer, none.
pub drop-Dropped :
    (owed owed' : ℕ → ℕ) (m : Memory) (o : Option ℕ)
    → ((id : ℕ) → owed id ≡ points_at id o + owed' id)
    → Balanced owed m
    → Dropped owed' m (drop o m)
unfolding drop points_at
drop-Dropped owed owed' m none split h = record {
  backings = m.backings;
  runs = refl;
  balanced = Balanced-cong owed owed' m (λ id. omega (arith, split id)) h;
}
drop-Dropped owed owed' m (some id) split h =
    let first : 0 < owed id = ground (arith, split id) in
    let d = drop_backing-Dropped owed m id h first in
    record {
      backings = d.backings;
      runs = d.runs;
      balanced =
          Balanced-cong (less_one id owed) owed' (record m { backings = d.backings })
            (λ j. ground (arith, split j)) d.balanced;
    }

abbrev pub KeepsBacking : (Page → Page) → Type 0
KeepsBacking f = (p : Page) → (f p).backing ≡ p.backing

-- An assignment that leaves the backing alone leaves the counts alone.
pub count-set_page :
    (id a : ℕ) (f : Page → Page) (ps : List Page)
    → KeepsBacking f
    → count id (set_page a f ps) ≡ count id ps
unfolding count set_page
count-set_page id a f [] keeps = refl
count-set_page id a f (p ∷ ps) keeps = elim (Bool-cases (p.address == a)) [
  | inl here ↦ rw here (ap (λ b. points_at id b + count id ps) (keeps p))
  | inr there ↦ rw there (ap (λ c. points_at id p.backing + c) (count-set_page id a f ps keeps))
]
