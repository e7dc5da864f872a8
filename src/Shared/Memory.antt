-- ===== src/Shared/Memory.antt =====
-- A table in memory as a delegate: the listed keys, and a cell for each.
use mathlib.Core.Path.{◌≡◌, sym, ap, ◌∙◌}
use mathlib.Core.Bool.{Bool, true, false, ◌||◌}
use mathlib.Core.Logic.{inl, inr}
use mathlib.Core.List.{List, [], ◌∷◌}
use mathlib.Core.Option
use mathlib.Core.Option.{Option, none, some}
use native.Mathlib.Omega.{arith}
use Prim.Native.Nat.{ℕ}
use agentest.Shared.Tests.{◌==◌, ==_iff, Pair, same_pair, if◌then◌else◌, Bool-cases, Option-cases}
use agentest.Shared.Store.{Delegate, keep_if, not_that}

pub record Cells (K R : Type 0) : Type 0 where
  pub keys : List K
  pub cell : K → Option R

abbrev pub has : {K : Type 0} → (K → K → Bool) → List K → K → Bool
has same [] k = false
has same (j ∷ js) k = same j k || has same js k

module _ {K R : Type 0} (same : K → K → Bool) where
  abbrev pub look : Cells K R → K → Option R
  look t k = if has same t.keys k then t.cell k else none

  abbrev pub test : (R → Bool) → Option R → Option R → Option R
  test p none rest = rest
  test p (some r) rest = if p r then some r else rest

  abbrev pub scan : Cells K R → (R → Bool) → List K → Option R
  scan t p [] = none
  scan t p (k ∷ ks) = test p (look t k) (scan t p ks)

  pub scan-some :
      (t : Cells K R) (p : R → Bool) (ks : List K) (r : R)
      → scan t p ks ≡ some r
      → (p r ≡ true) × (k : K) × (look t k ≡ some r)
  scan-some t p [] r h = cc
  scan-some t p (k ∷ ks) r h = elim (Option-cases (look t k)) [
    | inl e ↦ scan-some t p ks r (rw e at h)
    | inr (q, e) ↦ elim (Bool-cases (p q)) [
      | inl y ↦
          let same : q ≡ r = ground (arith, e, y, h) in (ap p (sym same) ∙ y, k, e ∙ ap some same)
      | inr n ↦ scan-some t p ks r (rw (e, n) at h)
    ]
  ]

  module _ (same_iff : (a b : K) → same a b ≡ true → a ≡ b) where
    pub scan-none :
        (t : Cells K R) (p : R → Bool) (ks : List K) (k : K) (r : R)
        → scan t p ks ≡ none
        → has same ks k ≡ true
        → look t k ≡ some r
        → p r ≡ false
    scan-none t p [] k r h m e = cc
    scan-none t p (j ∷ ks) k r h m e = elim (Bool-cases (same j k)) [
      | inl y ↦ ground (arith, ap (look t) (same_iff j k y), h, e)
      | inr n ↦ scan-none t p ks k r (ground (arith, h)) (rw n at m) e
    ]

  abbrev pub cells_write : Cells K R → K → R → Cells K R
  cells_write t k r = record {
    keys = k ∷ t.keys;
    cell = λ j. if same k j then some r else look t j;
  }

  abbrev pub cells_erase : Cells K R → K → Cells K R
  cells_erase t k = record { keys = t.keys; cell = λ j. if same k j then none else t.cell j }

  abbrev pub cells_update : Cells K R → (R → Bool) → (R → R) → Cells K R
  cells_update t p f = record {
    keys = t.keys;
    cell = λ k. Option.map (λ r. if p r then f r else r) (t.cell k);
  }

  abbrev pub cells_delete : Cells K R → (R → Bool) → Cells K R
  cells_delete t p = record { keys = t.keys; cell = λ k. keep_if (not_that p) (t.cell k) }

  pub look-write :
      (t : Cells K R) (k j : K) (r : R)
      → look (cells_write t k r) j ≡ (if same k j then some r else look t j)
  look-write t k j r = ground arith

  pub look-erase :
      (t : Cells K R) (k j : K) → look (cells_erase t k) j ≡ (if same k j then none else look t j)
  look-erase t k j = ground arith

  pub look-update :
      (t : Cells K R) (p : R → Bool) (f : R → R) (k : K)
      → look (cells_update t p f) k ≡ Option.map (λ r. if p r then f r else r) (look t k)
  look-update t p f k = ground arith

  pub look-delete :
      (t : Cells K R) (p : R → Bool) (k : K)
      → look (cells_delete t p) k ≡ keep_if (not_that p) (look t k)
  look-delete t p k = ground arith

  look-has : (t : Cells K R) (k : K) (r : R) → look t k ≡ some r → has same t.keys k ≡ true
  look-has t k r e = ground arith

  module _ (same_iff : (a b : K) → same a b ≡ true → a ≡ b) where
    pub first-none :
        (t : Cells K R) (p : R → Bool) (k : K) (r : R)
        → scan t p t.keys ≡ none
        → look t k ≡ some r
        → p r ≡ false
    first-none t p k r n e = scan-none same_iff t p t.keys k r n (look-has t k r e) e

    unfoldable pub memory : Delegate K R same
    memory = record {
      Rows = Cells K R;
      find = look;
      write = cells_write;
      erase = cells_erase;
      find_first = λ t p. scan t p t.keys;
      update_many = cells_update;
      delete_many = cells_delete;
      find-write = look-write;
      find-erase = look-erase;
      find_first-some = λ t p r h. scan-some t p t.keys r h;
      find_first-none = first-none;
      find-update_many = look-update;
      find-delete_many = look-delete;
    }

pub same_pair_eq : (a b : Pair) → same_pair a b ≡ true → a ≡ b
same_pair_eq (a, b) (c, d) h = ground arith

unfoldable pub id_rows : (R : Type 0) → Delegate ℕ R ◌==◌
unfolding memory
id_rows R = memory ◌==◌ (λ a b. (==_iff a b).0)

unfoldable pub pair_rows : (R : Type 0) → Delegate Pair R same_pair
unfolding memory
pair_rows R = memory same_pair same_pair_eq
