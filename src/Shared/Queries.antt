-- ===== src/Shared/Queries.antt =====
-- The queries of a delegate that sort: `findMany` with `orderBy`, and `findFirst` with the
-- descending order. `lt` compares rows by the sorted column, `id` is the column of the key.
use Prim.Native.Nat.{ℕ}
use mathlib.Core.Path.{◌≡◌, refl, sym, ap, ◌∙◌}
use mathlib.Core.Logic.{inl, inr}
use mathlib.Core.Bool.{Bool, true, false}
use mathlib.Core.Option.{Option, none, some}
use mathlib.Core.List.{List, [], ◌∷◌}
use native.Mathlib.Omega.{arith}
use agentest.Shared.Tests.{◌==◌, ==_iff, if◌then◌else◌, Bool-cases, Option-cases}
use agentest.Shared.Store.{Delegate}
use agentest.Shared.Memory.{Cells, has, look, id_rows}
use agentest.Shared.Sorting.{
  In, Sorted, Distinct, insert, sort, In-sort, sort-In, sort-Distinct, sort-Sorted,
}

pub record Listing (R : Type 0) (lt : R → R → Bool) (id : R → ℕ) (d : Delegate ℕ R ◌==◌)
    : Type 0 where
  pub find_many : d.Rows → (R → Bool) → List R
  pub find_last : d.Rows → (R → Bool) → Option R
  pub In-find_many :
      (t : d.Rows) (p : R → Bool) (r : R)
      → In r (find_many t p)
      → (p r ≡ true) × (k : ℕ) × (d.find t k ≡ some r)
  pub find_many-In :
      (t : d.Rows) (p : R → Bool) (k : ℕ) (r : R)
      → d.find t k ≡ some r
      → p r ≡ true
      → In r (find_many t p)
  pub find_many-Sorted : (t : d.Rows) (p : R → Bool) → Sorted lt (find_many t p)
  pub find_many-Distinct :
      (t : d.Rows) (p : R → Bool)
      → ((k : ℕ) (r : R) → d.find t k ≡ some r → id r ≡ k)
      → Distinct id (find_many t p)
  pub find_last-none :
      (t : d.Rows) (p : R → Bool) (k : ℕ) (r : R)
      → find_last t p ≡ none
      → d.find t k ≡ some r
      → p r ≡ false
  pub find_last-some :
      (t : d.Rows) (p : R → Bool) (r : R)
      → find_last t p ≡ some r
      → (p r ≡ true) × (k : ℕ) × (d.find t k ≡ some r)
  pub find_last-greatest :
      (t : d.Rows) (p : R → Bool) (k : ℕ) (r s : R)
      → find_last t p ≡ some r
      → d.find t k ≡ some s
      → p s ≡ true
      → lt r s ≡ false

-- The tables in memory answer these queries.
module _ {R : Type 0} (lt : R → R → Bool) (id : R → ℕ) where
  abbrev pub keep : (R → Bool) → Option R → List R → List R
  keep p none rest = rest
  keep p (some r) rest = if p r then r ∷ rest else rest

  -- The rows under the keys, each key once.
  pub pull : Cells ℕ R → (R → Bool) → List ℕ → List R
  pull t p [] = []
  pull t p (k ∷ ks) =
      let rest = pull t p ks in if has ◌==◌ ks k then rest else keep p (look ◌==◌ t k) rest

  keep-In : (p : R → Bool) (o : Option R) (r : R) (rest : List R) → In r rest → In r (keep p o rest)
  keep-In p none r rest n = n
  keep-In p (some s) r rest n = elim (Bool-cases (p s)) [
    | inl on ↦ rw on (inr n)
    | inr off ↦ rw off n
  ]

  -- What stands behind a row that was pulled.
  record Pulled (t : Cells ℕ R) (p : R → Bool) (ks : List ℕ) (r : R) : Type 0 where
    on : p r ≡ true
    key : ℕ
    stored : look ◌==◌ t key ≡ some r
    listed : has ◌==◌ ks key ≡ true

  Pulled-cons :
      (t : Cells ℕ R) (p : R → Bool) (k : ℕ) (ks : List ℕ) (r : R)
      → Pulled t p ks r
      → Pulled t p (k ∷ ks) r
  Pulled-cons t p k ks r h = record {
    on = h.on;
    key = h.key;
    stored = h.stored;
    listed = ground (arith, h.listed);
  }

  In-pull :
      (t : Cells ℕ R) (p : R → Bool) (ks : List ℕ) (r : R) → In r (pull t p ks) → Pulled t p ks r
  unfolding pull
  In-pull t p [] r m = absurd m
  In-pull t p (k ∷ ks) r m =
      let later = λ (n : In r (pull t p ks)). Pulled-cons t p k ks r (In-pull t p ks r n) in
      elim (Bool-cases (has ◌==◌ ks k)) [
        | inl again ↦ later (rw again at m)
        | inr new ↦ elim (Option-cases (look ◌==◌ t k)) [
          | inl e ↦ later (rw (new, e) at m)
          | inr (s, e) ↦ elim (Bool-cases (p s)) [
            | inr off ↦ later (rw (new, e, off) at m)
            | inl on ↦ elim (rw (new, e, on) at m) [
              | inr n ↦ later n
              | inl same ↦ record {
                on = ap p same ∙ on;
                key = k;
                stored = e ∙ ap some (sym same);
                listed = ground (arith, (==_iff k k).1 refl);
              }
            ]
          ]
        ]
      ]

  pull-In :
      (t : Cells ℕ R) (p : R → Bool) (ks : List ℕ) (k : ℕ) (r : R)
      → look ◌==◌ t k ≡ some r
      → p r ≡ true
      → has ◌==◌ ks k ≡ true
      → In r (pull t p ks)
  unfolding pull
  pull-In t p [] k r e on h = cc
  pull-In t p (j ∷ ks) k r e on h = elim (Bool-cases (has ◌==◌ ks k)) [
    | inl later ↦
        let n = pull-In t p ks k r e on later in
        elim (Bool-cases (has ◌==◌ ks j)) [
          | inl again ↦ rw again n
          | inr new ↦ rw new (keep-In p (look ◌==◌ t j) r (pull t p ks) n)
        ]
    | inr here ↦
        let same : j ≡ k = (==_iff j k).0 (ground (arith, h, here)) in
        rw (same, here, e, on) (inl refl)
  ]

  pub pull-Distinct :
      (t : Cells ℕ R) (p : R → Bool) (ks : List ℕ)
      → ((k : ℕ) (r : R) → look ◌==◌ t k ≡ some r → id r ≡ k)
      → Distinct id (pull t p ks)
  unfolding pull
  pull-Distinct t p [] keyed = tt
  pull-Distinct t p (k ∷ ks) keyed =
      let rest = pull-Distinct t p ks keyed in
      elim (Bool-cases (has ◌==◌ ks k)) [
        | inl again ↦ rw again rest
        | inr new ↦ elim (Option-cases (look ◌==◌ t k)) [
          | inl e ↦ rw (new, e) rest
          | inr (s, e) ↦ elim (Bool-cases (p s)) [
            | inr off ↦ rw (new, e, off) rest
            | inl on ↦
                rw (new, e, on)
                  (
                    (λ y m same.
                        let h = In-pull t p ks y m in
                        let j : h.key ≡ k = sym (keyed h.key y h.stored) ∙ sym same ∙ keyed k s e in
                        cc (h.listed, new, ap (λ i. has ◌==◌ ks i) j)),
                    rest,
                  )
          ]
        ]
      ]

  abbrev pub last_of : List R → Option R
  last_of [] = none
  last_of (x ∷ []) = some x
  last_of (x ∷ y ∷ ys) = last_of (y ∷ ys)

  last_of-none : (xs : List R) (r : R) → last_of xs ≡ none → In r xs → ⊥
  last_of-none [] r e m = m
  last_of-none (x ∷ []) r e m = cc
  last_of-none (x ∷ y ∷ ys) r e m = last_of-none (y ∷ ys) y e (inl refl)

  pub last_of-In : (xs : List R) (r : R) → last_of xs ≡ some r → In r xs
  last_of-In [] r e = cc
  last_of-In (x ∷ []) r e = inl (cc e)
  last_of-In (x ∷ y ∷ ys) r e = inr (last_of-In (y ∷ ys) r e)

  pub last_of-greatest :
      ((x : R) → lt x x ≡ false)
      → (xs : List R) (r s : R) → Sorted lt xs
      → last_of xs ≡ some r
      → In s xs
      → lt r s ≡ false
  last_of-greatest irrefl [] r s so e m = absurd m
  last_of-greatest irrefl (x ∷ []) r s so e m = elim m [
    | inl same ↦ let h : x ≡ r = cc e in rw (same, h) (irrefl r)
    | inr n ↦ absurd n
  ]
  last_of-greatest irrefl (x ∷ y ∷ ys) r s so e m = elim m [
    | inl same ↦ rw same (so.0 r (last_of-In (y ∷ ys) r e))
    | inr n ↦ last_of-greatest irrefl (y ∷ ys) r s so.1 e n
  ]

  look-has : (t : Cells ℕ R) (k : ℕ) (r : R) → look ◌==◌ t k ≡ some r → has ◌==◌ t.keys k ≡ true
  look-has t k r e = ground arith

  module _ (irrefl : (x : R) → lt x x ≡ false) (asym : (x y : R) → lt x y ≡ true → lt y x ≡ false)
      (negative : (x y z : R) → lt x y ≡ false → lt y z ≡ false → lt x z ≡ false) where
    abbrev pub listed : Cells ℕ R → (R → Bool) → List R
    listed t p = sort lt (pull t p t.keys)

    pub In-listed :
        (t : Cells ℕ R) (p : R → Bool) (r : R)
        → In r (listed t p)
        → (p r ≡ true) × (k : ℕ) × (look ◌==◌ t k ≡ some r)
    In-listed t p r m =
        let h = In-pull t p t.keys r (In-sort lt r (pull t p t.keys) m) in (h.on, h.key, h.stored)

    pub listed-In :
        (t : Cells ℕ R) (p : R → Bool) (k : ℕ) (r : R)
        → look ◌==◌ t k ≡ some r
        → p r ≡ true
        → In r (listed t p)
    listed-In t p k r e on =
        sort-In lt r (pull t p t.keys) (pull-In t p t.keys k r e on (look-has t k r e))

    pub listed-last-none :
        (t : Cells ℕ R) (p : R → Bool) (k : ℕ) (r : R)
        → last_of (listed t p) ≡ none
        → look ◌==◌ t k ≡ some r
        → p r ≡ false
    listed-last-none t p k r n e = elim (Bool-cases (p r)) [
      | inl on ↦ absurd (last_of-none (listed t p) r n (listed-In t p k r e on))
      | inr off ↦ off
    ]

    unfoldable pub id_listing : Listing R lt id (id_rows R)
    unfolding id_rows pull sort insert
    id_listing = record {
      find_many = listed;
      find_last = λ t p. last_of (listed t p);
      In-find_many = In-listed;
      find_many-In = listed-In;
      find_many-Sorted = λ t p. sort-Sorted lt asym negative (pull t p t.keys);
      find_many-Distinct =
          λ t p keyed. sort-Distinct lt id (pull t p t.keys) (pull-Distinct t p t.keys keyed);
      find_last-none = listed-last-none;
      find_last-some = λ t p r e. In-listed t p r (last_of-In (listed t p) r e);
      find_last-greatest = λ t p k r s e f on.
          last_of-greatest irrefl (listed t p) r s (sort-Sorted lt asym negative (pull t p t.keys))
            e (listed-In t p k s f on);
    }
