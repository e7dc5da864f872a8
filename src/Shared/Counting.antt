-- ===== src/Shared/Counting.antt =====
-- `count` of a delegate: how many rows satisfy a test, as far as the services compare it with one.
use Prim.Native.Nat.{ℕ, suc, ◌≤◌}
use mathlib.Core.Path.{◌≡◌, refl, sym, ap, ◌∙◌}
use mathlib.Core.Logic.{◌≢◌, inl, inr}
use mathlib.Core.Bool.{Bool, true, false}
use mathlib.Core.Option.{Option, none, some}
use mathlib.Core.List.{List, [], ◌∷◌}
use native.Mathlib.Omega.{arith}
use agentest.Shared.Tests.{◌==◌, ==_iff, if◌then◌else◌, Bool-cases}
use agentest.Shared.Store.{Delegate}
use agentest.Shared.Memory.{Cells, has, look, id_rows}

pub record Counts (R : Type 0) (d : Delegate ℕ R ◌==◌) : Type 0 where
  pub count : d.Rows → (R → Bool) → ℕ
  -- Of two or more rows, one is not that of a given key.
  pub count-another :
      (t : d.Rows) (p : R → Bool) (k : ℕ)
      → 2 ≤ count t p
      → (j : ℕ) × (r : R) × (d.find t j ≡ some r) × (p r ≡ true) × (j ≢ k)
  pub another-count :
      (t : d.Rows) (p : R → Bool) (k j : ℕ) (q r : R)
      → d.find t k ≡ some q
      → p q ≡ true
      → d.find t j ≡ some r
      → p r ≡ true
      → j ≢ k
      → 2 ≤ count t p

module _ {R : Type 0} where
  abbrev pub sat : (R → Bool) → Option R → Bool
  sat p none = false
  sat p (some r) = p r

  abbrev pub count_keys : Cells ℕ R → (R → Bool) → List ℕ → ℕ
  count_keys t p [] = 0
  count_keys t p (k ∷ ks) =
      let rest = count_keys t p ks in
      if has ◌==◌ ks k then rest else if sat p (look ◌==◌ t k) then suc rest else rest

  -- A key with a row that satisfies the test.
  record Hit (t : Cells ℕ R) (p : R → Bool) (ks : List ℕ) : Type 0 where
    key : ℕ
    row : R
    stored : look ◌==◌ t key ≡ some row
    on : p row ≡ true
    listed : has ◌==◌ ks key ≡ true

  sat-some : (p : R → Bool) (o : Option R) → sat p o ≡ true → (r : R) × (o ≡ some r) × (p r ≡ true)
  sat-some p none h = absurd (cc h)
  sat-some p (some r) h = (r, refl, h)

  weaken_Hit : (t : Cells ℕ R) (p : R → Bool) (k : ℕ) (ks : List ℕ) → Hit t p ks → Hit t p (k ∷ ks)
  weaken_Hit t p k ks h = record {
    key = h.key;
    row = h.row;
    stored = h.stored;
    on = h.on;
    listed = ground (arith, h.listed);
  }

  here_Hit :
      (t : Cells ℕ R) (p : R → Bool) (k : ℕ) (ks : List ℕ)
      → sat p (look ◌==◌ t k) ≡ true
      → (h : Hit t p (k ∷ ks)) × (h.key ≡ k)
  here_Hit t p k ks h =
      let (r, e, on) = sat-some p (look ◌==◌ t k) h in
      (
        record {
          key = k;
          row = r;
          stored = e;
          on = on;
          listed = ground (arith, (==_iff k k).1 refl);
        },
        refl,
      )

  one_Hit : (t : Cells ℕ R) (p : R → Bool) (ks : List ℕ) → 1 ≤ count_keys t p ks → Hit t p ks
  one_Hit t p [] h = absurd (omega (arith, h))
  one_Hit t p (k ∷ ks) h = elim (Bool-cases (has ◌==◌ ks k)) [
    | inl again ↦ weaken_Hit t p k ks (one_Hit t p ks (rw again at h))
    | inr new ↦ elim (Bool-cases (sat p (look ◌==◌ t k))) [
      | inl on ↦ (here_Hit t p k ks on).0
      | inr off ↦ weaken_Hit t p k ks (one_Hit t p ks (rw (new, off) at h))
    ]
  ]

  other_Hit :
      (t : Cells ℕ R) (p : R → Bool) (ks : List ℕ) (k : ℕ)
      → 2 ≤ count_keys t p ks
      → (h : Hit t p ks) × (h.key ≢ k)
  unfolding weaken_Hit
  other_Hit t p [] k h = absurd (omega (arith, h))
  other_Hit t p (j ∷ ks) k h = elim (Bool-cases (has ◌==◌ ks j)) [
    | inl again ↦ let (q, n) = other_Hit t p ks k (rw again at h) in (weaken_Hit t p j ks q, n)
    | inr new ↦ elim (Bool-cases (sat p (look ◌==◌ t j))) [
      | inr off ↦ let (q, n) = other_Hit t p ks k (rw (new, off) at h) in (weaken_Hit t p j ks q, n)
      | inl on ↦ elim (Bool-cases (j == k)) [
        | inr apart ↦
            let (q, e) = here_Hit t p j ks on in
            (q, λ same. cc (apart, (==_iff j k).1 (sym e ∙ same)))
        | inl same ↦
            let more : 2 ≤ suc (count_keys t p ks) = rw (new, on) at h in
            let q = one_Hit t p ks (omega (arith, more)) in
            (
              weaken_Hit t p j ks q,
              λ e. cc (q.listed, new, ap (has ◌==◌ ks) (e ∙ sym ((==_iff j k).0 same))),
            )
      ]
    ]
  ]

  count_one :
      (t : Cells ℕ R) (p : R → Bool) (ks : List ℕ) (k : ℕ)
      → has ◌==◌ ks k ≡ true
      → sat p (look ◌==◌ t k) ≡ true
      → 1 ≤ count_keys t p ks
  count_one t p [] k h on = absurd (cc h)
  count_one t p (j ∷ ks) k h on = elim (Bool-cases (has ◌==◌ ks k)) [
    | inl later ↦ let rest = count_one t p ks k later on in ground (arith, rest)
    | inr here ↦
        let same : j ≡ k = (==_iff j k).0 (ground (arith, h, here)) in
        let new : has ◌==◌ ks j ≡ false = ap (has ◌==◌ ks) same ∙ here in
        let at : sat p (look ◌==◌ t j) ≡ true = ap (λ i. sat p (look ◌==◌ t i)) same ∙ on in
        rw (new, at) (omega arith)
  ]

  -- The head that counts, before one that counts.
  head_counts :
      (t : Cells ℕ R) (p : R → Bool) (i : ℕ) (ks : List ℕ) (k : ℕ)
      → has ◌==◌ (i ∷ ks) k ≡ true
      → has ◌==◌ ks k ≡ false
      → sat p (look ◌==◌ t k) ≡ true
      → 1 ≤ count_keys t p ks
      → 2 ≤ count_keys t p (i ∷ ks)
  head_counts t p i ks k h here on rest =
      let same : i ≡ k = (==_iff i k).0 (ground (arith, h, here)) in
      let new : has ◌==◌ ks i ≡ false = ap (has ◌==◌ ks) same ∙ here in
      let at : sat p (look ◌==◌ t i) ≡ true = ap (λ j. sat p (look ◌==◌ t j)) same ∙ on in
      rw (new, at) (omega (arith, rest))

  pub count_two :
      (t : Cells ℕ R) (p : R → Bool) (ks : List ℕ) (k j : ℕ)
      → has ◌==◌ ks k ≡ true
      → sat p (look ◌==◌ t k) ≡ true
      → has ◌==◌ ks j ≡ true
      → sat p (look ◌==◌ t j) ≡ true
      → j ≢ k
      → 2 ≤ count_keys t p ks
  count_two t p [] k j h on g at apart = absurd (cc h)
  count_two t p (i ∷ ks) k j h on g at apart = elim (Bool-cases (has ◌==◌ ks k)) [
    | inl k_later ↦ elim (Bool-cases (has ◌==◌ ks j)) [
      | inl j_later ↦
          let rest = count_two t p ks k j k_later on j_later at apart in ground (arith, rest)
      | inr j_here ↦ head_counts t p i ks j g j_here at (count_one t p ks k k_later on)
    ]
    | inr k_here ↦ elim (Bool-cases (has ◌==◌ ks j)) [
      | inl j_later ↦ head_counts t p i ks k h k_here on (count_one t p ks j j_later at)
      | inr j_here ↦
          let a : i ≡ k = (==_iff i k).0 (ground (arith, h, k_here)) in
          let b : i ≡ j = (==_iff i j).0 (ground (arith, g, j_here)) in absurd (apart (sym b ∙ a))
    ]
  ]

  pub look-listed :
      (t : Cells ℕ R) (k : ℕ) (r : R) → look ◌==◌ t k ≡ some r → has ◌==◌ t.keys k ≡ true
  look-listed t k r e = ground arith

  pub cells-another :
      (t : Cells ℕ R) (p : R → Bool) (k : ℕ)
      → 2 ≤ count_keys t p t.keys
      → (j : ℕ) × (r : R) × (look ◌==◌ t j ≡ some r) × (p r ≡ true) × (j ≢ k)
  cells-another t p k h = let (q, n) = other_Hit t p t.keys k h in (q.key, q.row, q.stored, q.on, n)

  unfoldable pub id_counts : Counts R (id_rows R)
  unfolding id_rows
  id_counts = record {
    count = λ t p. count_keys t p t.keys;
    count-another = cells-another;
    another-count = λ t p k j q r e on f at apart.
        count_two t p t.keys k j (look-listed t k q e) (ap (sat p) e ∙ on) (look-listed t j r f)
          (ap (sat p) f ∙ at) apart;
  }
