-- ===== src/Shared/Sorting.antt =====
-- Lists in the order of a test, as a query with `orderBy` returns them: membership, order, no row
-- twice.
use Prim.Native.Nat.{ℕ}
use mathlib.Core.Path.{◌≡◌, refl, sym, ap, ◌∙◌}
use mathlib.Core.Logic.{◌≢◌, ◌⊎◌, inl, inr}
use mathlib.Core.Bool.{Bool, true, false}
use mathlib.Core.List.{List, [], ◌∷◌}
use native.Mathlib.Omega.{arith}
use agentest.Shared.Tests.{if◌then◌else◌, Bool-cases}

module _ {R : Type 0} where
  abbrev pub In : R → List R → Type 0
  In r [] = ⊥
  In r (x ∷ xs) = (r ≡ x) ⊎ In r xs

  -- No later row is before an earlier one.
  abbrev pub Sorted : (R → R → Bool) → List R → Type 0
  Sorted lt [] = Unit
  Sorted lt (x ∷ xs) = ((y : R) → In y xs → lt y x ≡ false) × Sorted lt xs

  abbrev pub Strict : (R → R → Bool) → List R → Type 0
  Strict lt [] = Unit
  Strict lt (x ∷ xs) = ((y : R) → In y xs → lt x y ≡ true) × Strict lt xs

  -- No two rows have one id.
  abbrev pub Distinct : (R → ℕ) → List R → Type 0
  Distinct id [] = Unit
  Distinct id (x ∷ xs) = ((y : R) → In y xs → id x ≢ id y) × Distinct id xs

  module _ (lt : R → R → Bool) (irrefl : (x : R) → lt x x ≡ false) (id : R → ℕ) where
    heads_eq :
        (x y : R) (xs ys : List R)
        → Sorted lt (x ∷ xs)
        → Strict lt (y ∷ ys)
        → In x (y ∷ ys)
        → In y (x ∷ xs)
        → x ≡ y
    heads_eq x y xs ys s t (inl e) q = e
    heads_eq x y xs ys s t (inr p) (inl e) = sym e
    heads_eq x y xs ys s t (inr p) (inr q) = absurd (ground (arith, s.0 y q, t.0 x p))

    pub Sorted-unique :
        (xs ys : List R)
        → Sorted lt xs
        → Distinct id xs
        → Strict lt ys
        → ((r : R) → In r xs → In r ys)
        → ((r : R) → In r ys → In r xs)
        → xs ≡ ys
    Sorted-unique [] [] s d t f g = refl
    Sorted-unique [] (y ∷ ys) s d t f g = absurd (g y (inl refl))
    Sorted-unique (x ∷ xs) [] s d t f g = absurd (f x (inl refl))
    Sorted-unique (x ∷ xs) (y ∷ ys) s d t f g =
        let e : x ≡ y = heads_eq x y xs ys s t (f x (inl refl)) (g y (inl refl)) in
        let rest =
          Sorted-unique xs ys s.1 d.1 t.1
            (λ r m. elim (f r (inr m)) [ inl h ↦ absurd (d.0 r m (ap id (e ∙ sym h))) | inr n ↦ n ])
            (λ r m. elim (g r (inr m)) [
              | inl h ↦ absurd (ground (arith, t.0 r m, irrefl y, h, e))
              | inr n ↦ n
            ]) in
        rw (e, rest)

  -- Sorting by insertion, with the laws that a query's answer has.
  module _ (lt : R → R → Bool) where
    unfoldable pub insert : R → List R → List R
    insert x [] = x ∷ []
    insert x (y ∷ ys) = let rest = insert x ys in if lt y x then y ∷ rest else x ∷ y ∷ ys

    unfoldable pub sort : List R → List R
    sort [] = []
    sort (x ∷ xs) = insert x (sort xs)

    In-insert : (x r : R) (ys : List R) → In r (insert x ys) → (r ≡ x) ⊎ In r ys
    unfolding insert
    In-insert x r [] m = m
    In-insert x r (y ∷ ys) m = elim (Bool-cases (lt y x)) [
      | inl before ↦ elim (rw before at m) [
        | inl e ↦ inr (inl e)
        | inr n ↦ elim (In-insert x r ys n) [ inl e ↦ inl e | inr k ↦ inr (inr k) ]
      ]
      | inr after ↦ rw after at m
    ]

    insert-In : (x r : R) (ys : List R) → (r ≡ x) ⊎ In r ys → In r (insert x ys)
    unfolding insert
    insert-In x r [] m = m
    insert-In x r (y ∷ ys) m = elim (Bool-cases (lt y x)) [
      | inr after ↦ rw after m
      | inl before ↦ rw before (elim m [
        | inl e ↦ inr (insert-In x r ys (inl e))
        | inr (inl e) ↦ inl e
        | inr (inr n) ↦ inr (insert-In x r ys (inr n))
      ])
    ]

    pub In-sort : (r : R) (xs : List R) → In r (sort xs) → In r xs
    unfolding sort
    In-sort r [] m = m
    In-sort r (x ∷ xs) m = elim (In-insert x r (sort xs) m) [
      | inl e ↦ inl e
      | inr n ↦ inr (In-sort r xs n)
    ]

    pub sort-In : (r : R) (xs : List R) → In r xs → In r (sort xs)
    unfolding sort
    sort-In r [] m = m
    sort-In r (x ∷ xs) (inl e) = insert-In x r (sort xs) (inl e)
    sort-In r (x ∷ xs) (inr n) = insert-In x r (sort xs) (inr (sort-In r xs n))

    insert-Distinct :
        (id : R → ℕ) (x : R) (ys : List R)
        → ((y : R) → In y ys → id x ≢ id y)
        → Distinct id ys
        → Distinct id (insert x ys)
    unfolding insert
    insert-Distinct id x [] f d = (f, tt)
    insert-Distinct id x (y ∷ ys) f d = elim (Bool-cases (lt y x)) [
      | inr after ↦ rw after (f, d)
      | inl before ↦ rw before (
        (λ z m. elim (In-insert x z ys m) [
          | inl e ↦ λ h. f y (inl refl) (ap id (sym e) ∙ sym h)
          | inr n ↦ d.0 z n
        ]),
        insert-Distinct id x ys (λ z m. f z (inr m)) d.1,
      )
    ]

    pub sort-Distinct : (id : R → ℕ) (xs : List R) → Distinct id xs → Distinct id (sort xs)
    unfolding sort
    sort-Distinct id [] d = tt
    sort-Distinct id (x ∷ xs) d =
        insert-Distinct id x (sort xs) (λ y m. d.0 y (In-sort y xs m)) (sort-Distinct id xs d.1)

    module _ (asym : (x y : R) → lt x y ≡ true → lt y x ≡ false)
        (negative : (x y z : R) → lt x y ≡ false → lt y z ≡ false → lt x z ≡ false) where
      insert-Sorted : (x : R) (ys : List R) → Sorted lt ys → Sorted lt (insert x ys)
      unfolding insert
      insert-Sorted x [] s = ((λ y m. absurd m), tt)
      insert-Sorted x (y ∷ ys) s = elim (Bool-cases (lt y x)) [
        | inr after ↦ rw after (
          (λ z m. elim m [
            | inl e ↦ ap (λ w. lt w x) e ∙ after
            | inr n ↦ negative z y x (s.0 z n) after
          ]),
          s,
        )
        | inl before ↦ rw before (
          (λ z m. elim (In-insert x z ys m) [
            | inl e ↦ ap (λ w. lt w y) e ∙ asym y x before
            | inr n ↦ s.0 z n
          ]),
          insert-Sorted x ys s.1,
        )
      ]

      pub sort-Sorted : (xs : List R) → Sorted lt (sort xs)
      unfolding sort
      sort-Sorted [] = tt
      sort-Sorted (x ∷ xs) = insert-Sorted x (sort xs) (sort-Sorted xs)
