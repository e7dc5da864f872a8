-- ===== src/Children/Picking.antt =====
-- Lists of ids that cover an outline, and the items that they pick.
use agentest.Shared.{
  ℕ, suc, ◌≡◌, ◌<◌, refl, sym, subst, ap, inl, inr, true, false, List, [], ◌∷◌, map, arith, ◌==◌,
  ==_iff, ==_self, includes, In, if◌then◌else◌, Bool-cases, length, every,
}
use agentest.Children.{all_different, same_ids}
use agentest.Children.Outline.{Item, item_id}
use agentest.Children.Operations.{has_item, pick}

-- One occurrence less.
abbrev drop_one : ℕ → List ℕ → List ℕ
drop_one k [] = []
drop_one k (x ∷ xs) = let rest = drop_one k xs in if x == k then xs else x ∷ rest

drop_one-length :
    (k : ℕ) (xs : List ℕ) → includes xs k ≡ true → length xs ≡ suc (length (drop_one k xs))
drop_one-length k [] h = absurd (cc h)
drop_one-length k (x ∷ xs) h = elim (Bool-cases (x == k)) [
  | inl here ↦ rw here refl
  | inr there ↦ let rest = drop_one-length k xs (ground (arith, h, there)) in rw there (ap suc rest)
]

drop_one-includes :
    (k j : ℕ) (xs : List ℕ)
    → includes xs j ≡ true
    → (k == j) ≡ false
    → includes (drop_one k xs) j ≡ true
drop_one-includes k j [] h off = h
drop_one-includes k j (x ∷ xs) h off = elim (Bool-cases (x == k)) [
  | inl here ↦
      let apart : (x == j) ≡ false = ground (arith, here, off) in rw here (ground (arith, h, apart))
  | inr there ↦ elim (Bool-cases (x == j)) [
    | inl e ↦ rw there (ground (arith, e))
    | inr n ↦
        let rest = drop_one-includes k j xs (ground (arith, h, n)) off in
        rw there (ground (arith, n, rest))
  ]
]

every-drop_one :
    (k : ℕ) (base ids : List ℕ)
    → every (includes base) ids ≡ true
    → includes ids k ≡ false
    → every (includes (drop_one k base)) ids ≡ true
every-drop_one k base [] h off = refl
every-drop_one k base (x ∷ xs) h off =
    let rest = every-drop_one k base xs (ground (arith, h)) (ground (arith, off)) in
    let apart : (k == x) ≡ false = ground (arith, off) in
    let here = drop_one-includes k x base (ground (arith, h)) apart in ground (arith, rest, here)

-- Distinct ids of a list that leave one of it out are fewer.
fewer :
    (base ids : List ℕ) (k : ℕ)
    → all_different ids ≡ true
    → every (includes base) ids ≡ true
    → includes base k ≡ true
    → includes ids k ≡ false
    → length ids < length base
fewer base [] k d s has off = let e = drop_one-length k base has in omega (arith, e)
fewer base (x ∷ ids) k d s has off =
    let e = drop_one-length x base (ground (arith, s)) in
    let apart : (x == k) ≡ false = ground (arith, off) in
    let rest =
      fewer (drop_one x base) ids k (ground (arith, d))
        (every-drop_one x base ids (ground (arith, s)) (ground (arith, d)))
        (drop_one-includes x k base has apart) (ground (arith, off)) in
    omega (arith, e, rest)

-- As many of them cover the list.
pub covers :
    (base ids : List ℕ) (k : ℕ)
    → all_different ids ≡ true
    → length ids ≡ length base
    → every (includes base) ids ≡ true
    → includes base k ≡ true
    → includes ids k ≡ true
covers base ids k d l s has = elim (Bool-cases (includes ids k)) [
  | inl on ↦ on
  | inr off ↦ let h = fewer base ids k d s has off in absurd (omega (arith, h, l))
]

pub pick_id : (xs : List Item) (id : ℕ) → (pick xs id).id ≡ id
pick_id [] id = refl
pick_id (x ∷ xs) id =
    let rest = pick_id xs id in
    elim (Bool-cases (x.id == id)) [
      | inl here ↦ rw here ((==_iff x.id id).0 here)
      | inr there ↦ rw there rest
    ]

pub pick-In : (xs : List Item) (id : ℕ) → has_item xs id ≡ true → In (pick xs id) xs
pick-In [] id h = absurd (cc h)
pick-In (x ∷ xs) id h = elim (Bool-cases (x.id == id)) [
  | inl here ↦ rw here (inl refl)
  | inr there ↦
      let e : pick (x ∷ xs) id ≡ pick xs id = rw there refl in
      subst (λ y. In y (x ∷ xs)) (sym e) (inr (pick-In xs id (ground (arith, h, there))))
]

pub ids-pick : (xs : List Item) (ids : List ℕ) → map item_id (map (pick xs) ids) ≡ ids
ids-pick xs [] = refl
ids-pick xs (id ∷ ids) = rw (pick_id xs id, ids-pick xs ids) refl

-- A picked item of a list of ids that the outline has.
pub In-pick :
    (xs : List Item) (ids : List ℕ)
    → every (includes (map item_id xs)) ids ≡ true
    → (x : Item) → In x (map (pick xs) ids)
    → In x xs
In-pick xs [] s x m = absurd m
In-pick xs (id ∷ ids) s x (inl e) = rw e (pick-In xs id (ground (arith, s)))
In-pick xs (id ∷ ids) s x (inr n) = In-pick xs ids (ground (arith, s)) x n

pick-later :
    (x : Item) (xs : List Item) (ids : List ℕ)
    → includes ids x.id ≡ false
    → map (pick (x ∷ xs)) ids ≡ map (pick xs) ids
pick-later x xs [] off = refl
pick-later x xs (id ∷ ids) off =
    let rest = pick-later x xs ids (ground (arith, off)) in
    let apart : (x.id == id) ≡ false = ground (arith, off) in rw (apart, rest) refl

-- The order that the outline has arranges nothing.
pub pick_all :
    (xs : List Item) → all_different (map item_id xs) ≡ true → map (pick xs) (map item_id xs) ≡ xs
pick_all [] d = refl
pick_all (x ∷ xs) d =
    let rest = pick_all xs (ground (arith, d)) in
    let later = pick-later x xs (map item_id xs) (ground (arith, d)) in
    rw (==_self x.id, later, rest) refl

pub same_ids_eq : (xs ys : List ℕ) → length ys ≡ length xs → same_ids xs ys ≡ true → xs ≡ ys
same_ids_eq [] [] l h = refl
same_ids_eq [] (y ∷ ys) l h = absurd (omega (arith, l))
same_ids_eq (x ∷ xs) [] l h = absurd (cc h)
same_ids_eq (x ∷ xs) (y ∷ ys) l h =
    let rest = same_ids_eq xs ys (omega (arith, l)) (ground (arith, h)) in
    let e : x ≡ y = ground (arith, h) in rw (e, rest) refl
