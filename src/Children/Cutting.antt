-- ===== src/Children/Cutting.antt =====
-- Lists of rows and of items without those of an id.
use agentest.Shared.{
  ℕ, suc, ◌≡◌, refl, sym, ap, ◌∙◌, inl, inr, true, false, List, [], ◌∷◌, map, arith, ◌==◌, In,
  if◌then◌else◌, Bool-cases, Strict,
}
use agentest.Children.{Child, child_id, by_key, all_different}
use agentest.Children.Outline.{Item, item_id, numbered}
use agentest.Children.Operations.{has_item, without}

-- The rows without that of an id.
abbrev pub rows_without : ℕ → List Child → List Child
rows_without id [] = []
rows_without id (r ∷ rs) = let rest = rows_without id rs in if r.id == id then rest else r ∷ rest

pub In-rows_without :
    (id : ℕ) (rs : List Child) (r : Child)
    → In r (rows_without id rs)
    → In r rs × ((r.id == id) ≡ false)
In-rows_without id [] r m = absurd m
In-rows_without id (q ∷ rs) r m = elim (Bool-cases (q.id == id)) [
  | inl here ↦ let (n, off) = In-rows_without id rs r (rw here at m) in (inr n, off)
  | inr there ↦ elim (rw there at m) [
    | inl e ↦ (inl e, rw e there)
    | inr n ↦ let (k, off) = In-rows_without id rs r n in (inr k, off)
  ]
]

pub rows_without-In :
    (id : ℕ) (rs : List Child) (r : Child)
    → In r rs
    → (r.id == id) ≡ false
    → In r (rows_without id rs)
rows_without-In id [] r m off = absurd m
rows_without-In id (q ∷ rs) r (inl e) off =
    let there : (q.id == id) ≡ false = ap (λ y. y.id == id) (sym e) ∙ off in rw there (inl e)
rows_without-In id (q ∷ rs) r (inr n) off =
    let rest = rows_without-In id rs r n off in
    elim (Bool-cases (q.id == id)) [ inl here ↦ rw here rest | inr there ↦ rw there (inr rest) ]

pub rows_without-Strict :
    (id : ℕ) (rs : List Child) → Strict by_key rs → Strict by_key (rows_without id rs)
rows_without-Strict id [] s = tt
rows_without-Strict id (q ∷ rs) s =
    let rest = rows_without-Strict id rs s.1 in
    elim (Bool-cases (q.id == id)) [
      | inl here ↦ rw here rest
      | inr there ↦ rw there ((λ r m. s.0 r (In-rows_without id rs r m).0), rest)
    ]

pub ids-rows_without :
    (case index id : ℕ) (xs : List Item)
    → map child_id (rows_without id (numbered case index xs)) ≡ map item_id (without id xs)
ids-rows_without case index id [] = refl
ids-rows_without case index id (x ∷ xs) =
    let rest = ids-rows_without case (suc index) id xs in
    elim (Bool-cases (x.id == id)) [
      | inl here ↦ rw here rest
      | inr there ↦ rw there (ap (λ l. x.id ∷ l) rest)
    ]

pub In-without :
    (id : ℕ) (xs : List Item) (x : Item) → In x (without id xs) → In x xs × ((x.id == id) ≡ false)
In-without id [] x m = absurd m
In-without id (y ∷ xs) x m = elim (Bool-cases (y.id == id)) [
  | inl here ↦ let (n, off) = In-without id xs x (rw here at m) in (inr n, off)
  | inr there ↦ elim (rw there at m) [
    | inl e ↦ (inl e, rw e there)
    | inr n ↦ let (k, off) = In-without id xs x n in (inr k, off)
  ]
]

-- The ids that stay are those of the other items.
pub has_item-without :
    (id k : ℕ) (xs : List Item) → (k == id) ≡ false → has_item (without id xs) k ≡ has_item xs k
has_item-without id k [] off = refl
has_item-without id k (x ∷ xs) off =
    let rest = has_item-without id k xs off in
    elim (Bool-cases (x.id == id)) [
      | inl here ↦
          let apart : (x.id == k) ≡ false = ground (arith, off, here) in rw (here, apart) rest
      | inr there ↦ rw (there, rest) refl
    ]

pub has_item-without_le :
    (id k : ℕ) (xs : List Item) → has_item xs k ≡ false → has_item (without id xs) k ≡ false
has_item-without_le id k [] off = refl
has_item-without_le id k (x ∷ xs) off =
    let rest = has_item-without_le id k xs (ground (arith, off)) in
    elim (Bool-cases (x.id == id)) [
      | inl here ↦ rw here rest
      | inr there ↦ rw there (ground (arith, off, rest))
    ]

pub without-distinct :
    (id : ℕ) (xs : List Item)
    → all_different (map item_id xs) ≡ true
    → all_different (map item_id (without id xs)) ≡ true
without-distinct id [] d = refl
without-distinct id (x ∷ xs) d =
    let rest = without-distinct id xs (ground (arith, d)) in
    let apart = has_item-without_le id x.id xs (ground (arith, d)) in
    elim (Bool-cases (x.id == id)) [
      | inl here ↦ rw here rest
      | inr there ↦ rw there (ground (arith, rest, apart))
    ]
