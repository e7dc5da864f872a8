-- ===== src/Children/Outline.antt =====
-- The abstract view of the children of a test case: a list of ids and contents. The table stands
-- for the outline if it has these rows, numbered by their positions, and no others.
use agentest.Shared.{
  ℕ, suc, ◌+◌, ◌≡◌, ◌≤◌, ◌<◌, ap, ◌∙◌, inl, inr, true, some, List, [], ◌∷◌, map, arith, ==_iff,
  length, In, Strict, Sorted-unique,
}
use agentest.OrderKey.{index_to_order_key, text_lt}
use agentest.OrderKey.Order.{text_lt-index_to_order_key}
use agentest.OrderKey.Texts.{text_lt_irrefl}
use agentest.Children.{Child, Client, child_id, by_key, in_case, all_different}

pub record Item : Type 0 where
  pub id : ℕ
  pub content : ℕ

abbrev pub row_of : ℕ → ℕ → Item → Child
row_of case index x = record {
  id = x.id;
  test_case_id = case;
  content = x.content;
  order_key = index_to_order_key index;
}

abbrev pub item_id : Item → ℕ
item_id x = x.id

-- The rows of an outline, numbered from an index.
abbrev pub numbered : ℕ → ℕ → List Item → List Child
numbered case index [] = []
numbered case index (x ∷ xs) = row_of case index x ∷ numbered case (suc index) xs

-- What a numbered row shows of its place.
pub record Placed (case low high : ℕ) (r : Child) : Type 0 where
  pub index : ℕ
  pub above : low ≤ index
  pub below : index < high
  pub key : r.order_key ≡ index_to_order_key index
  pub case_of : r.test_case_id ≡ case

pub In-numbered :
    (case index : ℕ) (xs : List Item) (r : Child)
    → In r (numbered case index xs)
    → Placed case index (index + length xs) r
In-numbered case index [] r m = absurd m
In-numbered case index (x ∷ xs) r (inl e) = record {
  index = index;
  above = omega arith;
  below = omega arith;
  key = ap (λ y. y.order_key) e;
  case_of = ap (λ y. y.test_case_id) e;
}
In-numbered case index (x ∷ xs) r (inr n) =
    let h = In-numbered case (suc index) xs r n in
    record {
      index = h.index;
      above = omega (arith, h.above);
      below = omega (arith, h.below);
      key = h.key;
      case_of = h.case_of;
    }

pub numbered-Strict :
    (case index : ℕ) (xs : List Item)
    → index + length xs ≤ 99999
    → Strict by_key (numbered case index xs)
numbered-Strict case index [] few = tt
numbered-Strict case index (x ∷ xs) few = (
  (λ r m.
      let h = In-numbered case (suc index) xs r m in
      ap (text_lt (index_to_order_key index)) h.key
      ∙ text_lt-index_to_order_key index h.index (omega (arith, h.above)) (omega (arith, h.below))),
  numbered-Strict case (suc index) xs (omega arith),
)

module _ (c : Client) where
  open c use {items as I, listing as L}

  -- Rows stand under their ids.
  abbrev pub Keyed : I.Rows → Type 0
  Keyed t = (k : ℕ) (r : Child) → I.find t k ≡ some r → r.id ≡ k

  pub record Represents (t : I.Rows) (case : ℕ) (xs : List Item) : Type 0 where
    pub distinct : all_different (map item_id xs) ≡ true
    pub stored : (r : Child) → In r (numbered case 0 xs) → I.find t r.id ≡ some r
    pub complete :
        (k : ℕ) (r : Child)
        → I.find t k ≡ some r
        → r.test_case_id ≡ case
        → In r (numbered case 0 xs)

  -- The query answers the numbered rows, in their order.
  pub find_many-numbered :
      (t : I.Rows) (case : ℕ) (xs : List Item)
      → Keyed t
      → Represents t case xs
      → length xs ≤ 99999
      → L.find_many t (in_case case) ≡ numbered case 0 xs
  find_many-numbered t case xs keyed rep few =
      Sorted-unique by_key (λ x. text_lt_irrefl x.order_key) child_id (L.find_many t (in_case case))
        (numbered case 0 xs) (L.find_many-Sorted t (in_case case))
        (L.find_many-Distinct t (in_case case) keyed) (numbered-Strict case 0 xs (omega arith))
        (λ r m.
          let (on, k, e) = L.In-find_many t (in_case case) r m in
          rep.complete k r e ((==_iff r.test_case_id case).0 on))
        (λ r m.
          let h = In-numbered case 0 xs r m in
          L.find_many-In t (in_case case) r.id r (rep.stored r m)
            ((==_iff r.test_case_id case).1 h.case_of))
