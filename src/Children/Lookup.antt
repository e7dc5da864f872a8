-- ===== src/Children/Lookup.antt =====
-- Looking up a child of a test case, on the outline and on the table.
use agentest.Shared.{
  ℕ, ◌≡◌, refl, ap, inl, inr, true, false, some, List, map, ◌==◌, ==_iff, ==_self, Bool-cases,
  Option-cases, Resource, ok, err, not_found,
}
use agentest.Children.{Child, Client, Db, find_child}
use agentest.Children.Outline.{Item, item_id, Keyed}
use agentest.Children.Renumber.{includes-In, Holds-row, Holds}
use agentest.Children.Operations.{has_item}

module _ (c : Client) where
  open c use {items as I, listing as L}

  -- What the lookup of a child answers, by the outline.
  pub find_child_absent :
      (kind : Resource) (s : Db c) (case id : ℕ) (xs : List Item)
      → Keyed c s.items
      → Holds c s.items case xs
      → has_item xs id ≡ false
      → find_child c kind case id s ≡ (err (not_found kind), s)
  unfolding find_child
  find_child_absent kind s case id xs keyed h absent = elim (Option-cases (I.find s.items id)) [
    | inl e ↦ rw e refl
    | inr (r, e) ↦ elim (Bool-cases (r.test_case_id == case)) [
      | inr off ↦ rw (e, off) refl
      | inl on ↦
          let has = h.only id r e ((==_iff r.test_case_id case).0 on) in
          absurd (cc (has, absent, ap (has_item xs) (keyed id r e)))
    ]
  ]

  pub record Present (kind : Resource) (s : Db c) (case id : ℕ) (xs : List Item) : Type 0 where
    pub row : Child
    pub stored : I.find s.items id ≡ some row
    pub case_of : row.test_case_id ≡ case
    pub id_of : row.id ≡ id
    pub found : find_child c kind case id s ≡ (ok row, s)

  pub find_child-Present :
      (kind : Resource) (s : Db c) (case id : ℕ) (xs : List Item)
      → Keyed c s.items
      → Holds c s.items case xs
      → has_item xs id ≡ true
      → Present kind s case id xs
  unfolding find_child
  find_child-Present kind s case id xs keyed h has =
      let (r, e, on) =
        Holds-row c s.items case xs h.held id (includes-In (map item_id xs) id has) in
      record {
        row = r;
        stored = e;
        case_of = on;
        id_of = keyed id r e;
        found = rw (e, on, ==_self case) refl;
      }
