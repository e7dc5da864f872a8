-- ===== src/Children/Removal.antt =====
-- Deletions of one item, on the outline and on the table.
use agentest.Shared.{
  ℕ, ◌≡◌, ◌≤◌, refl, sym, ap, ◌∙◌, inl, inr, false, some, List, [], ◌∷◌, ◌++◌, map, arith, ◌==◌,
  ==_iff, In, Bool-cases, Resource, ok, length, Sorted-unique,
}
use agentest.OrderKey.Texts.{text_lt_irrefl}
use agentest.Children.{
  TestCase, Child, Client, Db, in_case, child_id, by_key, History, remove_child, delete_child,
  renumber, live_case, create_history, deleted,
}
use agentest.Children.Outline.{
  Item, item_id, numbered, In-numbered, numbered-Strict, Represents, Keyed,
}
use agentest.Children.Lookup.{find_child_absent, find_child-Present}
use agentest.Children.Frames.{Frame-trans, erase-Frame, Mine, find_case_live}
use agentest.Children.Renumber.{
  Holds, Holds-row, Represents-Holds, rekey-Frame, rekey-Represents, renumber_state,
}
use agentest.Children.Operations.{has_item, cut, without, Answers}
use agentest.Children.Cutting.{
  rows_without, In-rows_without, rows_without-In, rows_without-Strict, ids-rows_without, In-without,
  has_item-without, without-distinct,
}

module _ (c : Client) where
  open c use {items as I, listing as L}

  erase-Holds :
      (t : I.Rows) (case id : ℕ) (xs : List Item)
      → Keyed c t
      → Holds c t case xs
      → Holds c (I.erase t id) case (without id xs)
  erase-Holds t case id xs keyed h = record {
    distinct = without-distinct id xs h.distinct;
    held = λ x m.
        let (n, off) = In-without id xs x m in
        let k = h.held x n in
        record { key = k.key; stored = ground (arith, off, k.stored, I.find-erase t id x.id) };
    only = λ k r e on.
        let before : I.find t k ≡ some r = ground (arith, e, I.find-erase t id k) in
        let apart : (r.id == id) ≡ false =
          ground (arith, e, keyed k r before, I.find-erase t id k) in
        has_item-without id r.id xs apart ∙ h.only k r before on;
  }

  find_many-erase :
      (t : I.Rows) (case id : ℕ) (xs : List Item)
      → Keyed c t
      → Keyed c (I.erase t id)
      → Represents c t case xs
      → length xs ≤ 99999
      → L.find_many (I.erase t id) (in_case case) ≡ rows_without id (numbered case 0 xs)
  find_many-erase t case id xs keyed keyed' rep few =
      Sorted-unique by_key (λ x. text_lt_irrefl x.order_key) child_id
        (L.find_many (I.erase t id) (in_case case)) (rows_without id (numbered case 0 xs))
        (L.find_many-Sorted (I.erase t id) (in_case case))
        (L.find_many-Distinct (I.erase t id) (in_case case) keyed')
        (rows_without-Strict id (numbered case 0 xs) (numbered-Strict case 0 xs (omega arith)))
        (λ r m.
          let (on, k, e) = L.In-find_many (I.erase t id) (in_case case) r m in
          let before : I.find t k ≡ some r = ground (arith, e, I.find-erase t id k) in
          let apart : (r.id == id) ≡ false =
            ground (arith, e, keyed k r before, I.find-erase t id k) in
          rows_without-In id (numbered case 0 xs) r
            (rep.complete k r before ((==_iff r.test_case_id case).0 on)) apart)
        (λ r m.
          let (n, off) = In-rows_without id (numbered case 0 xs) r m in
          let h = In-numbered case 0 xs r n in
          L.find_many-In (I.erase t id) (in_case case) r.id r
            (ground (arith, off, rep.stored r n, I.find-erase t id r.id))
            ((==_iff r.test_case_id case).1 h.case_of))

  -- The row of the history that a deletion writes.
  abbrev deletion : TestCase → ℕ → ℕ → ℕ → ℕ → Child → History
  deletion t case id user group x = record {
    test_case_id = case;
    changed_by_user_id = user;
    snapshot = t;
    children = x ∷ [];
    change_detail = deleted id x.content x.order_key;
    group_id = group;
  }

  abbrev erased : Db c → TestCase → ℕ → ℕ → ℕ → ℕ → Child → Db c
  erased s t case id user group x = record s {
    items = I.erase s.items id;
    history = s.history ++ deletion t case id user group x ∷ [];
  }

  remove_child_state :
      (kind : Resource) (s s' : Db c) (case id user group : ℕ) (t : TestCase) (x : Child)
      (rest : List Child) (ids : List ℕ)
      → I.find s.items id ≡ some x
      → L.find_many (I.erase s.items id) (in_case case) ≡ rest
      → map child_id rest ≡ ids
      → renumber c 0 ids (erased s t case id user group x) ≡ (ok tt, s')
      → remove_child c kind t case id user group x s ≡ (ok tt, s')
  unfolding remove_child create_history
  remove_child_state kind s s' case id user group t x rest ids e l m r = ground (arith, e, l, m, r)

  pub delete_child_live :
      (kind : Resource) (s : Db c) (case id user group : ℕ) (xs : List Item) (t : TestCase)
      → Keyed c s.items
      → Represents c s.items case xs
      → length xs ≤ 99999
      → live_case c (c.cases.find s.cases case) ≡ some t
      → Answers c case (cut id xs) s (delete_child c kind case id user group s)
  unfolding delete_child
  delete_child_live kind s case id user group xs t keyed rep few live =
      let h = Represents-Holds c s.items case xs rep in
      let found = find_case_live c s case t live in
      elim (Bool-cases (has_item xs id)) [
        | inr absent ↦
            rw (absent, found, find_child_absent c kind s case id xs keyed h absent) (refl, refl)
        | inl has ↦
            let p = find_child-Present c kind s case id xs keyed h has in
            let t' = I.erase s.items id in
            let mine : Mine c s.items case id = λ r f.
              let same : p.row ≡ r = cc (p.stored, f) in
              ap (λ y. y.test_case_id) (sym same) ∙ p.case_of in
            let frame = erase-Frame c s.items case id mine in
            let keyed' = frame.keyed keyed in
            let listed = find_many-erase s.items case id xs keyed keyed' rep few in
            let h' = erase-Holds s.items case id xs keyed h in
            let ids = ids-rows_without case 0 id xs in
            let held = λ (k : ℕ) (m : In k (map item_id (without id xs))).
              Holds-row c t' case (without id xs) h'.held k m in
            let moved =
              renumber_state c 0 (map item_id (without id xs)) (erased s t case id user group p.row)
                (λ k m. let (r, e, on) = held k m in rw e refl) in
            let done =
              remove_child_state kind s _ case id user group t p.row _ _ p.stored listed ids
                moved in
            rw (has, found, p.found, done)
              (
                refl,
                record {
                  represents = rekey-Represents c t' case (without id xs) keyed' h';
                  frame = Frame-trans c case s.items t' _ frame (
                      rekey-Frame c t' case 0 (map item_id (without id xs)) keyed' (λ k m r f.
                        let (q, e, on) = held k m in
                        let same : q ≡ r = cc (e, f) in ap (λ y. y.test_case_id) (sym same) ∙ on));
                  cases = refl;
                },
              )
      ]
