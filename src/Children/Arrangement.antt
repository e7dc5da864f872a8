-- ===== src/Children/Arrangement.antt =====
-- Reorderings, on the outline and on the table.
use agentest.Shared.{
  ℕ, suc, ◌≡◌, ◌≤◌, refl, sym, subst, ap, ◌∙◌, inl, inr, true, false, none, some, List, [], ◌∷◌,
  ◌++◌, map, arith, ◌==◌, ==_iff, includes, In, if◌then◌else◌, Bool-cases, ok, length, every,
  Resource,
}
use agentest.Children.{
  TestCase, Child, Client, Db, History, in_case, child_id, all_different, same_ids, live_case,
  create_history, reordered, arrange_children, permute_children, reorder_children, renumber,
}
use agentest.Children.Outline.{Item, item_id, numbered, Represents, Keyed, find_many-numbered}
use agentest.Children.Frames.{Frame-refl, find_case_live}
use agentest.Children.Renumber.{
  Holds, Holds-row, Represents-Holds, rekey, rekey-Frame, rekey-Represents, renumber_state,
}
use agentest.Children.Operations.{pick, arrange, permutes, Answers}
use agentest.Children.Picking.{covers, ids-pick, In-pick, pick_all, same_ids_eq}

pub ids-numbered :
    (case index : ℕ) (xs : List Item) → map child_id (numbered case index xs) ≡ map item_id xs
ids-numbered case index [] = refl
ids-numbered case index (x ∷ xs) = ap (λ l. x.id ∷ l) (ids-numbered case (suc index) xs)

length-numbered : (case index : ℕ) (xs : List Item) → length (numbered case index xs) ≡ length xs
length-numbered case index [] = refl
length-numbered case index (x ∷ xs) = ap suc (length-numbered case (suc index) xs)

length-ids : (xs : List Item) → length (map item_id xs) ≡ length xs
length-ids [] = refl
length-ids (x ∷ xs) = ap suc (length-ids xs)

-- The three guards in one test.
record Permutation (xs : List Item) (ids : List ℕ) : Type 0 where
  distinct : all_different ids ≡ true
  as_many : length ids ≡ length xs
  known : every (includes (map item_id xs)) ids ≡ true

permutes-Permutation : (xs : List Item) (ids : List ℕ) → permutes xs ids ≡ true → Permutation xs ids
permutes-Permutation xs ids h = record {
  distinct = ground (arith, h);
  as_many = (==_iff (length ids) (length xs)).0 (ground (arith, h));
  known = ground (arith, h);
}

module _ (c : Client) where
  open c use {items as I, listing as L}

  arrange-Holds :
      (t : I.Rows) (case : ℕ) (xs : List Item) (ids : List ℕ)
      → Holds c t case xs
      → Permutation xs ids
      → Holds c t case (map (pick xs) ids)
  arrange-Holds t case xs ids h p = record {
    distinct = rw (ids-pick xs ids) p.distinct;
    held = λ x m. h.held x (In-pick xs ids p.known x m);
    only = λ k r e on. rw (ids-pick xs ids) (
        covers (map item_id xs) ids r.id p.distinct (p.as_many ∙ sym (length-ids xs)) p.known
          (h.only k r e on));
  }

  abbrev reordering : TestCase → ℕ → List ℕ → ℕ → ℕ → List Child → History
  reordering t case ids user group current = record {
    test_case_id = case;
    changed_by_user_id = user;
    snapshot = t;
    children = current;
    change_detail = reordered (map child_id current) ids;
    group_id = group;
  }

  arrange_children_state :
      (kind : Resource) (s s' : Db c) (t : TestCase) (case user group : ℕ) (ids : List ℕ)
      (current : List Child)
      → renumber c 0 ids
          (record s { history = s.history ++ reordering t case ids user group current ∷ [] })
        ≡ (ok tt, s')
      → arrange_children c kind t case ids user group current s
        ≡ (ok (L.find_many s'.items (in_case case)), s')
  unfolding arrange_children create_history
  arrange_children_state kind s s' t case user group ids current r = ground (arith, r)

  permute_children_refused :
      (kind : Resource) (s : Db c) (t : TestCase) (case user group : ℕ) (xs : List Item)
      (ids : List ℕ) (current : List Child)
      → map child_id current ≡ map item_id xs
      → length current ≡ length xs
      → permutes xs ids ≡ false
      → Answers c case none s (permute_children c kind t case ids user group current s)
  unfolding permute_children
  permute_children_refused kind s t case user group xs ids current i l h =
      elim (Bool-cases (all_different ids)) [
        | inr twice ↦ rw twice (refl, refl)
        | inl once ↦ elim (Bool-cases (length ids == length current)) [
          | inr miss ↦ rw (once, miss) (refl, refl)
          | inl as_many ↦
              let known : every (includes (map child_id current)) ids ≡ false =
                let many : (length ids == length xs) ≡ true =
                  ap (λ n. length ids == n) (sym l) ∙ as_many in
                rw i (rw (once, many) at h) in
              rw (once, as_many, known) (refl, refl)
        ]
      ]

  permute_children_accepted :
      (kind : Resource) (s : Db c) (t : TestCase) (case user group : ℕ) (xs : List Item)
      (ids : List ℕ) (current : List Child)
      → map child_id current ≡ map item_id xs
      → length current ≡ length xs
      → Permutation xs ids
      → permute_children c kind t case ids user group current s ≡ (
          if same_ids (map item_id xs) ids
          then (ok current, s)
          else arrange_children c kind t case ids user group current s)
  unfolding permute_children
  permute_children_accepted kind s t case user group xs ids current i l p =
      let as_many : (length ids == length current) ≡ true =
        (==_iff (length ids) (length current)).1 (p.as_many ∙ sym l) in
      let known : every (includes (map child_id current)) ids ≡ true = rw i p.known in
      rw (p.distinct, as_many, known, i)
        (elim (Bool-cases (same_ids (map item_id xs) ids)) [
          | inl y ↦ rw y refl
          | inr n ↦ rw n refl
        ])

  arrange_children-Answers :
      (kind : Resource) (s : Db c) (t : TestCase) (case user group : ℕ) (xs : List Item)
      (ids : List ℕ) (current : List Child)
      → Keyed c s.items
      → Represents c s.items case xs
      → Permutation xs ids
      → Answers c case
          (some (map (pick xs) ids))
          s
          (arrange_children c kind t case ids user group current s)
  arrange_children-Answers kind s t case user group xs ids current keyed rep p =
      let h = arrange-Holds s.items case xs ids (Represents-Holds c s.items case xs rep) p in
      let e = ids-pick xs ids in
      let held =
        λ (k : ℕ) (m : In k ids). Holds-row c s.items case (map (pick xs) ids) h.held k (rw e m) in
      let moved =
        renumber_state c 0 ids
          (record s { history = s.history ++ reordering t case ids user group current ∷ [] })
          (λ k m. let (r, f, on) = held k m in rw f refl) in
      rw (arrange_children_state kind s _ t case user group ids current moved) (
        refl,
        record {
          represents =
              subst (λ l. Represents c (rekey c s.items 0 l) case (map (pick xs) ids)) e
                (rekey-Represents c s.items case (map (pick xs) ids) keyed h);
          frame = rekey-Frame c s.items case 0 ids keyed (λ k m r f.
              let (q, e, on) = held k m in
              let same : q ≡ r = cc (e, f) in ap (λ y. y.test_case_id) (sym same) ∙ on);
          cases = refl;
        },
      )

  permute_children-Answers :
      (kind : Resource) (s : Db c) (t : TestCase) (case user group : ℕ) (xs : List Item)
      (ids : List ℕ)
      → Keyed c s.items
      → Represents c s.items case xs
      → Answers c case
          (arrange ids xs)
          s
          (permute_children c kind t case ids user group (numbered case 0 xs) s)
  permute_children-Answers kind s t case user group xs ids keyed rep =
      let current = numbered case 0 xs in
      let i = ids-numbered case 0 xs in
      let l = length-numbered case 0 xs in
      elim (Bool-cases (permutes xs ids)) [
        | inr refused ↦
            rw refused
              (permute_children_refused kind s t case user group xs ids current i l refused)
        | inl accepted ↦
            let p = permutes-Permutation xs ids accepted in
            let run = permute_children_accepted kind s t case user group xs ids current i l p in
            elim (Bool-cases (same_ids (map item_id xs) ids)) [
              | inr differ ↦
                  rw (accepted, run, differ)
                    (arrange_children-Answers kind s t case user group xs ids current keyed rep p)
              | inl same ↦
                  let e = same_ids_eq (map item_id xs) ids (p.as_many ∙ sym (length-ids xs)) same in
                  let stays : map (pick xs) ids ≡ xs =
                    ap (map (pick xs)) (sym e) ∙ pick_all xs rep.distinct in
                  rw (accepted, run, same)
                    (
                      refl,
                      record {
                        represents = rw stays rep;
                        frame = Frame-refl c case s.items;
                        cases = refl;
                      },
                    )
            ]
      ]

  pub reorder_children_live :
      (kind : Resource) (s : Db c) (case user group : ℕ) (ids : List ℕ) (xs : List Item)
      (t : TestCase)
      → Keyed c s.items
      → Represents c s.items case xs
      → length xs ≤ 99999
      → live_case c (c.cases.find s.cases case) ≡ some t
      → Answers c case (arrange ids xs) s (reorder_children c kind case ids user group s)
  unfolding reorder_children
  reorder_children_live kind s case user group [] [] t keyed rep few live =
      rw (find_case_live c s case t live, find_many-numbered c s.items case [] keyed rep few)
        (refl, record { represents = rep; frame = Frame-refl c case s.items; cases = refl })
  reorder_children_live kind s case user group (id ∷ ids) [] t keyed rep few live =
      rw (find_case_live c s case t live, find_many-numbered c s.items case [] keyed rep few)
        (permute_children-Answers kind s t case user group [] (id ∷ ids) keyed rep)
  reorder_children_live kind s case user group ids (x ∷ xs) t keyed rep few live =
      rw (find_case_live c s case t live, find_many-numbered c s.items case (x ∷ xs) keyed rep few)
        (permute_children-Answers kind s t case user group (x ∷ xs) ids keyed rep)
