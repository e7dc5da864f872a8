-- ===== src/Children/Editing.antt =====
-- Updates of one item, on the outline and on the table.
use agentest.Shared.{
  ℕ, suc, ◌≡◌, refl, sym, subst, ap, ◌∙◌, inl, inr, true, some, List, [], ◌∷◌, ◌++◌, map, arith,
  ◌==◌, ==_iff, In, if◌then◌else◌, Bool-cases, Resource, ok,
}
use agentest.Children.{
  TestCase, Child, Client, Db, rewrite_child, update_child, live_case, create_history, updated,
}
use agentest.Children.Outline.{Item, item_id, numbered, Represents, Keyed}
use agentest.Children.Lookup.{find_child_absent, find_child-Present}
use agentest.Children.Frames.{Frame-refl, write-Frame, find_case_live}
use agentest.Children.Renumber.{Holds, Represents-Holds}
use agentest.Children.Operations.{has_item, edit, set_content, Answers}

module _ (c : Client) where
  open c use {items as I, listing as L}

  abbrev put_content : ℕ → ℕ → Child → Child
  put_content id content r = if r.id == id then record r { content = content } else r

  abbrev put_contents : ℕ → ℕ → List Child → List Child
  put_contents id content = map (put_content id content)

  numbered-edit :
      (case index id content : ℕ) (xs : List Item)
      → numbered case index (map (set_content id content) xs)
        ≡ put_contents id content (numbered case index xs)
  numbered-edit case index id content [] = refl
  numbered-edit case index id content (x ∷ xs) =
      let rest = numbered-edit case (suc index) id content xs in
      elim (Bool-cases (x.id == id)) [
        | inl here ↦ rw (rest, here) refl
        | inr there ↦ rw (rest, there) refl
      ]

  In-put_contents :
      (id content : ℕ) (rs : List Child) (r : Child)
      → In r (put_contents id content rs)
      → (q : Child) × In q rs × (r ≡ put_content id content q)
  In-put_contents id content [] r m = absurd m
  In-put_contents id content (q ∷ rs) r (inl e) = (q, inl refl, e)
  In-put_contents id content (q ∷ rs) r (inr n) =
      let (p, m, e) = In-put_contents id content rs r n in (p, inr m, e)

  put_contents-In :
      (id content : ℕ) (rs : List Child) (q : Child)
      → In q rs
      → In (put_content id content q) (put_contents id content rs)
  put_contents-In id content [] q m = absurd m
  put_contents-In id content (p ∷ rs) q (inl e) = inl (ap (put_content id content) e)
  put_contents-In id content (p ∷ rs) q (inr n) = inr (put_contents-In id content rs q n)

  ids-edit :
      (id content : ℕ) (xs : List Item)
      → map item_id (map (set_content id content) xs) ≡ map item_id xs
  ids-edit id content [] = refl
  ids-edit id content (x ∷ xs) =
      let rest = ids-edit id content xs in
      elim (Bool-cases (x.id == id)) [
        | inl here ↦ rw (rest, here) refl
        | inr there ↦ rw (rest, there) refl
      ]

  -- One row: what the written table has for a row of the old one.
  put_content-stored :
      (t : I.Rows) (id content : ℕ) (x q : Child)
      → I.find t id ≡ some x
      → I.find t q.id ≡ some q
      → I.find (I.write t id (record x { content = content })) q.id
        ≡ some (put_content id content q)
  put_content-stored t id content x q e f = elim (Bool-cases (q.id == id)) [
    | inl here ↦
        let i : q.id ≡ id = (==_iff q.id id).0 here in
        let p : x ≡ q = cc (e, f, ap (I.find t) i) in
        let back : (id == q.id) ≡ true = (==_iff id q.id).1 (sym i) in
        rw (I.find-write t id q.id (record x { content = content }), here, back, p) refl
    | inr there ↦ ground (arith, f, there, I.find-write t id q.id (record x { content = content }))
  ]

  put_content_id : (id content : ℕ) (q : Child) → (put_content id content q).id ≡ q.id
  put_content_id id content q = ground arith

  edit-Represents :
      (t : I.Rows) (case id content : ℕ) (xs : List Item) (x : Child)
      → Keyed c t
      → Represents c t case xs
      → I.find t id ≡ some x
      → x.test_case_id ≡ case
      → Represents c
          (I.write t id (record x { content = content }))
          case
          (map (set_content id content) xs)
  edit-Represents t case id content xs x keyed rep e on =
      let new : Child = record x { content = content } in
      record {
        distinct = rw (ids-edit id content xs) rep.distinct;
        stored = λ r m.
            let (q, n, same) =
              In-put_contents id content (numbered case 0 xs) r
                (rw (numbered-edit case 0 id content xs) at m) in
            rw (same, put_content_id id content q)
              (put_content-stored t id content x q e (rep.stored q n));
        complete = λ k r f at_case. elim (Bool-cases (id == k)) [
          | inl here ↦
              let same : new ≡ r = ground (arith, f, here, I.find-write t id k new) in
              let at : (x.id == id) ≡ true = (==_iff x.id id).1 (keyed id x e) in
              let put : put_content id content x ≡ r = rw at same in
              rw (numbered-edit case 0 id content xs) (
                subst (λ y. In y (put_contents id content (numbered case 0 xs))) put
                  (put_contents-In id content (numbered case 0 xs) x (rep.complete id x e on)))
          | inr there ↦
              let old : I.find t k ≡ some r = ground (arith, f, there, I.find-write t id k new) in
              let put : put_content id content r ≡ r = ground (arith, there, keyed k r old) in
              rw (numbered-edit case 0 id content xs) (
                subst (λ y. In y (put_contents id content (numbered case 0 xs))) put
                  (put_contents-In id content (numbered case 0 xs) r
                    (rep.complete k r old at_case)))
        ];
      }

  -- Setting the content that an item has already changes nothing.
  set_content_same :
      (id content : ℕ) (xs : List Item)
      → ((x : Item) → In x xs → x.id ≡ id → x.content ≡ content)
      → map (set_content id content) xs ≡ xs
  set_content_same id content [] h = refl
  set_content_same id content (x ∷ xs) h =
      let rest = set_content_same id content xs (λ y m. h y (inr m)) in
      elim (Bool-cases (x.id == id)) [
        | inl here ↦
            let e = h x (inl refl) ((==_iff x.id id).0 here) in ground (arith, rest, here, e)
        | inr there ↦ rw (rest, there) refl
      ]

  rewrite_child_state :
      (kind : Resource) (s : Db c) (case id user content group : ℕ) (t : TestCase) (x : Child)
      → I.find s.items id ≡ some x
      → rewrite_child c kind t case id user content group x s ≡ (
        ok (record x { content = content }),
        record s {
          items = I.write s.items id (record x { content = content });
          history =
              s.history
              ++ record {
                test_case_id = case;
                changed_by_user_id = user;
                snapshot = t;
                children = x ∷ [];
                change_detail = updated id x.content content;
                group_id = group;
              }
                ∷ [];
        },
      )
  unfolding rewrite_child create_history
  rewrite_child_state kind s case id user content group t x e = ground (arith, e)

  rewrite_child-Answers :
      (kind : Resource) (s : Db c) (case id user content group : ℕ) (xs : List Item) (t : TestCase)
      (x : Child)
      → Keyed c s.items
      → Represents c s.items case xs
      → I.find s.items id ≡ some x
      → x.test_case_id ≡ case
      → Answers c case
          (some (map (set_content id content) xs))
          s
          (rewrite_child c kind t case id user content group x s)
  rewrite_child-Answers kind s case id user content group xs t x keyed rep e on =
      rw (rewrite_child_state kind s case id user content group t x e) (
        refl,
        record {
          represents = edit-Represents s.items case id content xs x keyed rep e on;
          frame =
              write-Frame c s.items case id (record x { content = content })
                (λ r f. let same : x ≡ r = cc (e, f) in ap (λ y. y.test_case_id) (sym same) ∙ on)
                (keyed id x e) on;
          cases = refl;
        },
      )

  -- The row of an item has its content.
  content_of_row :
      (s : Db c) (case id : ℕ) (xs : List Item) (x : Child)
      → Holds c s.items case xs
      → I.find s.items id ≡ some x
      → (y : Item) → In y xs
      → y.id ≡ id
      → y.content ≡ x.content
  content_of_row s case id xs x h e y m i =
      let k = h.held y m in
      let same : some x
          ≡ some
              (record { id = y.id; test_case_id = case; content = y.content; order_key = k.key }) =
        sym e ∙ ap (I.find s.items) (sym i) ∙ k.stored in
      let eq : x
          ≡ record { id = y.id; test_case_id = case; content = y.content; order_key = k.key } =
        cc same in
      ap (λ r. r.content) (sym eq)

  pub update_child_live :
      (kind : Resource) (s : Db c) (case id user content group : ℕ) (xs : List Item) (t : TestCase)
      → Keyed c s.items
      → Represents c s.items case xs
      → live_case c (c.cases.find s.cases case) ≡ some t
      → Answers c case (edit id content xs) s (update_child c kind case id user content group s)
  unfolding update_child rewrite_child create_history
  update_child_live kind s case id user content group xs t keyed rep live =
      let h = Represents-Holds c s.items case xs rep in
      let found = find_case_live c s case t live in
      elim (Bool-cases (has_item xs id)) [
        | inr absent ↦
            rw (absent, found, find_child_absent c kind s case id xs keyed h absent) (refl, refl)
        | inl has ↦
            let p = find_child-Present c kind s case id xs keyed h has in
            elim (Bool-cases (p.row.content == content)) [
              | inl same ↦
                  rw (has, found, p.found, same)
                    (
                      refl,
                      record {
                        represents =
                            rw
                              (set_content_same id content xs (λ y m i.
                                content_of_row s case id xs p.row h p.stored y m i
                                ∙ (==_iff p.row.content content).0 same))
                              rep;
                        frame = Frame-refl c case s.items;
                        cases = refl;
                      },
                    )
              | inr differs ↦
                  rw (has, found, p.found, differs)
                    (rewrite_child-Answers kind s case id user content group xs t p.row keyed rep
                      p.stored p.case_of)
            ]
      ]
