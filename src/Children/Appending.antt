-- ===== src/Children/Appending.antt =====
-- Additions without a key, on the outline and on the table.
use agentest.Shared.{
  ℕ, suc, ◌+◌, ◌≡◌, ◌≤◌, ◌<◌, refl, sym, ap, ◌∙◌, inl, inr, true, false, none, some, List, [], ◌∷◌,
  ◌++◌, map, arith, ◌==◌, ==_iff, ==_self, In, Bool-cases, Option-cases, ok, length, ◌⊎◌,
}
use mathlib.Core.Option
use agentest.OrderKey.{index_to_order_key, get_next_order_key, text_lt}
use agentest.OrderKey.Order.{text_lt-index_to_order_key}
use agentest.OrderKey.RoundTrip.{get_next_order_key-index_to_order_key, get_next_order_key-none}
use agentest.Children.{
  TestCase, Child, Client, Db, History, in_case, insert_child, add_child, live_case, all_different,
  create_history, added, choose_key, next_key,
}
use agentest.Children.Outline.{Item, item_id, row_of, numbered, In-numbered, Represents, Keyed}
use agentest.Children.Frames.{write-Frame, find_case_live}
use agentest.Children.Renumber.{Holds-row, includes-In, Represents-Holds}
use agentest.Children.Operations.{has_item, append, Answers}

numbered-append :
    (case index : ℕ) (xs : List Item) (x : Item)
    → numbered case index (xs ++ x ∷ [])
      ≡ numbered case index xs ++ row_of case (index + length xs) x ∷ []
numbered-append case index [] x = ap (λ i. row_of case i x ∷ []) (omega arith)
numbered-append case index (y ∷ xs) x =
    let rest = numbered-append case (suc index) xs x in
    let e : suc index + length xs ≡ index + length (y ∷ xs) = omega arith in
    rw rest (ap (λ i. row_of case index y ∷ numbered case (suc index) xs ++ row_of case i x ∷ []) e)

In-append : {A : Type 0} (xs : List A) (x y : A) → In y (xs ++ x ∷ []) → In y xs ⊎ (y ≡ x)
In-append [] x y (inl e) = inr e
In-append [] x y (inr n) = absurd n
In-append (z ∷ xs) x y (inl e) = inl (inl e)
In-append (z ∷ xs) x y (inr n) = elim (In-append xs x y n) [ inl m ↦ inl (inr m) | inr e ↦ inr e ]

append-In : {A : Type 0} (xs : List A) (x y : A) → In y xs → In y (xs ++ x ∷ [])
append-In [] x y m = absurd m
append-In (z ∷ xs) x y (inl e) = inl e
append-In (z ∷ xs) x y (inr n) = inr (append-In xs x y n)

append-In_last : {A : Type 0} (xs : List A) (x : A) → In x (xs ++ x ∷ [])
append-In_last [] x = inl refl
append-In_last (z ∷ xs) x = inr (append-In_last xs x)

has_item-append :
    (xs : List Item) (x : Item) (k : ℕ)
    → has_item xs k ≡ false
    → (x.id == k) ≡ false
    → has_item (xs ++ x ∷ []) k ≡ false
has_item-append [] x k h off = ground (arith, off)
has_item-append (y ∷ xs) x k h off =
    let rest = has_item-append xs x k (ground (arith, h)) off in ground (arith, h, rest)

append-distinct :
    (xs : List Item) (x : Item)
    → all_different (map item_id xs) ≡ true
    → has_item xs x.id ≡ false
    → all_different (map item_id (xs ++ x ∷ [])) ≡ true
append-distinct [] x d h = refl
append-distinct (y ∷ xs) x d h =
    let rest = append-distinct xs x (ground (arith, d)) (ground (arith, h)) in
    let off : (x.id == y.id) ≡ false = ground (arith, h) in
    let apart = has_item-append xs x y.id (ground (arith, d)) off in ground (arith, rest, apart)

-- The row of the last item.
last_row :
    (case index : ℕ) (x : Item) (xs : List Item)
    → (r : Child) × In r (numbered case index (x ∷ xs))
      × (r.order_key ≡ index_to_order_key (index + length xs))
last_row case index x [] = (row_of case index x, inl refl, ap index_to_order_key (omega arith))
last_row case index x (y ∷ xs) =
    let (r, m, e) = last_row case (suc index) y xs in
    let same : suc index + length xs ≡ index + length (y ∷ xs) = omega arith in
    (r, inr m, e ∙ ap index_to_order_key same)

greatest_place :
    (i n : ℕ)
    → i ≤ n
    → n < 99999
    → text_lt (index_to_order_key i) (index_to_order_key n) ≡ false
    → i ≡ n
greatest_place i n le few h = elim (Bool-cases (i == n)) [
  | inl e ↦ (==_iff i n).0 e
  | inr off ↦ absurd (cc (text_lt-index_to_order_key i n (ground (arith, off, le)) few, h))
]

module _ (c : Client) where
  open c use {items as I, listing as L}

  -- The key that an addition takes is that of the place after the last.
  next_key-Represents :
      (t : I.Rows) (case : ℕ) (xs : List Item)
      → Represents c t case xs
      → length xs ≤ 99999
      → get_next_order_key (Option.map (λ (x : Child). x.order_key) (L.find_last t (in_case case)))
        ≡ index_to_order_key (length xs)
  next_key-Represents t case [] rep few = elim (Option-cases (L.find_last t (in_case case))) [
    | inl e ↦ rw e get_next_order_key-none
    | inr (r, e) ↦
        let (on, k, f) = L.find_last-some t (in_case case) r e in
        absurd (rep.complete k r f ((==_iff r.test_case_id case).0 on))
  ]
  next_key-Represents t case (x ∷ xs) rep few =
      let (q, m, key) = last_row case 0 x xs in
      let at = In-numbered case 0 (x ∷ xs) q m in
      let on : in_case case q ≡ true = (==_iff q.test_case_id case).1 at.case_of in
      elim (Option-cases (L.find_last t (in_case case))) [
        | inl e ↦ absurd (cc (L.find_last-none t (in_case case) q.id q e (rep.stored q m), on))
        | inr (r, e) ↦
            let (r_on, k, f) = L.find_last-some t (in_case case) r e in
            let p =
              In-numbered case 0 (x ∷ xs) r
                (rep.complete k r f ((==_iff r.test_case_id case).0 r_on)) in
            let great = L.find_last-greatest t (in_case case) q.id r q e (rep.stored q m) on in
            let last_key : q.order_key ≡ index_to_order_key (length xs) =
              key ∙ ap index_to_order_key (omega arith) in
            let same_key : text_lt (index_to_order_key p.index) (index_to_order_key (length xs))
                ≡ false =
              ap (text_lt (index_to_order_key p.index)) (sym last_key)
              ∙ ap (λ k. text_lt k q.order_key) (sym p.key)
              ∙ great in
            let last =
              greatest_place p.index (length xs) (omega (arith, p.below)) (omega arith) same_key in
            rw e (
              rw (p.key, last)
                ((get_next_order_key-index_to_order_key (length xs)).1
                  ∙ ap index_to_order_key (omega arith)))
      ]

  absent-has_item :
      (t : I.Rows) (case id : ℕ) (xs : List Item)
      → Represents c t case xs
      → I.find t id ≡ none
      → has_item xs id ≡ false
  absent-has_item t case id xs rep fresh = elim (Bool-cases (has_item xs id)) [
    | inr off ↦ off
    | inl has ↦
        let (r, e, on) =
          Holds-row c t case xs (Represents-Holds c t case xs rep).held id
            (includes-In (map item_id xs) id has) in
        absurd (cc (e, fresh))
  ]

  append-Represents :
      (t : I.Rows) (case id content : ℕ) (xs : List Item)
      → Keyed c t
      → Represents c t case xs
      → I.find t id ≡ none
      → Represents c
          (I.write t id (row_of case (length xs) (record { id = id; content = content })))
          case
          (append id content xs)
  append-Represents t case id content xs keyed rep fresh =
      let x : Item = record { id = id; content = content } in
      let new = row_of case (length xs) x in
      let rows : numbered case 0 (append id content xs) ≡ numbered case 0 xs ++ new ∷ [] =
        numbered-append case 0 xs x
        ∙ ap (λ i. numbered case 0 xs ++ row_of case i x ∷ []) (omega arith) in
      record {
        distinct = append-distinct xs x rep.distinct (absent-has_item t case id xs rep fresh);
        stored = λ r m. elim (In-append (numbered case 0 xs) new r (rw rows at m)) [
          | inr e ↦ rw e (ground (arith, ==_self id, I.find-write t id id new))
          | inl n ↦
              let old = rep.stored r n in ground (arith, old, fresh, I.find-write t id r.id new)
        ];
        complete = λ k r e on. elim (Bool-cases (id == k)) [
          | inl here ↦
              let same : new ≡ r = ground (arith, e, here, I.find-write t id k new) in
              rw (rows, sym same) (append-In_last (numbered case 0 xs) new)
          | inr there ↦
              let old : I.find t k ≡ some r = ground (arith, e, there, I.find-write t id k new) in
              rw rows (append-In (numbered case 0 xs) new r (rep.complete k r old on))
        ];
      }

  -- The row of the history that an addition writes.
  abbrev addition : TestCase → ℕ → ℕ → ℕ → Child → History
  addition t case user group x = record {
    test_case_id = case;
    changed_by_user_id = user;
    snapshot = t;
    children = x ∷ [];
    change_detail = added x.id x.content x.order_key;
    group_id = group;
  }

  insert_child_state :
      (s : Db c) (t : TestCase) (case user content group fresh : ℕ) (key : List ℕ)
      → I.find s.items fresh ≡ none
      → get_next_order_key
          (Option.map (λ (x : Child). x.order_key) (L.find_last s.items (in_case case)))
        ≡ key
      → let x : Child = record {
        id = fresh;
        test_case_id = case;
        content = content;
        order_key = key;
      } in
        insert_child c t case user content none group fresh s ≡ (
          ok x,
          record s {
            items = I.write s.items fresh x;
            history = s.history ++ addition t case user group x ∷ [];
          },
        )
  unfolding insert_child choose_key next_key create_history
  insert_child_state s t case user content group fresh key free next =
      elim (Option-cases (I.find_first s.items (λ r. false))) [
        | inr (r, e) ↦ absurd (ground (arith, (I.find_first-some s.items (λ r. false) r e).0))
        | inl e ↦ ground (arith, free, next, e)
      ]

  pub add_child_live :
      (s : Db c) (case user content group fresh : ℕ) (xs : List Item) (t : TestCase)
      → Keyed c s.items
      → Represents c s.items case xs
      → length xs ≤ 99999
      → I.find s.items fresh ≡ none
      → live_case c (c.cases.find s.cases case) ≡ some t
      → Answers c case
          (some (append fresh content xs))
          s
          (add_child c case user content none group fresh s)
  unfolding add_child
  add_child_live s case user content group fresh xs t keyed rep few free live =
      let found = find_case_live c s case t live in
      let key = next_key-Represents s.items case xs rep few in
      rw (found, insert_child_state s t case user content group fresh _ free key)
        (
          refl,
          record {
            represents = append-Represents s.items case fresh content xs keyed rep free;
            frame = write-Frame c s.items case fresh _ (λ r e. absurd (cc (e, free))) refl refl;
            cases = refl;
          },
        )
