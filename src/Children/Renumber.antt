-- ===== src/Children/Renumber.antt =====
-- Renumbering: the rows that are named get the keys of their places.
use agentest.Shared.{
  ℕ, suc, ◌≡◌, refl, sym, subst, ap, ◌∙◌, inl, inr, true, false, Option, none, some, List, [], ◌∷◌,
  map, arith, ◌==◌, ==_iff, ==_self, In, is_some, includes, if◌then◌else◌, Bool-cases, Option-cases,
  ok,
}
use mathlib.Core.Option
use agentest.OrderKey.{index_to_order_key}
use agentest.Children.{Child, Client, Db, all_different, renumber}
use agentest.Children.Frames.{Frame, Frame-refl, Frame-trans, Mine, write-Frame, Mine-Frame}
use agentest.Children.Outline.{Item, item_id, row_of, numbered, Keyed, Represents}

pub In-includes : (ids : List ℕ) (k : ℕ) → In k ids → includes ids k ≡ true
In-includes [] k m = absurd m
In-includes (x ∷ xs) k (inl e) = ground (arith, e)
In-includes (x ∷ xs) k (inr n) = let rest = In-includes xs k n in ground (arith, rest)

pub includes-In : (ids : List ℕ) (k : ℕ) → includes ids k ≡ true → In k ids
includes-In [] k h = absurd (cc h)
includes-In (x ∷ xs) k h = elim (Bool-cases (x == k)) [
  | inl here ↦ inl (sym ((==_iff x k).0 here))
  | inr there ↦ inr (includes-In xs k (ground (arith, h, there)))
]

pub In-map : {A : Type 0} (f : A → ℕ) (xs : List A) (y : A) → In y xs → In (f y) (map f xs)
In-map f [] y m = m
In-map f (x ∷ xs) y (inl e) = inl (ap f e)
In-map f (x ∷ xs) y (inr n) = inr (In-map f xs y n)

-- The head of a list of different ids is none of the later ones.
pub head_differs :
    (k : ℕ) (ids : List ℕ) → all_different (k ∷ ids) ≡ true → (j : ℕ) → In j ids → (k == j) ≡ false
head_differs k ids d j m = elim (Bool-cases (k == j)) [
  | inr off ↦ off
  | inl on ↦
      let h = In-includes ids j m in
      absurd (ground (arith, d, h, ap (includes ids) ((==_iff k j).0 on)))
]

later_differs :
    (x : Item) (xs : List Item)
    → all_different (map item_id (x ∷ xs)) ≡ true
    → (y : Item) → In y xs
    → (x.id == y.id) ≡ false
later_differs x xs d y m = head_differs x.id (map item_id xs) d y.id (In-map item_id xs y m)

-- A named id has its row among the numbered ones.
pub record Numbered (case index : ℕ) (xs : List Item) (k : ℕ) : Type 0 where
  pub row : Child
  pub member : In row (numbered case index xs)
  pub id_of : row.id ≡ k

pub includes-Numbered :
    (case index : ℕ) (xs : List Item) (k : ℕ)
    → includes (map item_id xs) k ≡ true
    → Numbered case index xs k
includes-Numbered case index [] k h = absurd (cc h)
includes-Numbered case index (x ∷ xs) k h = elim (Bool-cases (x.id == k)) [
  | inl here ↦ record {
    row = row_of case index x;
    member = inl refl;
    id_of = (==_iff x.id k).0 here;
  }
  | inr there ↦
      let n = includes-Numbered case (suc index) xs k (ground (arith, h, there)) in
      record { row = n.row; member = inr n.member; id_of = n.id_of }
]

module _ (c : Client) where
  open c use {items as I, listing as L}

  abbrev pub keyed_at : ℕ → Child → Child
  keyed_at index r = record r { order_key = index_to_order_key index }

  abbrev set_key : I.Rows → ℕ → ℕ → Option Child → I.Rows
  set_key t id index none = t
  set_key t id index (some r) = I.write t id (keyed_at index r)

  -- The table that `renumber` leaves.
  pub rekey : I.Rows → ℕ → List ℕ → I.Rows
  rekey t index [] = t
  rekey t index (id ∷ ids) = rekey (set_key t id index (I.find t id)) (suc index) ids

  set_key-find :
      (t : I.Rows) (id index k : ℕ)
      → I.find (set_key t id index (I.find t id)) k
        ≡ (if id == k then Option.map (keyed_at index) (I.find t id) else I.find t k)
  set_key-find t id index k = elim (Option-cases (I.find t id)) [
    | inl e ↦ ground (arith, e)
    | inr (r, e) ↦ ground (arith, e, I.find-write t id k (keyed_at index r))
  ]

  pub renumber_state :
      (index : ℕ) (ids : List ℕ) (s : Db c)
      → ((id : ℕ) → In id ids → is_some (I.find s.items id) ≡ true)
      → renumber c index ids s ≡ (ok tt, record s { items = rekey s.items index ids })
  unfolding renumber rekey
  renumber_state index [] s found = refl
  renumber_state index (id ∷ ids) s found = elim (Option-cases (I.find s.items id)) [
    | inl e ↦ absurd (ground (arith, e, found id (inl refl)))
    | inr (r, e) ↦
        let t = I.write s.items id (keyed_at index r) in
        let rest =
          renumber_state (suc index) ids (record s { items = t })
            (λ j m.
              ground (arith, found j (inr m), I.find-write s.items id j (keyed_at index r))) in
        ground (arith, e, rest)
  ]

  pub rekey-other :
      (t : I.Rows) (index : ℕ) (ids : List ℕ) (k : ℕ)
      → includes ids k ≡ false
      → I.find (rekey t index ids) k ≡ I.find t k
  unfolding rekey
  rekey-other t index [] k h = refl
  rekey-other t index (id ∷ ids) k h =
      rekey-other (set_key t id index (I.find t id)) (suc index) ids k (ground (arith, h))
      ∙ ground (arith, h, set_key-find t id index k)

  -- The row of an item, whatever its key.
  pub record Held (t : I.Rows) (case : ℕ) (x : Item) : Type 0 where
    pub key : List ℕ
    pub stored :
        I.find t x.id
        ≡ some (record { id = x.id; test_case_id = case; content = x.content; order_key = key })

  pub rekey-stored :
      (t : I.Rows) (case index : ℕ) (xs : List Item)
      → all_different (map item_id xs) ≡ true
      → ((x : Item) → In x xs → Held t case x)
      → (r : Child) → In r (numbered case index xs)
      → I.find (rekey t index (map item_id xs)) r.id ≡ some r
  unfolding rekey
  rekey-stored t case index [] d held r m = absurd m
  rekey-stored t case index (x ∷ xs) d held r (inl e) =
      let h = held x (inl refl) in
      let t' = set_key t x.id index (I.find t x.id) in
      let other : I.find (rekey t' (suc index) (map item_id xs)) x.id ≡ I.find t' x.id =
        rekey-other t' (suc index) (map item_id xs) x.id (ground (arith, d)) in
      let here : I.find t' x.id ≡ some (row_of case index x) =
        ground (arith, ==_self x.id, h.stored, set_key-find t x.id index x.id) in
      rw e (other ∙ here)
  rekey-stored t case index (x ∷ xs) d held r (inr n) =
      let t' = set_key t x.id index (I.find t x.id) in
      rekey-stored t' case (suc index) xs (ground (arith, d))
        (λ y m.
          let differs = later_differs x xs d y m in
          let h = held y (inr m) in
          record {
            key = h.key;
            stored = ground (arith, differs, h.stored, set_key-find t x.id index y.id);
          })
        r n

  -- The rows of a test case without their keys.
  pub record Holds (t : I.Rows) (case : ℕ) (xs : List Item) : Type 0 where
    pub distinct : all_different (map item_id xs) ≡ true
    pub held : (x : Item) → In x xs → Held t case x
    pub only :
        (k : ℕ) (r : Child)
        → I.find t k ≡ some r
        → r.test_case_id ≡ case
        → includes (map item_id xs) r.id ≡ true

  Represents-row :
      (t : I.Rows) (case index : ℕ) (xs : List Item) (x : Item)
      → In x xs
      → ((r : Child) → In r (numbered case index xs) → I.find t r.id ≡ some r)
      → Held t case x
  Represents-row t case index [] x m stored = absurd m
  Represents-row t case index (y ∷ ys) x (inl e) stored = record {
    key = index_to_order_key index;
    stored = rw e (stored (row_of case index y) (inl refl));
  }
  Represents-row t case index (y ∷ ys) x (inr n) stored =
      Represents-row t case (suc index) ys x n (λ r m. stored r (inr m))

  numbered-includes :
      (case index : ℕ) (xs : List Item) (r : Child)
      → In r (numbered case index xs)
      → includes (map item_id xs) r.id ≡ true
  numbered-includes case index [] r m = absurd m
  numbered-includes case index (x ∷ xs) r (inl e) = ground (arith, ap (λ y. y.id) e)
  numbered-includes case index (x ∷ xs) r (inr n) =
      let rest = numbered-includes case (suc index) xs r n in ground (arith, rest)

  pub Represents-Holds :
      (t : I.Rows) (case : ℕ) (xs : List Item) → Represents c t case xs → Holds t case xs
  Represents-Holds t case xs rep = record {
    distinct = rep.distinct;
    held = λ x m. Represents-row t case 0 xs x m rep.stored;
    only = λ k r e on. numbered-includes case 0 xs r (rep.complete k r e on);
  }

  -- The row of a listed item.
  pub Holds-row :
      (t : I.Rows) (case : ℕ) (xs : List Item)
      → ((x : Item) → In x xs → Held t case x)
      → (k : ℕ) → In k (map item_id xs)
      → (r : Child) × (I.find t k ≡ some r) × (r.test_case_id ≡ case)
  Holds-row t case [] held k m = absurd m
  Holds-row t case (x ∷ xs) held k (inl e) =
      let h = held x (inl refl) in (_, ap (I.find t) e ∙ h.stored, refl)
  Holds-row t case (x ∷ xs) held k (inr n) = Holds-row t case xs (λ y m. held y (inr m)) k n

  set_key-Frame :
      (t : I.Rows) (case id index : ℕ)
      → Keyed c t
      → Mine c t case id
      → Frame c case t (set_key t id index (I.find t id))
  set_key-Frame t case id index keyed mine = elim (Option-cases (I.find t id)) [
    | inl e ↦ rw e (Frame-refl c case t)
    | inr (r, e) ↦ rw e (write-Frame c t case id (keyed_at index r) mine (keyed id r e) (mine r e))
  ]

  pub rekey-Frame :
      (t : I.Rows) (case index : ℕ) (ids : List ℕ)
      → Keyed c t
      → ((k : ℕ) → In k ids → Mine c t case k)
      → Frame c case t (rekey t index ids)
  unfolding rekey
  rekey-Frame t case index [] keyed mine = Frame-refl c case t
  rekey-Frame t case index (id ∷ ids) keyed mine =
      let f = set_key-Frame t case id index keyed (mine id (inl refl)) in
      let t' = set_key t id index (I.find t id) in
      Frame-trans c case t t' _ f (
        rekey-Frame t' case (suc index) ids (f.keyed keyed)
          (λ k m. Mine-Frame c t t' case k f (mine k (inr m))))

  pub rekey-Represents :
      (t : I.Rows) (case : ℕ) (xs : List Item)
      → Keyed c t
      → Holds t case xs
      → Represents c (rekey t 0 (map item_id xs)) case xs
  rekey-Represents t case xs keyed h = record {
    distinct = h.distinct;
    stored = rekey-stored t case 0 xs h.distinct h.held;
    complete = λ k r e on. elim (Bool-cases (includes (map item_id xs) k)) [
      | inl named ↦
          let n = includes-Numbered case 0 xs k named in
          let same = rekey-stored t case 0 xs h.distinct h.held n.row n.member in
          let eq : n.row ≡ r = cc (same, e, ap (I.find (rekey t 0 (map item_id xs))) n.id_of) in
          subst (λ y. In y (numbered case 0 xs)) eq n.member
      | inr other ↦
          let before = sym (rekey-other t 0 (map item_id xs) k other) ∙ e in
          absurd
            (cc (h.only k r before on, other, ap (includes (map item_id xs)) (keyed k r before)))
    ];
  }
