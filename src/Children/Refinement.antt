-- ===== src/Children/Refinement.antt =====
-- Calls on the table of children beside the operations on the outlines of the test cases.
use agentest.Shared.{
  ℕ, ◌≡◌, ◌≤◌, ◌∙◌, refl, sym, subst, ap, inl, inr, true, false, Option, none, Bool, some, List, [],
  ◌∷◌, ◌==◌, ==_iff, if◌then◌else◌, Bool-cases, Option-cases, length, is_ok, is_some, ok, err,
  Result, Resource, not_found, test_case,
}
use agentest.Children.{
  TestCase, Client, Db, live_case, add_child, update_child, delete_child, reorder_children,
  get_children,
}
use agentest.Children.Outline.{Item, numbered, Represents, Keyed, find_many-numbered}
use agentest.Children.Frames.{Frame-Represents, find_case_live, find_case_dead}
use agentest.Children.Renumber.{Represents-Holds}
use agentest.Children.Operations.{has_item, append, edit, cut, arrange, Change, Answers}
use agentest.Children.Appending.{add_child_live}
use agentest.Children.Editing.{update_child_live}
use agentest.Children.Removal.{delete_child_live}
use agentest.Children.Arrangement.{reorder_children_live}

pub data Call : Type 0 where
  add_call : (case user content group fresh : ℕ) → Call
  update_call : (case id user content group : ℕ) → Call
  delete_call : (case id user group : ℕ) → Call
  reorder_call : (case : ℕ) → (ids : List ℕ) → (user group : ℕ) → Call

abbrev pub Outlines : Type 0
Outlines = ℕ → List Item

abbrev pub target : Call → ℕ
target (add_call case user content group fresh) = case
target (update_call case id user content group) = case
target (delete_call case id user group) = case
target (reorder_call case ids user group) = case

-- What a call does to the outline of its test case.
abbrev pub change_of : Call → List Item → Option (List Item)
change_of (add_call case user content group fresh) xs = some (append fresh content xs)
change_of (update_call case id user content group) xs = edit id content xs
change_of (delete_call case id user group) xs = cut id xs
change_of (reorder_call case ids user group) xs = arrange ids xs

abbrev pub put_outline : ℕ → List Item → Outlines → Outlines
put_outline case xs o k = if k == case then xs else o k

abbrev pub settle_outline : ℕ → Option (List Item) → Outlines → Bool × Outlines
settle_outline case none o = (false, o)
settle_outline case (some ys) o = (true, put_outline case ys o)

-- The specification: whether a call is accepted, and the outlines after it. `live` tells the test
-- cases that are there and not deleted.
abbrev pub spec_call : (ℕ → Bool) → Call → Outlines → Bool × Outlines
spec_call live call o =
    if live (target call)
    then settle_outline (target call) (change_of call (o (target call))) o
    else (false, o)

abbrev pub spec_calls : (ℕ → Bool) → List Call → Outlines → List Bool × Outlines
spec_calls live [] o = ([], o)
spec_calls live (call ∷ calls) o =
    let (b, o') = spec_call live call o in let (bs, o'') = spec_calls live calls o' in (b ∷ bs, o'')

-- An addition brings a new id, and the keys of five digits suffice.
abbrev pub Fresh : Call → Outlines → Type 0
Fresh (add_call case user content group fresh) o = (k : ℕ) → has_item (o k) fresh ≡ false
Fresh _ o = Unit

abbrev pub Fit : (ℕ → Bool) → List Call → Outlines → Type 0
Fit live [] o = Unit
Fit live (call ∷ calls) o =
    (length (o (target call)) ≤ 99999) × Fresh call o × Fit live calls (spec_call live call o).1

module _ (c : Client) where
  open c use {items as I, listing as L}

  -- The database stands for these outlines.
  pub record Models (live : ℕ → Bool) (s : Db c) (o : Outlines) : Type 0 where
    pub keyed : Keyed c s.items
    pub represents : (case : ℕ) → Represents c s.items case (o case)
    pub live_at : (case : ℕ) → is_some (live_case c (c.cases.find s.cases case)) ≡ live case

  abbrev pub flag : {A : Type 0} → Result A × Db c → Bool × Db c
  flag (r, s) = (is_ok r, s)

  -- A call, and whether it succeeds.
  abbrev pub perform : Resource → Call → Db c → Bool × Db c
  perform kind (add_call case user content group fresh) s =
      flag (add_child c case user content none group fresh s)
  perform kind (update_call case id user content group) s =
      flag (update_child c kind case id user content group s)
  perform kind (delete_call case id user group) s = flag (delete_child c kind case id user group s)
  perform kind (reorder_call case ids user group) s =
      flag (reorder_children c kind case ids user group s)

  abbrev pub perform_all : Resource → List Call → Db c → List Bool × Db c
  perform_all kind [] s = ([], s)
  perform_all kind (call ∷ calls) s =
      let (b, s') = perform kind call s in
      let (bs, s'') = perform_all kind calls s' in (b ∷ bs, s'')

  abbrev pub Refines : (ℕ → Bool) → Bool × Db c → Bool × Outlines → Type 0
  Refines live (b, s) (b', o) = (b ≡ b') × Models live s o

  put_outline-Models :
      (live : ℕ → Bool) (s s' : Db c) (o : Outlines) (case : ℕ) (ys : List Item)
      → Models live s o
      → Change c case ys s s'
      → Models live s' (put_outline case ys o)
  put_outline-Models live s s' o case ys m ch = record {
    keyed = ch.frame.keyed m.keyed;
    represents = λ k. elim (Bool-cases (k == case)) [
      | inl here ↦
          rw here
            (subst (λ j. Represents c s'.items j ys) (sym ((==_iff k case).0 here)) ch.represents)
      | inr there ↦ rw there (
          Frame-Represents c s.items s'.items case k (o k) ch.frame
            (λ e. cc ((==_iff k case).1 e, there)) (m.represents k))
    ];
    live_at = λ k. rw ch.cases (m.live_at k);
  }

  settle-Refines :
      {A : Type 0} (live : ℕ → Bool) (s : Db c) (o : Outlines) (case : ℕ) (ox : Option (List Item))
      (run : Result A × Db c)
      → Models live s o
      → Answers c case ox s run
      → Refines live (flag run) (settle_outline case ox o)
  settle-Refines live s o case none run m (r, e) = (r, subst (λ t. Models live t o) (sym e) m)
  settle-Refines live s o case (some ys) run m (r, ch) =
      (r, put_outline-Models live s _ o case ys m ch)

  -- An id that no outline has is no key of the table.
  pub fresh_free :
      (live : ℕ → Bool) (s : Db c) (o : Outlines) (fresh : ℕ)
      → Models live s o
      → ((k : ℕ) → has_item (o k) fresh ≡ false)
      → I.find s.items fresh ≡ none
  fresh_free live s o fresh m f = elim (Option-cases (I.find s.items fresh)) [
    | inl e ↦ e
    | inr (r, e) ↦
        let h =
          Represents-Holds c s.items r.test_case_id (o r.test_case_id)
            (m.represents r.test_case_id) in
        let has = h.only fresh r e refl in
        absurd (cc (has, f r.test_case_id, ap (has_item (o r.test_case_id)) (m.keyed fresh r e)))
  ]

  -- A call on a live test case answers as its method does; on another one it is refused.
  perform_live :
      (kind : Resource) (live : ℕ → Bool) (call : Call) (s : Db c) (o : Outlines) (t : TestCase)
      → Models live s o
      → length (o (target call)) ≤ 99999
      → Fresh call o
      → live_case c (c.cases.find s.cases (target call)) ≡ some t
      → Refines live
          (perform kind call s)
          (settle_outline (target call) (change_of call (o (target call))) o)
  perform_live kind live (add_call case user content group fresh) s o t m few f e =
      settle-Refines live s o case (some (append fresh content (o case))) _ m (
        add_child_live c s case user content group fresh (o case) t m.keyed (m.represents case) few
          (fresh_free live s o fresh m f) e)
  perform_live kind live (update_call case id user content group) s o t m few f e =
      settle-Refines live s o case (edit id content (o case)) _ m (
        update_child_live c kind s case id user content group (o case) t m.keyed (m.represents case)
          e)
  perform_live kind live (delete_call case id user group) s o t m few f e =
      settle-Refines live s o case (cut id (o case)) _ m
        (delete_child_live c kind s case id user group (o case) t m.keyed (m.represents case) few e)
  perform_live kind live (reorder_call case ids user group) s o t m few f e =
      settle-Refines live s o case (arrange ids (o case)) _ m (
        reorder_children_live c kind s case user group ids (o case) t m.keyed (m.represents case)
          few e)

  perform_dead :
      (kind : Resource) (live : ℕ → Bool) (call : Call) (s : Db c) (o : Outlines)
      → Models live s o
      → live_case c (c.cases.find s.cases (target call)) ≡ none
      → Refines live (perform kind call s) (false, o)
  unfolding add_child update_child delete_child reorder_children
  perform_dead kind live (add_call case user content group fresh) s o m e =
      rw (find_case_dead c s case e) (refl, m)
  perform_dead kind live (update_call case id user content group) s o m e =
      rw (find_case_dead c s case e) (refl, m)
  perform_dead kind live (delete_call case id user group) s o m e =
      rw (find_case_dead c s case e) (refl, m)
  perform_dead kind live (reorder_call case ids user group) s o m e =
      rw (find_case_dead c s case e) (refl, m)

  pub perform-Refines :
      (kind : Resource) (live : ℕ → Bool) (call : Call) (s : Db c) (o : Outlines)
      → Models live s o
      → length (o (target call)) ≤ 99999
      → Fresh call o
      → Refines live (perform kind call s) (spec_call live call o)
  perform-Refines kind live call s o m few f =
      let at = m.live_at (target call) in
      elim (Option-cases (live_case c (c.cases.find s.cases (target call)))) [
        | inl e ↦
            let off : live (target call) ≡ false = sym at ∙ ap is_some e in
            rw off (perform_dead kind live call s o m e)
        | inr (t, e) ↦
            let on : live (target call) ≡ true = sym at ∙ ap is_some e in
            rw on (perform_live kind live call s o t m few f e)
      ]

  -- From a database that stands for some outlines (the list of items of each test case), any
  -- sequence of additions without a key, updates, deletions and reorderings is answered, call
  -- by call, as the outlines say: an addition appends, an update needs the id and sets its
  -- content, a deletion needs the id and cuts it out, a reordering needs every id exactly once
  -- and arranges the items by them, and all of them need a live test case; the database
  -- afterwards stands for the outlines that these operations leave, refused calls and the other
  -- test cases changing nothing. Each addition brings a new id, and each call finds at most
  -- 99999 items in its test case.
  pub perform_all-spec_calls :
      (kind : Resource) (live : ℕ → Bool) (calls : List Call) (s : Db c) (o : Outlines)
      → Models live s o
      → Fit live calls o
      → ((perform_all kind calls s).0 ≡ (spec_calls live calls o).0)
        × Models live (perform_all kind calls s).1 (spec_calls live calls o).1
  perform_all-spec_calls kind live [] s o m fit = (refl, m)
  perform_all-spec_calls kind live (call ∷ calls) s o m (few, f, fit) =
      let (b, m') = perform-Refines kind live call s o m few f in
      let (bs, m'') =
        perform_all-spec_calls kind live calls (perform kind call s).1 (spec_call live call o).1 m'
          fit in
      (rw (b, bs) refl, m'')

  -- If the database stands for some outlines and the test case has at most 99999 items,
  -- getChildren answers the rows of its outline in their order, keyed by their places, or that
  -- the test case is not found if it is missing or deleted, and changes nothing.
  pub get_children-outline :
      (live : ℕ → Bool) (s : Db c) (o : Outlines) (case : ℕ)
      → Models live s o
      → length (o case) ≤ 99999
      → get_children c case s
        ≡ (if live case then ok (numbered case 0 (o case)) else err (not_found test_case), s)
  unfolding get_children
  get_children-outline live s o case m few =
      let at = m.live_at case in
      elim (Option-cases (live_case c (c.cases.find s.cases case))) [
        | inl e ↦
            let off : live case ≡ false = sym at ∙ ap is_some e in
            rw (off, find_case_dead c s case e) refl
        | inr (t, e) ↦
            let on : live case ≡ true = sym at ∙ ap is_some e in
            rw
              (
                on,
                find_case_live c s case t e,
                find_many-numbered c s.items case (o case) m.keyed (m.represents case) few,
              )
              refl
      ]
