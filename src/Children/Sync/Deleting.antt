-- ===== src/Children/Sync/Deleting.antt =====
-- The deletions of the children that are not requested.
use agentest.Shared.{
  ℕ, ◌≡◌, refl, ap, ◌∙◌, inl, inr, true, not, ◌&&◌, none, some, List, [], ◌∷◌, ◌++◌, map, arith,
  ◌==◌, ==_iff, includes, In, is_some, if◌then◌else◌, Bool-cases, Option-cases, ok,
}
use agentest.Children.{
  TestCase, Child, Client, Db, History, child_id, all_different, create_history, deleted,
}
use agentest.Children.Frames.{Frame, Frame-refl, Frame-trans, erase-Frame, Mine, Mine-Frame}
use agentest.Children.Renumber.{In-map, head_differs}
use agentest.Children.Sync.{unrequested, delete_children}

pub includes-unrequested :
    (ids : List ℕ) (xs : List Child) (k : ℕ)
    → includes (map child_id (unrequested ids xs)) k
      ≡ (includes (map child_id xs) k && not (includes ids k))
includes-unrequested ids [] k = refl
includes-unrequested ids (x ∷ xs) k =
    let rest = includes-unrequested ids xs k in
    elim (Bool-cases (x.id == k)) [
      | inl here ↦
          let e = ap (includes ids) ((==_iff x.id k).0 here) in
          elim (Bool-cases (includes ids x.id)) [
            | inl asked ↦ rw asked (ground (arith, rest, here, e, asked))
            | inr dropped ↦ rw dropped (ground (arith, rest, here, e, dropped))
          ]
      | inr there ↦ elim (Bool-cases (includes ids x.id)) [
        | inl asked ↦ rw asked (ground (arith, rest, there))
        | inr dropped ↦ rw dropped (ground (arith, rest, there))
      ]
    ]

pub unrequested-distinct :
    (ids : List ℕ) (xs : List Child)
    → all_different (map child_id xs) ≡ true
    → all_different (map child_id (unrequested ids xs)) ≡ true
unrequested-distinct ids [] d = refl
unrequested-distinct ids (x ∷ xs) d =
    let rest = unrequested-distinct ids xs (ground (arith, d)) in
    let e = includes-unrequested ids xs x.id in
    elim (Bool-cases (includes ids x.id)) [
      | inl asked ↦ rw asked rest
      | inr dropped ↦ rw dropped (ground (arith, rest, e, d))
    ]

pub In-unrequested :
    (ids : List ℕ) (xs : List Child) (r : Child) → In r (unrequested ids xs) → In r xs
In-unrequested ids [] r m = m
In-unrequested ids (x ∷ xs) r m = elim (Bool-cases (includes ids x.id)) [
  | inl asked ↦ inr (In-unrequested ids xs r (rw asked at m))
  | inr dropped ↦ elim (rw dropped at m) [ inl e ↦ inl e | inr n ↦ inr (In-unrequested ids xs r n) ]
]

module _ (c : Client) where
  open c use {items as I, listing as L}

  pub erase_all : I.Rows → List Child → I.Rows
  erase_all t [] = t
  erase_all t (x ∷ xs) = erase_all (I.erase t x.id) xs

  pub find-erase_all :
      (t : I.Rows) (xs : List Child) (k : ℕ)
      → I.find (erase_all t xs) k ≡ (if includes (map child_id xs) k then none else I.find t k)
  unfolding erase_all
  find-erase_all t [] k = refl
  find-erase_all t (x ∷ xs) k =
      let rest = find-erase_all (I.erase t x.id) xs k in ground (arith, rest, I.find-erase t x.id k)

  pub erase_all-Frame :
      (t : I.Rows) (case : ℕ) (xs : List Child)
      → ((x : Child) → In x xs → Mine c t case x.id)
      → Frame c case t (erase_all t xs)
  unfolding erase_all
  erase_all-Frame t case [] mine = Frame-refl c case t
  erase_all-Frame t case (x ∷ xs) mine =
      let f = erase-Frame c t case x.id (mine x (inl refl)) in
      Frame-trans c case t (I.erase t x.id) _ f (
        erase_all-Frame (I.erase t x.id) case xs
          (λ y m. Mine-Frame c t (I.erase t x.id) case y.id f (mine y (inr m))))

  module _ (t : TestCase) (case user group : ℕ) where
    abbrev deletion : Child → History
    deletion x = record {
      test_case_id = case;
      changed_by_user_id = user;
      snapshot = t;
      children = x ∷ [];
      change_detail = deleted x.id x.content x.order_key;
      group_id = group;
    }

    abbrev after_one : Db c → Child → Db c
    after_one s x = record s {
      items = I.erase s.items x.id;
      history = s.history ++ deletion x ∷ [];
    }

    delete_children_step :
        (x r : Child) (xs : List Child) (s : Db c)
        → I.find s.items x.id ≡ some r
        → delete_children c t case user group (x ∷ xs) s
          ≡ delete_children c t case user group xs (after_one s x)
    unfolding delete_children create_history
    delete_children_step x r xs s f = ground (arith, f)

    pub delete_children_run :
        (xs : List Child) (s : Db c)
        → all_different (map child_id xs) ≡ true
        → ((x : Child) → In x xs → is_some (I.find s.items x.id) ≡ true)
        → (h : List History) × (delete_children c t case user group xs s
            ≡ (ok tt, record s { items = erase_all s.items xs; history = h }))
    unfolding delete_children erase_all
    delete_children_run [] s d there = (s.history, refl)
    delete_children_run (x ∷ xs) s d there =
        let (h, e) = delete_children_run xs (after_one s x) (ground (arith, d)) (λ y m.
          let apart = head_differs x.id (map child_id xs) d y.id (In-map child_id xs y m) in
          ground (arith, apart, there y (inr m), I.find-erase s.items x.id y.id)) in
        elim (Option-cases (I.find s.items x.id)) [
          | inl f ↦ absurd (ground (arith, f, there x (inl refl)))
          | inr (r, f) ↦ (h, delete_children_step x r xs s f ∙ e)
        ]
