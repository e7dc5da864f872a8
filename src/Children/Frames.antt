-- ===== src/Children/Frames.antt =====
-- Changes of the table of children that concern one test case.
use agentest.Shared.{
  ℕ, ◌≡◌, ◌≢◌, refl, sym, ap, ◌∙◌, inl, inr, none, some, List, arith, ok, err, not_found, test_case,
  ◌==◌, ==_iff, Bool-cases,
}
use agentest.Children.{TestCase, Child, Client, Db, live_case, find_case}
use agentest.Children.Outline.{Item, Keyed, Represents, In-numbered}

module _ (c : Client) where
  open c use {items as I, listing as L}

  -- A change that concerns one test case only.
  pub record Frame (case : ℕ) (t t' : I.Rows) : Type 0 where
    pub forth :
        (k : ℕ) (r : Child) → r.test_case_id ≢ case → I.find t k ≡ some r → I.find t' k ≡ some r
    pub back :
        (k : ℕ) (r : Child) → r.test_case_id ≢ case → I.find t' k ≡ some r → I.find t k ≡ some r
    pub keyed : Keyed c t → Keyed c t'

  pub Frame-refl : (case : ℕ) (t : I.Rows) → Frame case t t
  Frame-refl case t = record { forth = λ k r other e. e; back = λ k r other e. e; keyed = λ h. h }

  pub Frame-trans : (case : ℕ) (t u v : I.Rows) → Frame case t u → Frame case u v → Frame case t v
  Frame-trans case t u v f g = record {
    forth = λ k r other e. g.forth k r other (f.forth k r other e);
    back = λ k r other e. f.back k r other (g.back k r other e);
    keyed = λ h. g.keyed (f.keyed h);
  }

  abbrev pub Mine : I.Rows → ℕ → ℕ → Type 0
  Mine t case id = (r : Child) → I.find t id ≡ some r → r.test_case_id ≡ case

  pub write-Frame :
      (t : I.Rows) (case id : ℕ) (n : Child)
      → Mine t case id
      → n.id ≡ id
      → n.test_case_id ≡ case
      → Frame case t (I.write t id n)
  write-Frame t case id n mine i on = record {
    forth = λ k r other e. elim (Bool-cases (id == k)) [
      | inl here ↦ absurd (other (mine r (ap (I.find t) ((==_iff id k).0 here) ∙ e)))
      | inr there ↦ ground (arith, e, there, I.find-write t id k n)
    ];
    back = λ k r other e. elim (Bool-cases (id == k)) [
      | inl here ↦
          let same : n ≡ r = ground (arith, e, here, I.find-write t id k n) in
          absurd (other (ap (λ y. y.test_case_id) (sym same) ∙ on))
      | inr there ↦ ground (arith, e, there, I.find-write t id k n)
    ];
    keyed = λ keyed k r e. elim (Bool-cases (id == k)) [
      | inl here ↦
          let same : n ≡ r = ground (arith, e, here, I.find-write t id k n) in
          ap (λ y. y.id) (sym same) ∙ i ∙ (==_iff id k).0 here
      | inr there ↦ keyed k r (ground (arith, e, there, I.find-write t id k n))
    ];
  }

  pub erase-Frame : (t : I.Rows) (case id : ℕ) → Mine t case id → Frame case t (I.erase t id)
  erase-Frame t case id mine = record {
    forth = λ k r other e. elim (Bool-cases (id == k)) [
      | inl here ↦ absurd (other (mine r (ap (I.find t) ((==_iff id k).0 here) ∙ e)))
      | inr there ↦ ground (arith, e, there, I.find-erase t id k)
    ];
    back = λ k r other e. ground (arith, e, I.find-erase t id k);
    keyed = λ keyed k r e. keyed k r (ground (arith, e, I.find-erase t id k));
  }

  pub Mine-Frame :
      (t t' : I.Rows) (case id : ℕ) → Frame case t t' → Mine t case id → Mine t' case id
  Mine-Frame t t' case id f mine r e = elim (Bool-cases (r.test_case_id == case)) [
    | inl on ↦ (==_iff r.test_case_id case).0 on
    | inr off ↦
        let other : r.test_case_id ≢ case = λ h. cc ((==_iff r.test_case_id case).1 h, off) in
        mine r (f.back id r other e)
  ]

  -- The children of the other test cases keep their outlines.
  pub Frame-Represents :
      (t t' : I.Rows) (case other : ℕ) (xs : List Item)
      → Frame case t t'
      → other ≢ case
      → Represents c t other xs
      → Represents c t' other xs
  Frame-Represents t t' case other xs f apart rep = record {
    distinct = rep.distinct;
    stored = λ r m.
        let h = In-numbered other 0 xs r m in
        f.forth r.id r (λ same. apart (sym h.case_of ∙ same)) (rep.stored r m);
    complete = λ k r e on. rep.complete k r (f.back k r (λ same. apart (sym on ∙ same)) e) on;
  }

  -- What `findUnique` and the guards see.
  pub find_case_live :
      (s : Db c) (case : ℕ) (x : TestCase)
      → live_case c (c.cases.find s.cases case) ≡ some x
      → find_case c case s ≡ (ok x, s)
  unfolding find_case
  find_case_live s case x e = rw e refl

  pub find_case_dead :
      (s : Db c) (case : ℕ)
      → live_case c (c.cases.find s.cases case) ≡ none
      → find_case c case s ≡ (err (not_found test_case), s)
  unfolding find_case
  find_case_dead s case e = rw e refl
