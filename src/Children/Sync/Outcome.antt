-- ===== src/Children/Sync/Outcome.antt =====
-- What the synchronisation leaves: the outline that the entries ask for.
use agentest.Shared.{
  ℕ, ◌≡◌, sym, subst, ap, ◌∙◌, inl, inr, true, false, some, List, map, arith, includes, every, In,
  Bool-cases,
}
use agentest.Children.{Child, Client, child_id, all_different}
use agentest.Children.Outline.{Item, item_id, numbered, In-numbered, Represents, Keyed}
use agentest.Children.Frames.{Frame}
use agentest.Children.Renumber.{Holds-row, Represents-Holds, includes-In, includes-Numbered}
use agentest.Children.Operations.{has_item}
use agentest.Children.Arrangement.{ids-numbered}
use agentest.Children.Sync.{Entry, request_ids, unrequested}
use agentest.Children.Sync.Deleting.{
  includes-unrequested, In-unrequested, erase_all, find-erase_all, erase_all-Frame,
}
use agentest.Children.Sync.Writing.{requested, put_rows, put_rows-other, put_rows-stored, There}
use agentest.Children.Sync.Readiness.{child_of-has, every-includes, request_ids-requested}

module _ (c : Client) where
  open c use {items as I, listing as L}

  -- The tables after the deletions, and after all.
  abbrev pub left : I.Rows → ℕ → List Entry → List Item → I.Rows
  left t case es xs = erase_all c t (unrequested (request_ids es) (numbered case 0 xs))

  abbrev pub outcome : I.Rows → ℕ → (ℕ → ℕ) → List Entry → List Item → I.Rows
  outcome t case fresh es xs =
      put_rows c (left t case es xs) (numbered case 0 (requested fresh 0 es))

  pub left-There :
      (t : I.Rows) (case : ℕ) (es : List Entry) (xs : List Item)
      → Keyed c t
      → Represents c t case xs
      → every (has_item xs) (request_ids es) ≡ true
      → (id : ℕ) → includes (request_ids es) id ≡ true
      → There c (left t case es xs) case (numbered case 0 xs) id
  left-There t case es xs keyed rep known id asked =
      let rows = numbered case 0 xs in
      let h = Represents-Holds c t case xs rep in
      let has = every-includes xs (request_ids es) id known asked in
      let (r, e, on) = Holds-row c t case xs h.held id (includes-In (map item_id xs) id has) in
      let (x, f) =
        child_of-has rows id (ap (λ ids. includes ids id) (ids-numbered case 0 xs) ∙ has) in
      record {
        known = x;
        known_at = f;
        row = r;
        stored = ground (
          arith,
          e,
          asked,
          includes-unrequested (request_ids es) rows id,
          find-erase_all c t (unrequested (request_ids es) rows) id,
        );
        id_of = keyed id r e;
        case_of = on;
      }

  pub left-Frame :
      (t : I.Rows) (case : ℕ) (es : List Entry) (xs : List Item)
      → Represents c t case xs
      → Frame c case t (left t case es xs)
  left-Frame t case es xs rep =
      erase_all-Frame c t case (unrequested (request_ids es) (numbered case 0 xs)) (λ x m r e.
        let n = In-unrequested (request_ids es) (numbered case 0 xs) x m in
        let p = In-numbered case 0 xs x n in
        let same : x ≡ r = cc (rep.stored x n, e) in
        ap (λ y. y.test_case_id) (sym same) ∙ p.case_of)

  -- No row of the test case stays that is not asked for.
  left-only :
      (t : I.Rows) (case : ℕ) (fresh : ℕ → ℕ) (es : List Entry) (xs : List Item)
      → Keyed c t
      → Represents c t case xs
      → (k : ℕ) (r : Child) → I.find (left t case es xs) k ≡ some r
      → r.test_case_id ≡ case
      → has_item (requested fresh 0 es) k ≡ true
  left-only t case fresh es xs keyed rep k r e on =
      let rows = numbered case 0 xs in
      let find = find-erase_all c t (unrequested (request_ids es) rows) k in
      let before : I.find t k ≡ some r = ground (arith, e, find) in
      let h = Represents-Holds c t case xs rep in
      let has : has_item xs k ≡ true =
        ap (has_item xs) (sym (keyed k r before)) ∙ h.only k r before on in
      let there : includes (map child_id rows) k ≡ true =
        ap (λ ids. includes ids k) (ids-numbered case 0 xs) ∙ has in
      let kept = includes-unrequested (request_ids es) rows k in
      request_ids-requested fresh 0 es k (ground (arith, e, find, there, kept))

  pub outcome-Represents :
      (t : I.Rows) (case : ℕ) (fresh : ℕ → ℕ) (es : List Entry) (xs : List Item)
      → Keyed c t
      → Represents c t case xs
      → all_different (map item_id (requested fresh 0 es)) ≡ true
      → Represents c (outcome t case fresh es xs) case (requested fresh 0 es)
  outcome-Represents t case fresh es xs keyed rep d =
      let ys = requested fresh 0 es in
      let rows = numbered case 0 ys in
      let ids = ids-numbered case 0 ys in
      let stored = put_rows-stored c (left t case es xs) rows (ap all_different ids ∙ d) in
      record {
        distinct = d;
        stored = stored;
        complete = λ k r e on. elim (Bool-cases (has_item ys k)) [
          | inl named ↦
              let n = includes-Numbered case 0 ys k named in
              let eq : n.row ≡ r =
                cc (stored n.row n.member, e, ap (I.find (outcome t case fresh es xs)) n.id_of) in
              subst (λ y. In y rows) eq n.member
          | inr other ↦
              let off : includes (map child_id rows) k ≡ false =
                ap (λ l. includes l k) ids ∙ other in
              let before = sym (put_rows-other c (left t case es xs) rows k off) ∙ e in
              absurd (cc (left-only t case fresh es xs keyed rep k r before on, other))
        ];
      }
