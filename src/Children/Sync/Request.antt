-- ===== src/Children/Sync/Request.antt =====
-- The outcomes of a request.
use agentest.Shared.{
  ℕ, suc, ◌≡◌, refl, ap, ◌∙◌, inl, inr, true, false, none, List, [], ◌∷◌, map, arith, includes,
  every, is_some, Bool-cases, Option-cases, ok, err, Result, Exec, is_ok, transaction, continue,
  settle,
}
use agentest.Children.{TestCase, Client, Db, all_different}
use agentest.Children.Outline.{Item, item_id, numbered, In-numbered, Represents, Keyed}
use agentest.Children.Frames.{Frame-trans}
use agentest.Children.Operations.{has_item, Answers}
use agentest.Children.Arrangement.{ids-numbered}
use agentest.Children.Sync.{
  Entry, request_ids, unrequested, sync_entry, sync_entries, sync_children, sync_existing,
}
use agentest.Children.Sync.Deleting.{
  unrequested-distinct, In-unrequested, find-erase_all, delete_children_run,
}
use agentest.Children.Sync.Writing.{requested, put_rows-Frame}
use agentest.Children.Sync.Readiness.{sync_outline, child_of-none, Ready-all, Ready-Mine}
use agentest.Children.Sync.Outcome.{left, outcome-Represents, left-There, left-Frame}
use agentest.Children.Sync.Running.{sync_entries_run}

-- A method that always fails, also after another one.
abbrev Fails : {S A : Type 0} → Exec S A → Type 0
Fails {S} m = (s : S) → is_ok (m s).0 ≡ false

continue-Fails :
    {S A B : Type 0} (f : A → Exec S B)
    → ((a : A) → Fails (f a))
    → (r : Result A) (s : S) → is_ok (continue r f s).0 ≡ false
continue-Fails f h (ok a) s = h a s
continue-Fails f h (err e) s = refl

settle-Fails :
    {S A : Type 0} (s s' : S) (r : Result A)
    → is_ok r ≡ false
    → (is_ok (settle s (r, s')).0 ≡ false) × ((settle s (r, s')).1 ≡ s)
settle-Fails s s' (ok a) h = absurd (cc h)
settle-Fails s s' (err e) h = (refl, refl)

module _ (c : Client) (t : TestCase) (case user group : ℕ) where
  open c use {items as I, listing as L}

  -- An unknown id stops the entries, whatever the table.
  sync_entries-Fails :
      (fresh : ℕ → ℕ) (xs : List Item) (index : ℕ) (es : List Entry)
      → every (has_item xs) (request_ids es) ≡ false
      → Fails (sync_entries c t case user group fresh (numbered case 0 xs) index es)
  unfolding sync_entries sync_entry sync_existing
  sync_entries-Fails fresh xs index [] unknown s = absurd (cc unknown)
  sync_entries-Fails fresh xs index (e ∷ es) unknown s = elim (Option-cases e.id) [
    | inl new ↦
        let rest = sync_entries-Fails fresh xs (suc index) es (rw new at unknown) in
        continue-Fails _ (λ a. rest) _ _
    | inr (id, old) ↦ elim (Bool-cases (has_item xs id)) [
      | inl known ↦
          let all = rw old at unknown in
          let rest = sync_entries-Fails fresh xs (suc index) es (ground (arith, all, known)) in
          continue-Fails _ (λ a. rest) _ _
      | inr other ↦
          let absent =
            child_of-none (numbered case 0 xs) id
              (ap (λ ids. includes ids id) (ids-numbered case 0 xs) ∙ other) in
          rw (old, absent) refl
    ]
  ]

  -- If the table stands for an outline of a test case, the ids given for new rows are free, and
  -- the ids of the requested entries (those given, and those of the new rows) are all
  -- different, then the synchronisation with a list of entries, run as a transaction on the
  -- rows of the outline, behaves as follows: if every given id is in the outline it succeeds,
  -- the outline becomes exactly the list of entries in its order with its contents, and no
  -- other test case changes; if some given id is not, it throws and changes nothing.
  pub sync_children-Answers :
      (fresh : ℕ → ℕ) (es : List Entry) (s : Db c) (xs : List Item)
      → Keyed c s.items
      → Represents c s.items case xs
      → all_different (map item_id (requested fresh 0 es)) ≡ true
      → ((i : ℕ) → I.find s.items (fresh i) ≡ none)
      → Answers c case
          (sync_outline fresh es xs)
          s
          (transaction (sync_children c t case user group fresh es (numbered case 0 xs)) s)
  unfolding sync_children
  sync_children-Answers fresh es s xs keyed rep d free =
      elim (Bool-cases (every (has_item xs) (request_ids es))) [
        | inr unknown ↦
            let entries = sync_entries-Fails fresh xs 0 es unknown in
            rw unknown (settle-Fails s _ _ (continue-Fails _ (λ a. entries) _ _))
        | inl known ↦
            let rows = numbered case 0 xs in
            let t' = left c s.items case es xs in
            let (h, deleted) =
              delete_children_run c t case user group (unrequested (request_ids es) rows) s
                (unrequested-distinct (request_ids es) rows
                  (ap all_different (ids-numbered case 0 xs) ∙ rep.distinct))
                (λ x m. ap is_some (rep.stored x (In-unrequested (request_ids es) rows x m))) in
            let ready =
              Ready-all c t' case rows fresh 0 es (left-There c s.items case es xs keyed rep known)
                (λ i. ground (
                  arith,
                  free i,
                  find-erase_all c s.items (unrequested (request_ids es) rows) (fresh i),
                )) in
            let (h', run) =
              sync_entries_run c t case user group fresh rows 0 es
                (record s { items = t'; history = h }) d ready in
            rw (known, deleted, run)
              (
                refl,
                record {
                  represents = outcome-Represents c s.items case fresh es xs keyed rep d;
                  frame = Frame-trans c case s.items t' _ (left-Frame c s.items case es xs rep) (
                      put_rows-Frame c t' case (numbered case 0 (requested fresh 0 es))
                        (Ready-Mine c t' case rows fresh 0 es ready)
                        (λ r m.
                          let p = In-numbered case 0 (requested fresh 0 es) r m in p.case_of));
                  cases = refl;
                },
              )
      ]
