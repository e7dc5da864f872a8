-- ===== src/Children/Sync/Running.antt =====
-- Runs of the updates and creations, on a table that is ready for them.
use agentest.Shared.{
  ℕ, suc, ◌≡◌, refl, ap, ◌∙◌, inl, inr, true, false, Option, none, some, List, [], ◌∷◌, ◌++◌, map,
  arith, ◌==◌, Bool-cases, Option-cases, ok,
}
use agentest.OrderKey.{index_to_order_key}
use agentest.Children.{
  TestCase, Child, ChangeDetail, Client, Db, History, all_different, create_history, added, updated,
}
use agentest.Children.Outline.{item_id, row_of, numbered}
use agentest.Children.Sync.{Entry, note_update, sync_existing, sync_new, sync_entry, sync_entries}
use agentest.Children.Sync.Writing.{id_or, requested, put_rows, ReadyEntry, Ready, Ready-write}

module _ (c : Client) (t : TestCase) (case user group : ℕ) where
  open c use {items as I, listing as L}

  abbrev written : Db c → ℕ → Child → List History → Db c
  written s id r h = record s { items = I.write s.items id r; history = h }

  -- The history with one row more.
  abbrev noted : Db c → Child → ChangeDetail → List History
  noted s x detail =
      s.history
      ++ record {
        test_case_id = case;
        changed_by_user_id = user;
        snapshot = t;
        children = x ∷ [];
        change_detail = detail;
        group_id = group;
      }
        ∷ []

  note_update_run :
      (x : Child) (content : ℕ) (s : Db c)
      → (h : List History) × (note_update c t case user group x content s
          ≡ (ok tt, record s { history = h }))
  unfolding note_update create_history
  note_update_run x content s = elim (Bool-cases (x.content == content)) [
    | inl same ↦ (s.history, rw same refl)
    | inr differs ↦ (noted s x (updated x.id x.content content), rw differs refl)
  ]

  sync_existing_run :
      (index id content : ℕ) (x r : Child) (s : Db c) (h : List History)
      → note_update c t case user group x content s ≡ (ok tt, record s { history = h })
      → I.find s.items id ≡ some r
      → sync_existing c t case user group index id content (some x) s ≡ (
        ok tt,
        written s id (record r { content = content; order_key = index_to_order_key index }) h,
      )
  unfolding sync_existing
  sync_existing_run index id content x r s h e f = ground (arith, e, f)

  sync_entry_run :
      (fresh : ℕ → ℕ) (existing : List Child) (index : ℕ) (o : Option ℕ) (content : ℕ) (s : Db c)
      → ReadyEntry c s.items case existing (fresh index) o
      → let id = id_or o (fresh index) in
        (h : List History) × (sync_entry c t case user group fresh existing index o content s
          ≡ (ok tt, written s id (row_of case index (record { id = id; content = content })) h))
  unfolding sync_entry sync_existing sync_new create_history
  sync_entry_run fresh existing index none content s free =
      elim (Option-cases (I.find_first s.items (λ r. false))) [
        | inr (r, e) ↦ absurd (ground (arith, (I.find_first-some s.items (λ r. false) r e).0))
        | inl e ↦
            let x = row_of case index (record { id = fresh index; content = content }) in
            (noted s x (added x.id x.content x.order_key), ground (arith, free, e))
      ]
  sync_entry_run fresh existing index (some id) content s there =
      let (h, e) = note_update_run there.known content s in
      let r = there.row in
      let new : Child = record r { content = content; order_key = index_to_order_key index } in
      let same : new ≡ row_of case index (record { id = id; content = content }) =
        rw (there.id_of, there.case_of) refl in
      (
        h,
        rw there.known_at (
            sync_existing_run index id content there.known r s h e there.stored
            ∙ ap (λ q. (ok tt, written s id q h)) same),
      )

  pub sync_entries_run :
      (fresh : ℕ → ℕ) (existing : List Child) (index : ℕ) (es : List Entry) (s : Db c)
      → all_different (map item_id (requested fresh index es)) ≡ true
      → Ready c s.items case existing fresh index es
      → (h : List History) × (sync_entries c t case user group fresh existing index es s ≡ (
        ok tt,
        record s {
          items = put_rows c s.items (numbered case index (requested fresh index es));
          history = h;
        },
      ))
  unfolding sync_entries
  sync_entries_run fresh existing index [] s d ready = (s.history, refl)
  sync_entries_run fresh existing index (e ∷ es) s d (r, rs) =
      let (h, run) = sync_entry_run fresh existing index e.id e.content s r in
      let id = id_or e.id (fresh index) in
      let row = row_of case index (record { id = id; content = e.content }) in
      let s' = written s id row h in
      let (h', rest) =
        sync_entries_run fresh existing (suc index) es s' (ground (arith, d))
          (Ready-write c s.items case existing fresh (suc index) es row (ground (arith, d)) rs) in
      (h', rw run rest)
