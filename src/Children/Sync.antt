-- ===== src/Children/Sync.antt =====
-- syncChildEntitiesWithHistory of apps/api/src/services/test-case-children.service.ts: the children of
-- a test case are made those of a list, within the transaction of the caller.
pub mod Deleting
pub mod Writing
pub mod Running
pub mod Readiness
pub mod Outcome
pub mod Request
mod Tests
use agentest.Shared.{
  ℕ, suc, Bool, Option, none, some, List, [], ◌∷◌, map, if◌then◌else◌, ◌==◌, false, includes, Exec,
  pure, throw, ◌>>=◌, ◌>>◌, create, update, delete, bad_request, invalid_child_id,
}
use agentest.OrderKey.{index_to_order_key}
use agentest.Children.{
  TestCase, Child, Client, Db, added, updated, deleted, child_id, create_history, item_rows,
  set_items,
}

-- An entry of the list: a child that is there, by its id, or a new one.
pub record Entry : Type 0 where
  pub id : Option ℕ
  pub content : ℕ

-- `new Set(items.filter((i) => i.id).map((i) => i.id))`
abbrev pub with_id : Option ℕ → List ℕ → List ℕ
with_id none ids = ids
with_id (some id) ids = id ∷ ids

abbrev pub request_ids : List Entry → List ℕ
request_ids [] = []
request_ids (e ∷ es) = with_id e.id (request_ids es)

-- `existingMap.get(id)`
abbrev pub child_of : List Child → ℕ → Option Child
child_of [] id = none
child_of (x ∷ xs) id = let rest = child_of xs id in if x.id == id then some x else rest

-- The rows of the existing children that are not requested.
abbrev pub unrequested : List ℕ → List Child → List Child
unrequested ids [] = []
unrequested ids (x ∷ xs) =
    let rest = unrequested ids xs in if includes ids x.id then rest else x ∷ rest

module _ (c : Client) (t : TestCase) (case user group : ℕ) where
  pub delete_children : List Child → Exec (Db c) (Unit {0})
  unfolding create_history
  delete_children [] = pure tt
  delete_children (x ∷ xs) = do
    _ ← delete c.items (item_rows c) (set_items c) x.id
    create_history c t case user group (x ∷ []) (deleted x.id x.content x.order_key)
    delete_children xs

  -- The history of an update has a row only if the content changes.
  note_update : Child → ℕ → Exec (Db c) (Unit {0})
  unfolding create_history
  note_update x content =
      if x.content == content
      then pure tt
      else create_history c t case user group (x ∷ []) (updated x.id x.content content)

  sync_existing : ℕ → ℕ → ℕ → Option Child → Exec (Db c) (Unit {0})
  unfolding note_update
  sync_existing index id content none = throw (bad_request invalid_child_id)
  sync_existing index id content (some x) = do
    note_update x content
    _ ←
        update c.items (item_rows c) (set_items c) id
          (λ y. record y { content = content; order_key = index_to_order_key index })
    pure tt

  -- `fresh` gives the id of the row that is made for the entry at an index.
  sync_new : (ℕ → ℕ) → ℕ → ℕ → Exec (Db c) (Unit {0})
  unfolding create_history
  sync_new fresh index content = do
    x ←
        create c.items (item_rows c) (set_items c) (fresh index) (λ r. false)
          (record {
            id = fresh index;
            test_case_id = case;
            content = content;
            order_key = index_to_order_key index;
          })
    create_history c t case user group (x ∷ []) (added x.id x.content x.order_key)

  sync_entry : (ℕ → ℕ) → List Child → ℕ → Option ℕ → ℕ → Exec (Db c) (Unit {0})
  unfolding sync_existing sync_new
  sync_entry fresh existing index none content = sync_new fresh index content
  sync_entry fresh existing index (some id) content =
      sync_existing index id content (child_of existing id)

  pub sync_entries : (ℕ → ℕ) → List Child → ℕ → List Entry → Exec (Db c) (Unit {0})
  unfolding sync_entry
  sync_entries fresh existing index [] = pure tt
  sync_entries fresh existing index (e ∷ es) = do
    sync_entry fresh existing index e.id e.content
    sync_entries fresh existing (suc index) es

  pub sync_children : (ℕ → ℕ) → List Entry → List Child → Exec (Db c) (Unit {0})
  unfolding delete_children sync_entries
  sync_children fresh items existing = do
    delete_children (unrequested (request_ids items) existing)
    sync_entries fresh existing 0 items
