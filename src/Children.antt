-- ===== src/Children.antt =====
-- apps/api/src/services/test-case-steps.service.ts, test-case-preconditions.service.ts and
-- test-case-expected-results.service.ts: the children of a test case, in the order of their keys.
-- The three services differ in names only; `kind` is the resource that an error names.
pub mod Services
pub mod Outline
pub mod Frames
pub mod Renumber
pub mod Operations
pub mod Lookup
pub mod Appending
pub mod Editing
pub mod Cutting
pub mod Removal
pub mod Picking
pub mod Arrangement
pub mod Refinement
pub mod Sync
mod Tests
use agentest.Shared.{
  ℕ, zero, suc, ◌+◌, Bool, true, false, not, ◌&&◌, Option, none, some, List, [], ◌∷◌, ◌++◌, map,
  if◌then◌else◌, ◌==◌, is_some, length, every, includes, keep_if, Delegate, Listing, Exec, ok, err,
  pure, throw, guard, gets, modify, or_throw, transaction, ◌>>=◌, ◌>>◌, find_unique, create, update,
  delete, Resource, test_case, not_found, bad_request, duplicate_ids, ids_incomplete,
}
use mathlib.Core.Option
use agentest.OrderKey.{index_to_order_key, get_next_order_key, text_lt}

pub record TestCase : Type 0 where
  pub id : ℕ
  pub test_suite_id : ℕ
  pub title : ℕ
  pub description : Option ℕ
  pub priority : ℕ
  pub status : ℕ
  pub deleted_at : Option ℕ

pub record Child : Type 0 where
  pub id : ℕ
  pub test_case_id : ℕ
  pub content : ℕ
  pub order_key : List ℕ

pub data ChangeDetail : Type 0 where
  added : ℕ → ℕ → List ℕ → ChangeDetail
  updated : ℕ → ℕ → ℕ → ChangeDetail
  deleted : ℕ → ℕ → List ℕ → ChangeDetail
  reordered : List ℕ → List ℕ → ChangeDetail

-- A row of TestCaseHistory: the snapshot has the test case and the children that it names.
pub record History : Type 0 where
  pub test_case_id : ℕ
  pub changed_by_user_id : ℕ
  pub snapshot : TestCase
  pub children : List Child
  pub change_detail : ChangeDetail
  pub group_id : ℕ

abbrev pub child_id : Child → ℕ
child_id x = x.id

abbrev pub by_key : Child → Child → Bool
by_key x y = text_lt x.order_key y.order_key

abbrev pub in_case : ℕ → Child → Bool
in_case case x = x.test_case_id == case

pub record Client : Type 1 where
  pub cases : Delegate ℕ TestCase ◌==◌
  pub items : Delegate ℕ Child ◌==◌
  pub listing : Listing Child by_key child_id items

pub record Db (c : Client) : Type 0 where
  pub cases : c.cases.Rows
  pub items : c.items.Rows
  pub history : List History

-- `new Set(ids).size === ids.length`
abbrev pub all_different : List ℕ → Bool
all_different [] = true
all_different (x ∷ xs) = not (includes xs x) && all_different xs

abbrev pub same_ids : List ℕ → List ℕ → Bool
same_ids [] ys = true
same_ids (x ∷ xs) [] = false
same_ids (x ∷ xs) (y ∷ ys) = x == y && same_ids xs ys

abbrev pub is_empty : {A : Type 0} → List A → Bool
is_empty [] = true
is_empty (x ∷ xs) = false

module _ (c : Client) where
  abbrev case_rows : Db c → c.cases.Rows
  case_rows s = s.cases

  abbrev set_cases : Db c → c.cases.Rows → Db c
  set_cases s t = record s { cases = t }

  abbrev pub item_rows : Db c → c.items.Rows
  item_rows s = s.items

  abbrev pub set_items : Db c → c.items.Rows → Db c
  set_items s t = record s { items = t }

  abbrev live_case : Option TestCase → Option TestCase
  live_case none = none
  live_case (some t) = if is_some t.deleted_at then none else some t

  pub find_case : ℕ → Exec (Db c) TestCase
  find_case case = do
    found ← find_unique c.cases case_rows set_cases case
    or_throw (live_case found) (not_found test_case)

  create_history : TestCase → ℕ → ℕ → ℕ → List Child → ChangeDetail → Exec (Db c) (Unit {0})
  create_history t case user group children detail = modify (λ s. record s {
    history =
        s.history
        ++ record {
          test_case_id = case;
          changed_by_user_id = user;
          snapshot = t;
          children = children;
          change_detail = detail;
          group_id = group;
        }
          ∷ [];
  })

  -- `findMany({ where: { testCaseId }, orderBy: { orderKey: 'asc' } })`
  abbrev items_of : ℕ → Exec (Db c) (List Child)
  items_of case = gets (λ s. c.listing.find_many s.items (in_case case))

  pub get_children : ℕ → Exec (Db c) (List Child)
  unfolding find_case
  get_children case = do _ ← find_case case; items_of case

  next_key : ℕ → Exec (Db c) (List ℕ)
  next_key case = gets (λ s.
      get_next_order_key
        (Option.map (λ x. x.order_key) (c.listing.find_last s.items (in_case case))))

  -- The empty text counts as no key.
  choose_key : ℕ → Option (List ℕ) → Exec (Db c) (List ℕ)
  unfolding next_key
  choose_key case none = next_key case
  choose_key case (some []) = next_key case
  choose_key case (some (x ∷ xs)) = pure (x ∷ xs)

  -- `fresh` is the id of the new row.
  pub insert_child : TestCase → ℕ → ℕ → ℕ → Option (List ℕ) → ℕ → ℕ → Exec (Db c) Child
  unfolding choose_key create_history
  insert_child t case user content order_key group fresh = transaction (do
    key ← choose_key case order_key
    x ←
        create c.items item_rows set_items fresh (λ r. false)
          (record { id = fresh; test_case_id = case; content = content; order_key = key })
    create_history t case user group (x ∷ []) (added x.id x.content x.order_key)
    pure x)

  pub add_child : ℕ → ℕ → ℕ → Option (List ℕ) → ℕ → ℕ → Exec (Db c) Child
  unfolding find_case insert_child
  add_child case user content order_key group fresh = do
    t ← find_case case
    insert_child t case user content order_key group fresh

  -- The update of every key, one after the other.
  pub renumber : ℕ → List ℕ → Exec (Db c) (Unit {0})
  renumber index [] = pure tt
  renumber index (id ∷ ids) = do
    _ ←
        update c.items item_rows set_items id
          (λ x. record x { order_key = index_to_order_key index })
    renumber (suc index) ids

  module _ (kind : Resource) where
    -- `findFirst({ where: { id, testCaseId } })`
    pub find_child : ℕ → ℕ → Exec (Db c) Child
    find_child case id = do
      found ← find_unique c.items item_rows set_items id
      or_throw (keep_if (in_case case) found) (not_found kind)

    pub rewrite_child : TestCase → ℕ → ℕ → ℕ → ℕ → ℕ → Child → Exec (Db c) Child
    unfolding create_history
    rewrite_child t case id user content group x = transaction (do
      create_history t case user group (x ∷ []) (updated id x.content content)
      update c.items item_rows set_items id (λ y. record y { content = content }))

    pub update_child : ℕ → ℕ → ℕ → ℕ → ℕ → Exec (Db c) Child
    unfolding find_case find_child rewrite_child
    update_child case id user content group = do
      t ← find_case case
      x ← find_child case id
      if x.content == content then pure x else rewrite_child t case id user content group x

    pub remove_child : TestCase → ℕ → ℕ → ℕ → ℕ → Child → Exec (Db c) (Unit {0})
    unfolding create_history
    remove_child t case id user group x = transaction (do
      create_history t case user group (x ∷ []) (deleted id x.content x.order_key)
      _ ← delete c.items item_rows set_items id
      rest ← items_of case
      renumber 0 (map child_id rest))

    pub delete_child : ℕ → ℕ → ℕ → ℕ → Exec (Db c) (Unit {0})
    unfolding find_case find_child remove_child
    delete_child case id user group = do
      t ← find_case case
      x ← find_child case id
      remove_child t case id user group x

    pub arrange_children : TestCase → ℕ → List ℕ → ℕ → ℕ → List Child → Exec (Db c) (List Child)
    unfolding create_history
    arrange_children t case ids user group current = do
      transaction (do
        create_history t case user group current (reordered (map child_id current) ids)
        renumber 0 ids)
      items_of case

    pub permute_children : TestCase → ℕ → List ℕ → ℕ → ℕ → List Child → Exec (Db c) (List Child)
    unfolding arrange_children
    permute_children t case ids user group current = do
      guard (all_different ids) (bad_request duplicate_ids)
      guard (length ids == length current) (bad_request ids_incomplete)
      guard (every (includes (map child_id current)) ids) (not_found kind)
      (if same_ids (map child_id current) ids
          then pure current
          else arrange_children t case ids user group current)

    pub reorder_children : ℕ → List ℕ → ℕ → ℕ → Exec (Db c) (List Child)
    unfolding find_case permute_children
    reorder_children case ids user group = do
      t ← find_case case
      current ← items_of case
      (if is_empty current && is_empty ids
          then pure []
          else permute_children t case ids user group current)
