-- ===== src/Children/Services.antt =====
-- The three services. They differ in names, in the table that `c` has under `items`, and in the
-- resource that the errors name.
use agentest.Shared.{ℕ, Option, List, Exec, step, precondition, expected_result}
use agentest.Children.{
  Child, Client, Db, get_children, add_child, update_child, delete_child, reorder_children,
}

module _ (c : Client) where
  abbrev pub get_steps : ℕ → Exec (Db c) (List Child)
  get_steps = get_children c

  abbrev pub add_step : ℕ → ℕ → ℕ → Option (List ℕ) → ℕ → ℕ → Exec (Db c) Child
  add_step = add_child c

  abbrev pub update_step : ℕ → ℕ → ℕ → ℕ → ℕ → Exec (Db c) Child
  update_step = update_child c step

  abbrev pub delete_step : ℕ → ℕ → ℕ → ℕ → Exec (Db c) (Unit {0})
  delete_step = delete_child c step

  abbrev pub reorder_steps : ℕ → List ℕ → ℕ → ℕ → Exec (Db c) (List Child)
  reorder_steps = reorder_children c step

  abbrev pub get_preconditions : ℕ → Exec (Db c) (List Child)
  get_preconditions = get_children c

  abbrev pub add_precondition : ℕ → ℕ → ℕ → Option (List ℕ) → ℕ → ℕ → Exec (Db c) Child
  add_precondition = add_child c

  abbrev pub update_precondition : ℕ → ℕ → ℕ → ℕ → ℕ → Exec (Db c) Child
  update_precondition = update_child c precondition

  abbrev pub delete_precondition : ℕ → ℕ → ℕ → ℕ → Exec (Db c) (Unit {0})
  delete_precondition = delete_child c precondition

  abbrev pub reorder_preconditions : ℕ → List ℕ → ℕ → ℕ → Exec (Db c) (List Child)
  reorder_preconditions = reorder_children c precondition

  abbrev pub get_expected_results : ℕ → Exec (Db c) (List Child)
  get_expected_results = get_children c

  abbrev pub add_expected_result : ℕ → ℕ → ℕ → Option (List ℕ) → ℕ → ℕ → Exec (Db c) Child
  add_expected_result = add_child c

  abbrev pub update_expected_result : ℕ → ℕ → ℕ → ℕ → ℕ → Exec (Db c) Child
  update_expected_result = update_child c expected_result

  abbrev pub delete_expected_result : ℕ → ℕ → ℕ → ℕ → Exec (Db c) (Unit {0})
  delete_expected_result = delete_child c expected_result

  abbrev pub reorder_expected_results : ℕ → List ℕ → ℕ → ℕ → Exec (Db c) (List Child)
  reorder_expected_results = reorder_children c expected_result
