-- ===== src/Access/Laws.antt =====
-- The gates of the REST API with the roles that the routes give for writing, and the internal API of
-- the MCP server.
use agentest.Shared.{ℕ, ◌≡◌, Bool, true, false, none, some, List, [], ◌∷◌, arith, Result, ok, err}
use agentest.Access.{
  ProjectRole, admin, write, World, can_access_project, can_write_to_project,
  can_write_to_test_suite, can_write_to_execution,
}
use agentest.Access.Gates.{
  Request, Admitted, require_project_role, require_test_suite_role, require_execution_role,
  check_project,
}

-- Whether the middleware called `next()`.
abbrev pub passes : Result Admitted × World → Bool
passes (ok a, w) = true
passes (err e, w) = false

abbrev pub writers : List ProjectRole
writers = admin ∷ write ∷ []

-- An authenticated request with an id among the path's parameters.
abbrev pub asking : ℕ → ℕ → Request
asking user id = record { user = some user; param = some id; body = none }

-- The project gate with the roles ADMIN and WRITE calls next for an authenticated user and a
-- project id exactly when canWriteToProject is true of them, for every content of the database.
pub require_project_role-can_write :
    (w : World) (user project : ℕ)
    → passes (require_project_role writers false (asking user project) w)
      ≡ can_write_to_project w user project
unfolding require_project_role can_write_to_project
require_project_role-can_write w user project = ground arith

check_project-can_write :
    (w : World) (user project : ℕ) (set : Admitted)
    → passes (check_project writers user project set w) ≡ can_write_to_project w user project
unfolding check_project can_write_to_project
check_project-can_write w user project set = ground arith

-- For an id that is a UUID, the test suite gate with the roles ADMIN and WRITE, deleted suites
-- not allowed, calls next for an authenticated user exactly when canWriteToTestSuite is true of
-- them.
pub require_test_suite_role-can_write :
    (is_uuid : ℕ → Bool) (w : World) (user id : ℕ)
    → is_uuid id ≡ true
    → passes (require_test_suite_role is_uuid writers false (asking user id) w)
      ≡ can_write_to_test_suite w user id
unfolding require_test_suite_role can_write_to_test_suite can_write_to_project
require_test_suite_role-can_write is_uuid w user id h = ground arith

-- For an id that is a UUID, the execution gate with the roles WRITE and ADMIN calls next for an
-- authenticated user exactly when canWriteToExecution is true of them.
pub require_execution_role-can_write :
    (is_uuid : ℕ → Bool) (w : World) (user id : ℕ)
    → is_uuid id ≡ true
    → passes (require_execution_role is_uuid (write ∷ admin ∷ []) (asking user id) w)
      ≡ can_write_to_execution w user id
unfolding require_execution_role can_write_to_execution can_write_to_test_suite can_write_to_project
require_execution_role-can_write is_uuid w user id h = ground arith

-- Whoever canWriteToProject allows to write to a project, canAccessProject allows to read it.
pub can_access-of-can_write :
    (w : World) (user project : ℕ)
    → can_write_to_project w user project ≡ true
    → can_access_project w user project ≡ true
unfolding can_write_to_project can_access_project
can_access-of-can_write w user project h = ground arith
