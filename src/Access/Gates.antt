-- ===== src/Access/Gates.antt =====
-- The middleware that admits a request: packages/auth/src/middleware.ts and, under
-- apps/api/src/middleware, require-ownership.ts, require-execution-role.ts,
-- require-test-suite-role.ts, require-test-case-role.ts and require-review-comment-role.ts.
-- `ok` is a call of `next()`, with the parameters that the middleware sets; `err` is `next(error)`.
use agentest.Shared.{
  ℕ, Bool, not, ◌||◌, Option, none, some, List, is_id, is_some, or_else, Exec, pure, gets, guard,
  or_throw, ◌>>=◌, ◌>>◌, authentication, authorization, bad_request, not_found, record_missing,
  not_authenticated, insufficient_permissions, organization_id_required, organization_deleted,
  project_id_required, project_missing, project_deleted, not_resource_owner, id_required, id_format,
  suite_deleted, execution, test_suite, test_case, review_comment, project,
}
use agentest.Access.{
  ProjectRole, OrganizationRole, Project, TargetType, suite, case, World, has_role, is_owner,
  manages, holds, via_organization,
}

-- The part of a request that the middleware reads: the authenticated user, the id among the path's
-- parameters and the one in the body. An empty text is absent.
pub record Request : Type 0 where
  pub user : Option ℕ
  pub param : Option ℕ
  pub body : Option ℕ

-- `req.params.projectId` and `req.params.testSuiteId`, where the middleware sets them.
pub record Admitted : Type 0 where
  pub project_id : Option ℕ
  pub test_suite_id : Option ℕ

abbrev pub nothing_set : Admitted
nothing_set = record { project_id = none; test_suite_id = none }

-- `requireOrgRole`; `admits` is `roles.includes`.
unfoldable pub require_org_role : (OrganizationRole → Bool) → Bool → Request → Exec World Admitted
require_org_role admits allow_deleted req = do
  user ← or_throw req.user (authentication not_authenticated)
  org ← or_throw (or_else req.param req.body) (authorization organization_id_required)
  found ← gets (λ w. w.organization_member org user)
  guard (holds admits found) (authorization insufficient_permissions)
  deleted ← gets (λ w. w.organization_deleted_at org)
  guard (not (is_some deleted) || allow_deleted) (authorization organization_deleted)
  pure nothing_set

-- What follows the check of the project in each middleware: the owner, a listed role, or an
-- organization's owner or admin.
unfoldable pub check_membership :
    List ProjectRole → ℕ → ℕ → Project → Admitted → Exec World Admitted
check_membership roles user id q set = do
  found ← gets (λ w. w.project_member id user)
  by_org ← gets (λ w. via_organization w manages q.organization_id user)
  guard (holds (λ r. is_owner r || has_role roles r) found || by_org)
      (authorization insufficient_permissions)
  pure set

unfoldable pub require_project_role : List ProjectRole → Bool → Request → Exec World Admitted
unfolding check_membership
require_project_role roles allow_deleted req = do
  user ← or_throw req.user (authentication not_authenticated)
  id ← or_throw (or_else req.param req.body) (authorization project_id_required)
  found ← gets (λ w. w.project id)
  q ← or_throw found (authorization project_missing)
  guard (not (is_some q.deleted_at) || allow_deleted) (authorization project_deleted)
  check_membership roles user id q nothing_set

-- A deleted project is refused, and then the membership is checked. A reference to a project that
-- is not there cannot be stored; the join would throw.
unfoldable pub check_project : List ProjectRole → ℕ → ℕ → Admitted → Exec World Admitted
unfolding check_membership
check_project roles user id set = do
  found ← gets (λ w. w.project id)
  q ← or_throw found record_missing
  guard (not (is_some q.deleted_at)) (authorization project_deleted)
  check_membership roles user id q set

unfoldable pub require_ownership : Request → Exec World Admitted
require_ownership req = do
  user ← or_throw req.user (authorization not_authenticated)
  guard (is_id req.param user) (authorization not_resource_owner)
  pure nothing_set

-- `is_uuid` is the schema `z.string().uuid()`.
module _ (is_uuid : ℕ → Bool) where
  unfoldable pub require_test_suite_role : List ProjectRole → Bool → Request → Exec World Admitted
  unfolding check_project
  require_test_suite_role roles allow_deleted req = do
    user ← or_throw req.user (authentication not_authenticated)
    id ← or_throw req.param (authorization id_required)
    guard (is_uuid id) (bad_request id_format)
    found ← gets (λ w. w.test_suite id)
    t ← or_throw found (not_found test_suite)
    guard (not (is_some t.deleted_at) || allow_deleted) (not_found test_suite)
    check_project roles user t.project_id
        (record { project_id = some t.project_id; test_suite_id = none })

  unfoldable pub require_test_case_role : List ProjectRole → Bool → Request → Exec World Admitted
  unfolding check_project
  require_test_case_role roles allow_deleted req = do
    user ← or_throw req.user (authentication not_authenticated)
    id ← or_throw req.param (authorization id_required)
    guard (is_uuid id) (bad_request id_format)
    found ← gets (λ w. w.test_case id)
    c ← or_throw found (not_found test_case)
    guard (not (is_some c.deleted_at) || allow_deleted) (not_found test_case)
    joined ← gets (λ w. w.test_suite c.test_suite_id)
    t ← or_throw joined record_missing
    guard (not (is_some t.deleted_at)) (authorization suite_deleted)
    check_project roles user t.project_id
        (record { project_id = some t.project_id; test_suite_id = some c.test_suite_id })

  unfoldable pub require_execution_role : List ProjectRole → Request → Exec World Admitted
  unfolding check_project
  require_execution_role roles req = do
    user ← or_throw req.user (authentication not_authenticated)
    id ← or_throw req.param (authorization id_required)
    guard (is_uuid id) (bad_request id_format)
    found ← gets (λ w. w.execution id)
    suite_id ← or_throw found (not_found execution)
    joined ← gets (λ w. w.test_suite suite_id)
    t ← or_throw joined record_missing
    guard (not (is_some t.deleted_at)) (authorization suite_deleted)
    check_project roles user t.project_id
        (record { project_id = some t.project_id; test_suite_id = some suite_id })

  live_suite_project : ℕ → Exec World ℕ
  live_suite_project id = do
    found ← gets (λ w. w.test_suite id)
    t ← or_throw found (not_found test_suite)
    guard (not (is_some t.deleted_at)) (not_found test_suite)
    pure t.project_id

  live_case_project : ℕ → Exec World ℕ
  live_case_project id = do
    found ← gets (λ w. w.test_case id)
    c ← or_throw found (not_found test_case)
    guard (not (is_some c.deleted_at)) (not_found test_case)
    joined ← gets (λ w. w.test_suite c.test_suite_id)
    t ← or_throw joined record_missing
    pure t.project_id

  comment_project : TargetType → ℕ → Exec World ℕ
  unfolding live_suite_project live_case_project
  comment_project suite id = live_suite_project id
  comment_project case id = live_case_project id

  unfoldable pub require_review_comment_role : List ProjectRole → Request → Exec World Admitted
  unfolding check_membership comment_project
  require_review_comment_role roles req = do
    user ← or_throw req.user (authentication not_authenticated)
    id ← or_throw req.param (authorization id_required)
    guard (is_uuid id) (bad_request id_format)
    found ← gets (λ w. w.review_comment id)
    c ← or_throw found (not_found review_comment)
    project_id ← comment_project c.target_type c.target_id
    joined ← gets (λ w. w.project project_id)
    q ← or_throw joined (not_found project)
    guard (not (is_some q.deleted_at)) (authorization project_deleted)
    check_membership roles user project_id q
        (record { project_id = some project_id; test_suite_id = none })
