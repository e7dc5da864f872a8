-- ===== src/Access/Tests.antt =====
-- The access rules on one small organization.
use agentest.Shared.{
  ℕ, ◌≡◌, refl, Bool, true, false, none, some, [], ◌∷◌, if◌then◌else◌, ◌==◌, Bool-cases, ==_iff,
  inl, inr, arith, List, ◌&&◌, is_some, includes,
}
use agentest.Access.{
  ProjectRole, write, org_admin, World, can_access_project, can_write_to_project,
  get_accessible_project_ids, FindMany, ProjectMember, Project, has_member, holds,
  can_write_to_test_suite, can_write_to_execution,
}
use agentest.Access.Gates.{require_project_role, require_test_suite_role, require_execution_role}
use agentest.Access.Laws.{
  passes, writers, asking, require_project_role-can_write, require_test_suite_role-can_write,
  require_execution_role-can_write, can_access-of-can_write,
}
use agentest.Access.Listing.{occurrences, occurrences-get_accessible_project_ids}

-- Project 10 belongs to organization 5; user 1 writes to it, user 2 is the organization's admin.
abbrev small : World
small = record {
  project =
      λ p. if p == 10 then some (record { organization_id = some 5; deleted_at = none }) else none;
  project_member = λ p u. if p == 10 then (if u == 1 then some write else none) else none;
  organization_member = λ o u. if u == 2 then some org_admin else none;
  organization_deleted_at = λ o. none;
  test_suite = λ t. if t == 20 then some (record { project_id = 10; deleted_at = none }) else none;
  test_case = λ c. none;
  execution = λ e. if e == 30 then some 20 else none;
  review_comment = λ c. none;
  user_deleted_at = λ u. some none;
}

any_uuid : ℕ → Bool
any_uuid id = true

require_project_role-can_write_example :
    passes (require_project_role writers false (asking 2 10) small)
    ≡ can_write_to_project small 2 10
require_project_role-can_write_example = require_project_role-can_write small 2 10

require_test_suite_role-can_write_example :
    passes (require_test_suite_role any_uuid writers false (asking 1 20) small)
    ≡ can_write_to_test_suite small 1 20
unfolding any_uuid
require_test_suite_role-can_write_example =
    require_test_suite_role-can_write any_uuid small 1 20 refl

require_execution_role-can_write_example :
    passes (require_execution_role any_uuid (write ∷ ProjectRole.admin ∷ []) (asking 1 30) small)
    ≡ can_write_to_execution small 1 30
unfolding any_uuid
require_execution_role-can_write_example = require_execution_role-can_write any_uuid small 1 30 refl

can_access-of-can_write_example : can_access_project small 1 10 ≡ true
unfolding can_write_to_project
can_access-of-can_write_example = can_access-of-can_write small 1 10 refl

-- The one membership and the one project of `small`, if they satisfy the filter.
abbrev small_member : ProjectMember
small_member = record { project_id = 10; user_id = 1 }

abbrev members_answer : (ProjectMember → Bool) → List ProjectMember
members_answer f = if f small_member then small_member ∷ [] else []

abbrev projects_answer : (Project → Bool) → List ℕ
projects_answer f =
    if f (record { organization_id = some 5; deleted_at = none }) then 10 ∷ [] else []

has_member-members_answer :
    (f : ProjectMember → Bool) (p u : ℕ)
    → has_member p u (members_answer f)
      ≡ (is_some (small.project_member p u) && f (record { project_id = p; user_id = u }))
has_member-members_answer f p u = elim (Bool-cases (p == 10)) [
  | inl e ↦ elim (Bool-cases (u == 1)) [
    | inl g ↦ ground (arith, (==_iff p 10).0 e, (==_iff u 1).0 g)
    | inr g ↦ ground (arith, e, g)
  ]
  | inr e ↦ ground (arith, e)
]

includes-projects_answer :
    (f : Project → Bool) (p : ℕ) → includes (projects_answer f) p ≡ holds f (small.project p)
includes-projects_answer f p = ground arith

abbrev small_answers : FindMany small
small_answers = record {
  find_members = members_answer;
  find_projects = projects_answer;
  has_member-find_members = has_member-members_answer;
  includes-find_projects = includes-projects_answer;
}

occurrences-get_accessible_project_ids_example :
    occurrences 10 (get_accessible_project_ids small small_answers 2)
    ≡ (if can_access_project small 2 10 then 1 else 0)
occurrences-get_accessible_project_ids_example =
    occurrences-get_accessible_project_ids small small_answers 2 10
