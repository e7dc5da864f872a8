-- ===== src/Access.antt =====
-- apps/api/src/services/authorization.service.ts and
-- apps/api/src/services/internal-authorization.service.ts. They only read: `World` has the answer
-- of the database to each query that they, and the middleware of Access/Gates, make.
pub mod Gates
pub mod Laws
pub mod Listing
mod Tests
use agentest.Shared.{
  ℕ, ◌≡◌, ◌==◌, ◌&&◌, Bool, true, false, ◌||◌, Option, none, some, List, [], ◌∷◌, ◌++◌, map,
  if◌then◌else◌, includes, is_some,
}

pub data ProjectRole : Type 0 where
  owner admin write read : ProjectRole

pub data OrganizationRole : Type 0 where
  org_owner org_admin member : OrganizationRole

pub data TargetType : Type 0 where
  suite case : TargetType

pub record Project : Type 0 where
  pub organization_id : Option ℕ
  pub deleted_at : Option ℕ

pub record TestSuite : Type 0 where
  pub project_id : ℕ
  pub deleted_at : Option ℕ

pub record TestCase : Type 0 where
  pub test_suite_id : ℕ
  pub deleted_at : Option ℕ

pub record ReviewComment : Type 0 where
  pub target_type : TargetType
  pub target_id : ℕ

-- A user's own memberships are keyed by project, or organization, and user.
pub record World : Type 0 where
  pub project : ℕ → Option Project
  pub project_member : ℕ → ℕ → Option ProjectRole
  pub organization_member : ℕ → ℕ → Option OrganizationRole
  pub organization_deleted_at : ℕ → Option ℕ
  pub test_suite : ℕ → Option TestSuite
  pub test_case : ℕ → Option TestCase
  pub execution : ℕ → Option ℕ
  pub review_comment : ℕ → Option ReviewComment
  pub user_deleted_at : ℕ → Option (Option ℕ)

abbrev pub same_role : ProjectRole → ProjectRole → Bool
same_role owner owner = true
same_role admin admin = true
same_role write write = true
same_role read read = true
same_role _ _ = false

-- `roles.includes(role)`
abbrev pub has_role : List ProjectRole → ProjectRole → Bool
has_role [] r = false
has_role (x ∷ xs) r = same_role x r || has_role xs r

abbrev pub is_owner : ProjectRole → Bool
is_owner owner = true
is_owner _ = false

-- `['OWNER', 'ADMIN'].includes(orgMember.role)`
abbrev pub manages : OrganizationRole → Bool
manages org_owner = true
manages org_admin = true
manages member = false

-- `['OWNER', 'ADMIN', 'WRITE'].includes(projectMember.role)`
abbrev pub writes : ProjectRole → Bool
writes read = false
writes _ = true

abbrev pub holds {ℓ} : {R : Type ℓ} → (R → Bool) → Option R → Bool
holds p none = false
holds p (some r) = p r

-- The branch `if (project.organizationId) { … }`.
abbrev pub via_organization : World → (OrganizationRole → Bool) → Option ℕ → ℕ → Bool
via_organization w p none user = false
via_organization w p (some org) user = holds p (w.organization_member org user)

abbrev pub organization_of : Option Project → Option ℕ
organization_of none = none
organization_of (some q) = q.organization_id

pub check_project_role : World → ℕ → ℕ → List ProjectRole → Bool
check_project_role w user project roles =
    if holds (λ r. is_owner r || has_role roles r) (w.project_member project user)
    then true
    else via_organization w manages (organization_of (w.project project)) user

abbrev pub live_project : Option Project → (Project → Bool) → Bool
live_project none k = false
live_project (some q) k = if is_some q.deleted_at then false else k q

abbrev pub live_suite : Option TestSuite → (TestSuite → Bool) → Bool
live_suite none k = false
live_suite (some t) k = if is_some t.deleted_at then false else k t

pub can_access_project : World → ℕ → ℕ → Bool
can_access_project w user project = live_project (w.project project) λ q.
    if is_some (w.project_member project user)
    then true
    else via_organization w (λ r. true) q.organization_id user

pub can_access_test_suite : World → ℕ → ℕ → Bool
can_access_test_suite w user test_suite =
    live_suite (w.test_suite test_suite) λ t. can_access_project w user t.project_id

pub can_write_to_project : World → ℕ → ℕ → Bool
can_write_to_project w user project = live_project (w.project project) λ q.
    if holds writes (w.project_member project user)
    then true
    else via_organization w manages q.organization_id user

pub can_write_to_test_suite : World → ℕ → ℕ → Bool
can_write_to_test_suite w user test_suite =
    live_suite (w.test_suite test_suite) λ t. can_write_to_project w user t.project_id

pub can_write_to_execution : World → ℕ → ℕ → Bool
can_write_to_execution w user execution =
    holds (λ t. can_write_to_test_suite w user t) (w.execution execution)

-- `Array.from(new Set(ids))`: each id once, in the order of the first occurrences.
pub unique_from : List ℕ → List ℕ → List ℕ
unique_from seen [] = []
unique_from seen (x ∷ xs) =
    let rest = unique_from (x ∷ seen) xs in
    let skipped = unique_from seen xs in if includes seen x then skipped else x ∷ rest

-- The columns of a membership that the filters and the selection below read.
pub record ProjectMember : Type 0 where
  pub project_id : ℕ
  pub user_id : ℕ

abbrev pub has_member : ℕ → ℕ → List ProjectMember → Bool
has_member project user [] = false
has_member project user (m ∷ ms) =
    (m.project_id == project && m.user_id == user) || has_member project user ms

-- `prisma.projectMember.findMany` and `prisma.project.findMany` (with the ids selected) on the
-- tables of `w`: the answer is the rows that satisfy the filter, in any order.
pub record FindMany (w : World) : Type 0 where
  pub find_members : (ProjectMember → Bool) → List ProjectMember
  pub find_projects : (Project → Bool) → List ℕ
  pub has_member-find_members :
      (f : ProjectMember → Bool) (p u : ℕ)
      → has_member p u (find_members f)
        ≡ (is_some (w.project_member p u) && f (record { project_id = p; user_id = u }))
  pub includes-find_projects :
      (f : Project → Bool) (p : ℕ) → includes (find_projects f) p ≡ holds f (w.project p)

-- `{ userId, project: { deletedAt: null } }`
pub is_direct : World → ℕ → ProjectMember → Bool
is_direct w user m = m.user_id == user && live_project (w.project m.project_id) (λ q. true)

-- `{ organization: { members: { some: { userId } } }, deletedAt: null }`
pub is_of_organization : World → ℕ → Project → Bool
is_of_organization w user q =
    via_organization w (λ r. true) q.organization_id user
    && (if is_some q.deleted_at then false else true)

pub get_accessible_project_ids : (w : World) → FindMany w → ℕ → List ℕ
unfolding unique_from is_direct is_of_organization
get_accessible_project_ids w db user = unique_from [] (
    map (λ m. m.project_id) (db.find_members (is_direct w user))
    ++ db.find_projects (is_of_organization w user))
