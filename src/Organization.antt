-- ===== src/Organization.antt =====
-- apps/api/src/services/organization.service.ts over
-- apps/api/src/repositories/organization.repository.ts. Audit records and notifications are left
-- out; names are numbers. `stamp` is the time that the database client writes into created_at and
-- updated_at of an organization, or, in the methods on invitations, the time that the method reads
-- when it writes.
pub mod Changes
pub mod Methods
pub mod Ownership
pub mod Invitations
pub mod Effects
mod Tests
use agentest.Shared.{
  ℕ, ◌+◌, ◌*◌, ◌≡◌, Bool, true, false, not, ◌&&◌, ◌||◌, Option, none, some, if◌then◌else◌, ltb,
  ◌==◌, is_id, is_some, Pair, same_pair, Delegate, Exec, pure, throw, guard, gets, or_throw,
  transaction, ◌>>=◌, ◌>>◌, find_unique, find_where, create, update, delete, Error, authorization,
  not_found, conflict, organization, organization_member, invitation, already_member,
  pending_exists, already_processed, invitation_expired, not_invitee, owner_role_fixed,
  owner_not_removable, not_invitation_org, grace_period_over, self_transfer, not_owner, or_else,
}
use agentest.Access.{OrganizationRole, org_owner, org_admin, member}

pub record Organization : Type 0 where
  pub name : ℕ
  pub description : Option ℕ
  pub avatar_url : Option ℕ
  pub created_at : ℕ
  pub updated_at : ℕ
  pub deleted_at : Option ℕ

-- The columns joined_at and created_at of members and invitations, which are set once and which no
-- method reads, are left out.
pub record Member : Type 0 where
  pub organization_id : ℕ
  pub user_id : ℕ
  pub role : OrganizationRole

pub record Invitation : Type 0 where
  pub id : ℕ
  pub organization_id : ℕ
  pub email : ℕ
  pub role : OrganizationRole
  pub token : ℕ
  pub invited_by_user_id : ℕ
  pub expires_at : ℕ
  pub accepted_at : Option ℕ
  pub declined_at : Option ℕ

-- The parameter type `'ADMIN' | 'MEMBER'`.
pub data GrantableRole : Type 0 where
  as_admin as_member : GrantableRole

abbrev pub granted : GrantableRole → OrganizationRole
granted as_admin = org_admin
granted as_member = member

pub data InvitationStatus : Type 0 where
  pending accepted declined expired : InvitationStatus

abbrev pub is_org_owner : OrganizationRole → Bool
is_org_owner org_owner = true
is_org_owner org_admin = false
is_org_owner member = false

abbrev pub is_open : Invitation → Bool
is_open i = not (is_some i.accepted_at) && not (is_some i.declined_at)

abbrev pub grace_period_days : ℕ
grace_period_days = 30

abbrev pub invitation_lifetime : ℕ
invitation_lifetime = 7 * 24 * 60 * 60 * 1000

-- The delegates, the users' emails and `Date.setDate` on the local calendar.
pub record Client : Type 1 where
  pub organizations : Delegate ℕ Organization ◌==◌
  pub members : Delegate Pair Member same_pair
  pub invitations : Delegate ℕ Invitation ◌==◌
  pub email_of : ℕ → Option ℕ
  pub user_of_email : ℕ → Option ℕ
  pub plus_days : ℕ → ℕ → ℕ

pub record Db (c : Client) : Type 0 where
  pub organizations : c.organizations.Rows
  pub members : c.members.Rows
  pub invitations : c.invitations.Rows

module _ (c : Client) where
  abbrev pub orgs : Db c → c.organizations.Rows
  orgs s = s.organizations

  abbrev pub set_orgs : Db c → c.organizations.Rows → Db c
  set_orgs s t = record s { organizations = t }

  abbrev pub mems : Db c → c.members.Rows
  mems s = s.members

  abbrev pub set_mems : Db c → c.members.Rows → Db c
  set_mems s t = record s { members = t }

  abbrev pub invs : Db c → c.invitations.Rows
  invs s = s.invitations

  abbrev pub set_invs : Db c → c.invitations.Rows → Db c
  set_invs s t = record s { invitations = t }

  -- `findFirst({ where: { id, deletedAt: null } })` and its counterpart for deleted rows.
  abbrev live_org : Option Organization → Option Organization
  live_org none = none
  live_org (some o) = if is_some o.deleted_at then none else some o

  abbrev dead_org : Option Organization → Option Organization
  dead_org none = none
  dead_org (some o) = if is_some o.deleted_at then some o else none

  pub find_by_id : ℕ → Exec (Db c) Organization
  find_by_id id = do
    found ← find_unique c.organizations orgs set_orgs id
    or_throw (live_org found) (not_found organization)

  -- `fresh` is the id that the database gives the organization.
  pub new_organization : ℕ → Option ℕ → ℕ → Organization
  new_organization name description stamp = record {
    name = name;
    description = description;
    avatar_url = none;
    created_at = stamp;
    updated_at = stamp;
    deleted_at = none;
  }

  pub create_organization : ℕ → ℕ → Option ℕ → ℕ → ℕ → Exec (Db c) Organization
  unfolding new_organization
  create_organization user name description fresh stamp = transaction (do
    o ←
        create c.organizations orgs set_orgs fresh (λ o. false)
          (new_organization name description stamp)
    _ ←
        create c.members mems set_mems (fresh, user) (λ m. false)
          (record { organization_id = fresh; user_id = user; role = org_owner })
    pure o)

  -- `name` and `description` are absent where the request leaves them as they are.
  pub update_organization : ℕ → Option ℕ → Option (Option ℕ) → ℕ → Exec (Db c) Organization
  unfolding find_by_id
  update_organization id name description stamp = do
    _ ← find_by_id id
    update c.organizations orgs set_orgs id (λ o. record o {
      name = elim name [ none ↦ o.name | some n ↦ n ];
      description = elim description [ none ↦ o.description | some d ↦ d ];
      updated_at = stamp;
    })

  pub soft_delete : ℕ → ℕ → ℕ → Exec (Db c) Organization
  unfolding find_by_id
  soft_delete id now stamp = do
    _ ← find_by_id id
    update c.organizations orgs set_orgs id
        (λ o. record o { deleted_at = some now; updated_at = stamp })

  abbrev blocks : ℕ → ℕ → ℕ → Invitation → Bool
  blocks org email now i =
      i.organization_id == org && i.email == email && is_open i && ltb now i.expires_at

  -- The user with the invited email must not be a member already.
  refuse_member : ℕ → Option ℕ → Exec (Db c) (Unit {0})
  refuse_member org none = pure tt
  refuse_member org (some user) = do
    existing ← find_unique c.members mems set_mems (org, user)
    guard (not (is_some existing)) (conflict already_member)

  abbrev new_invitation : ℕ → ℕ → ℕ → GrantableRole → ℕ → ℕ → ℕ → Invitation
  new_invitation org inviter email role stamp token fresh = record {
    id = fresh;
    organization_id = org;
    email = email;
    role = granted role;
    token = token;
    invited_by_user_id = inviter;
    expires_at = stamp + invitation_lifetime;
    accepted_at = none;
    declined_at = none;
  }

  pub invite : ℕ → ℕ → ℕ → GrantableRole → ℕ → ℕ → ℕ → ℕ → Exec (Db c) Invitation
  unfolding find_by_id refuse_member
  invite org inviter email role now stamp token fresh = do
    _ ← find_by_id org
    refuse_member org (c.user_of_email email)
    existing ← find_where c.invitations invs set_invs (blocks org email now)
    guard (not (is_some existing)) (conflict pending_exists)
    create c.invitations invs set_invs fresh (λ i. i.token == token)
        (new_invitation org inviter email role stamp token fresh)

  find_by_token : ℕ → Exec (Db c) Invitation
  find_by_token token = do
    found ← find_where c.invitations invs set_invs (λ i. i.token == token)
    or_throw found (not_found invitation)

  pub status_at : ℕ → Invitation → InvitationStatus
  status_at now i =
      if is_some i.accepted_at
      then accepted
      else if is_some i.declined_at
      then declined
      else if ltb i.expires_at now
      then expired
      else pending

  -- `getInvitationByToken`, of whose answer the status is computed.
  pub invitation_status : ℕ → ℕ → Exec (Db c) InvitationStatus
  unfolding find_by_token status_at
  invitation_status token now = do i ← find_by_token token; pure (status_at now i)

  -- The guards that accepting and declining share.
  answerable : Invitation → ℕ → ℕ → Exec (Db c) (Unit {0})
  answerable i user now = do
    guard (is_open i) (conflict already_processed)
    guard (not (ltb i.expires_at now)) (conflict invitation_expired)
    guard (is_id (c.email_of user) i.email) (authorization not_invitee)

  admit : Invitation → ℕ → ℕ → Exec (Db c) Member
  admit i user stamp = transaction (do
    _ ← update c.invitations invs set_invs i.id (λ j. record j { accepted_at = some stamp })
    create c.members mems set_mems (i.organization_id, user) (λ m. false)
        (record { organization_id = i.organization_id; user_id = user; role = i.role }))

  pub accept_invitation : ℕ → ℕ → ℕ → ℕ → Exec (Db c) Member
  unfolding find_by_token answerable admit
  accept_invitation token user now stamp = do
    i ← find_by_token token
    answerable i user now
    admit i user stamp

  pub decline_invitation : ℕ → ℕ → ℕ → ℕ → Exec (Db c) Invitation
  unfolding find_by_token answerable
  decline_invitation token user now stamp = do
    i ← find_by_token token
    answerable i user now
    update c.invitations invs set_invs i.id (λ j. record j { declined_at = some stamp })

  pub cancel_invitation : ℕ → ℕ → Exec (Db c) Invitation
  cancel_invitation org id = do
    found ← find_unique c.invitations invs set_invs id
    i ← or_throw found (not_found invitation)
    guard (i.organization_id == org) (authorization not_invitation_org)
    guard (is_open i) (conflict already_processed)
    delete c.invitations invs set_invs id

  pub update_member_role : ℕ → ℕ → GrantableRole → Exec (Db c) Member
  update_member_role org user role = do
    found ← find_unique c.members mems set_mems (org, user)
    m ← or_throw found (not_found organization_member)
    guard (not (is_org_owner m.role)) (conflict owner_role_fixed)
    update c.members mems set_mems (org, user) (λ n. record n { role = granted role })

  pub remove_member : ℕ → ℕ → Exec (Db c) Member
  remove_member org user = do
    found ← find_unique c.members mems set_mems (org, user)
    m ← or_throw found (not_found organization_member)
    guard (not (is_org_owner m.role)) (conflict owner_not_removable)
    delete c.members mems set_mems (org, user)

  abbrev since_deletion : Organization → ℕ
  since_deletion o = elim o.deleted_at [ none ↦ 0 | some t ↦ t ]

  pub restore : ℕ → ℕ → ℕ → Exec (Db c) Organization
  restore id now stamp = do
    found ← find_unique c.organizations orgs set_orgs id
    o ← or_throw (dead_org found) (not_found organization)
    guard (not (ltb (c.plus_days (since_deletion o) grace_period_days) now))
        (conflict grace_period_over)
    update c.organizations orgs set_orgs id
        (λ p. record p { deleted_at = none; updated_at = stamp })

  abbrev owns : Option Member → Bool
  owns none = false
  owns (some m) = is_org_owner m.role

  pub transfer_ownership : ℕ → ℕ → ℕ → Exec (Db c) Member
  unfolding find_by_id
  transfer_ownership org current next_owner = do
    _ ← find_by_id org
    guard (not (current == next_owner)) (conflict self_transfer)
    found ← find_unique c.members mems set_mems (org, current)
    guard (owns found) (authorization not_owner)
    other ← find_unique c.members mems set_mems (org, next_owner)
    _ ← or_throw other (not_found organization_member)
    transaction (do
      _ ← update c.members mems set_mems (org, current) (λ m. record m { role = org_admin })
      update c.members mems set_mems (org, next_owner) (λ m. record m { role = org_owner }))
