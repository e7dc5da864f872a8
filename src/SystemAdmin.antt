-- ===== src/SystemAdmin.antt =====
-- apps/api/src/services/admin/system-admin.service.ts: the administrators of the system, who invite,
-- change, delete, unlock and reset each other. Users are kept under their ids, with a unique email;
-- invitations under their ids, with a unique token.
pub mod Kept
pub mod Methods
pub mod Admission
pub mod Histories
pub mod Effects
mod Tests
use agentest.Shared.{
  ℕ, suc, Bool, true, false, not, ◌&&◌, Option, none, some, List, [], ◌∷◌, ◌++◌, if◌then◌else◌,
  ◌==◌, ltb, leb, is_some, Delegate, Counts, Exec, pure, guard, gets, modify, or_throw, throw,
  transaction, ◌>>=◌, ◌>>◌, find_unique, find_where, create, update, update_all, Reason, business,
  not_found, admin_text, inviter_text, invitation_text, admin_exists, admin_invited,
  invitation_accepted, admin_invitation_expired, self_role, last_super_admin_role, self_deletion,
  last_super_admin_deletion,
}

pub data AdminRole : Type 0 where
  super_admin admin viewer : AdminRole

abbrev pub is_super : AdminRole → Bool
is_super super_admin = true
is_super admin = false
is_super viewer = false

abbrev pub same_role : AdminRole → AdminRole → Bool
same_role super_admin super_admin = true
same_role admin admin = true
same_role viewer viewer = true
same_role _ _ = false

pub record AdminUser : Type 0 where
  pub id : ℕ
  pub email : ℕ
  pub password_hash : ℕ
  pub name : ℕ
  pub role : AdminRole
  pub totp_secret : Option ℕ
  pub totp_enabled : Bool
  pub failed_attempts : ℕ
  pub locked_until : Option ℕ
  pub deleted_at : Option ℕ

pub record AdminInvitation : Type 0 where
  pub id : ℕ
  pub email : ℕ
  pub name : ℕ
  pub role : AdminRole
  pub token : ℕ
  pub invited_by_id : ℕ
  pub accepted_at : Option ℕ
  pub expires_at : ℕ

pub record AdminSession : Type 0 where
  pub id : ℕ
  pub admin_user_id : ℕ
  pub expires_at : ℕ
  pub revoked_at : Option ℕ

pub data AdminAction : Type 0 where
  admin_user_invite admin_user_activate admin_user_update admin_user_delete : AdminAction
  admin_user_unlock admin_user_reset_2fa : AdminAction

pub record AuditRow : Type 0 where
  pub admin_user_id : ℕ
  pub action : AdminAction
  pub target_id : ℕ

abbrev pub is_active : AdminUser → Bool
is_active u = not (is_some u.deleted_at)

-- `where: { role: 'SUPER_ADMIN', deletedAt: null }`
abbrev pub active_super : AdminUser → Bool
active_super u = is_super u.role && is_active u

abbrev pub has_email : ℕ → AdminUser → Bool
has_email email u = u.email == email

abbrev pub has_token : ℕ → AdminInvitation → Bool
has_token token i = i.token == token

-- `where: { email, acceptedAt: null, expiresAt: { gt: now } }`
abbrev pub open_for : ℕ → ℕ → AdminInvitation → Bool
open_for email now i = i.email == email && (not (is_some i.accepted_at) && ltb now i.expires_at)

abbrev pub session_of : ℕ → AdminSession → Bool
session_of user x = x.admin_user_id == user && not (is_some x.revoked_at)

-- `hash` is the library's, `plus_hours` the clock's.
pub record Client : Type 1 where
  pub users : Delegate ℕ AdminUser ◌==◌
  pub counts : Counts AdminUser users
  pub invitations : Delegate ℕ AdminInvitation ◌==◌
  pub sessions : Delegate ℕ AdminSession ◌==◌
  pub hash : ℕ → ℕ
  pub plus_hours : ℕ → ℕ → ℕ

pub record Db (c : Client) : Type 0 where
  pub users : c.users.Rows
  pub invitations : c.invitations.Rows
  pub sessions : c.sessions.Rows
  pub audit : List AuditRow

abbrev pub invitation_expires_hours : ℕ
invitation_expires_hours = 24

-- A changed field of an update; `none` is `undefined`.
abbrev pub or_old {ℓ} : {A : Type ℓ} → Option A → A → A
or_old none old = old
or_old (some new) old = new

abbrev pub live_user : Option AdminUser → Option AdminUser
live_user none = none
live_user (some u) = if is_some u.deleted_at then none else some u

module _ (c : Client) where
  abbrev pub user_rows : Db c → c.users.Rows
  user_rows s = s.users

  abbrev pub set_users : Db c → c.users.Rows → Db c
  set_users s t = record s { users = t }

  abbrev pub invitation_rows : Db c → c.invitations.Rows
  invitation_rows s = s.invitations

  abbrev pub set_invitations : Db c → c.invitations.Rows → Db c
  set_invitations s t = record s { invitations = t }

  abbrev pub session_rows : Db c → c.sessions.Rows
  session_rows s = s.sessions

  abbrev pub set_sessions : Db c → c.sessions.Rows → Db c
  set_sessions s t = record s { sessions = t }

  -- The audit log is only ever appended to.
  abbrev pub log_action : ℕ → AdminAction → ℕ → Exec (Db c) (Unit {0})
  log_action user action target = modify (λ s. record s {
    audit = s.audit ++ record { admin_user_id = user; action = action; target_id = target } ∷ [];
  })

  -- A user that is there and not deleted.
  abbrev pub find_target : ℕ → Exec (Db c) AdminUser
  find_target id = do
    found ← find_unique c.users user_rows set_users id
    or_throw (live_user found) (not_found admin_text)

  abbrev pub refuse_active : Option AdminUser → Exec (Db c) (Unit {0})
  refuse_active none = pure tt
  refuse_active (some u) = guard (is_some u.deleted_at) (business admin_exists)

  -- `token` and `fresh` are the new token and id; `stamp` is the time of the expiry's computation.
  pub invite_admin_user : ℕ → ℕ → AdminRole → ℕ → ℕ → ℕ → ℕ → ℕ → Exec (Db c) AdminInvitation
  invite_admin_user email name role current now stamp token fresh = do
    existing ← find_where c.users user_rows set_users (has_email email)
    refuse_active existing
    pending ← find_where c.invitations invitation_rows set_invitations (open_for email now)
    guard (not (is_some pending)) (business admin_invited)
    inviter ← find_unique c.users user_rows set_users current
    _ ← or_throw inviter (not_found inviter_text)
    i ← create c.invitations invitation_rows set_invitations fresh (has_token token) (record {
      id = fresh;
      email = email;
      name = name;
      role = role;
      token = token;
      invited_by_id = current;
      accepted_at = none;
      expires_at = c.plus_hours stamp invitation_expires_hours;
    })
    log_action current admin_user_invite i.id
    pure i

  -- The invitation of a token, if it can still be accepted.
  pub find_invitation : ℕ → ℕ → Exec (Db c) AdminInvitation
  find_invitation token now = do
    found ← find_where c.invitations invitation_rows set_invitations (has_token token)
    i ← or_throw found (not_found invitation_text)
    guard (not (is_some i.accepted_at)) (business invitation_accepted)
    guard (not (ltb i.expires_at now)) (business admin_invitation_expired)
    pure i

  abbrev pub accept_row : ℕ → ℕ → Exec (Db c) AdminInvitation
  accept_row id stamp =
      update c.invitations invitation_rows set_invitations id
        (λ i. record i { accepted_at = some stamp })

  pub restore_user : AdminInvitation → ℕ → ℕ → AdminUser → Exec (Db c) AdminUser
  restore_user i password stamp u = transaction (do
    v ← update c.users user_rows set_users u.id (λ w. record w {
      name = i.name;
      role = i.role;
      password_hash = c.hash password;
      totp_enabled = false;
      totp_secret = none;
      failed_attempts = 0;
      locked_until = none;
      deleted_at = none;
    })
    _ ← accept_row i.id stamp
    log_action u.id admin_user_activate u.id
    pure v)

  pub create_user : AdminInvitation → ℕ → ℕ → ℕ → Exec (Db c) AdminUser
  create_user i password stamp fresh = do
    v ← create c.users user_rows set_users fresh (has_email i.email) (record {
      id = fresh;
      email = i.email;
      password_hash = c.hash password;
      name = i.name;
      role = i.role;
      totp_secret = none;
      totp_enabled = false;
      failed_attempts = 0;
      locked_until = none;
      deleted_at = none;
    })
    transaction (do _ ← accept_row i.id stamp; log_action v.id admin_user_activate v.id)
    pure v

  pub admit : AdminInvitation → ℕ → ℕ → ℕ → Option AdminUser → Exec (Db c) AdminUser
  unfolding restore_user create_user
  admit i password stamp fresh none = create_user i password stamp fresh
  admit i password stamp fresh (some u) = restore_user i password stamp u

  pub accept_invitation : ℕ → ℕ → ℕ → ℕ → ℕ → Exec (Db c) AdminUser
  unfolding find_invitation admit
  accept_invitation token password now stamp fresh = do
    i ← find_invitation token now
    existing ← find_where c.users user_rows set_users (has_email i.email)
    admit i password stamp fresh existing

  -- At least one other super administrator is needed.
  pub not_last : Reason → Exec (Db c) (Unit {0})
  not_last reason = do
    n ← gets (λ s. c.counts.count s.users active_super)
    guard (not (leb n 1)) (business reason)

  pub check_role : ℕ → ℕ → AdminUser → Option AdminRole → Exec (Db c) (Unit {0})
  unfolding not_last
  check_role id current u none = pure tt
  check_role id current u (some role) =
      if same_role role u.role
      then pure tt
      else (guard (not (id == current)) (business self_role)
          >> (if is_super u.role then not_last last_super_admin_role else pure tt))

  pub update_admin_user : ℕ → Option ℕ → Option AdminRole → ℕ → Exec (Db c) AdminUser
  unfolding check_role
  update_admin_user id name role current = do
    u ← find_target id
    check_role id current u role
    v ←
        update c.users user_rows set_users id
          (λ w. record w { name = or_old name w.name; role = or_old role w.role })
    log_action current admin_user_update id
    pure v

  pub remove_user : ℕ → ℕ → ℕ → Exec (Db c) (Unit {0})
  remove_user id current now = transaction (do
    _ ← update c.users user_rows set_users id (λ w. record w { deleted_at = some now })
    update_all c.sessions session_rows set_sessions (session_of id)
        (λ x. record x { revoked_at = some now })
    log_action current admin_user_delete id)

  pub delete_admin_user : ℕ → ℕ → ℕ → Exec (Db c) (Unit {0})
  unfolding not_last remove_user
  delete_admin_user id current now = do
    guard (not (id == current)) (business self_deletion)
    u ← find_target id
    (if is_super u.role then not_last last_super_admin_deletion else pure tt)
    remove_user id current now

  pub unlock_admin_user : ℕ → ℕ → Exec (Db c) (Unit {0})
  unlock_admin_user id current = do
    _ ← find_target id
    _ ←
        update c.users user_rows set_users id
          (λ w. record w { locked_until = none; failed_attempts = 0 })
    log_action current admin_user_unlock id

  pub reset_2fa : ℕ → ℕ → Exec (Db c) (Unit {0})
  reset_2fa id current = do
    _ ← find_target id
    _ ←
        update c.users user_rows set_users id
          (λ w. record w { totp_enabled = false; totp_secret = none })
    log_action current admin_user_reset_2fa id
