-- ===== src/Password.antt =====
-- apps/api/src/services/user-password-auth.service.ts with `persistAuthSession` of
-- apps/api/src/config/auth.ts: registration, login with its lockout, password resets and email
-- verification. Emails, names, passwords, digests and tokens are numbers.
pub mod Reset
pub mod Kept
pub mod Lockout
pub mod Recovery
pub mod Request
pub mod Verification
pub mod Entry
mod Tests
use agentest.Shared.{
  ℕ, ◌+◌, ◌*◌, Bool, true, false, not, ◌&&◌, ◌||◌, Option, none, some, if◌then◌else◌, ltb, leb,
  ◌==◌, is_some, Delegate, Exec, ok, err, pure, throw, guard, or_throw, transaction, ◌>>=◌, ◌>>◌,
  find_unique, find_where, create, update, update_all, Error, authentication, bad_request, conflict,
  base, bad_credentials, account_locked, email_not_verified, two_factor_failed, email_taken,
  user_missing, password_already_set, password_not_set, wrong_current_password, reset_token_invalid,
  reset_token_used, reset_token_expired, verification_token_invalid,
}

abbrev pub max_failed_attempts : ℕ
max_failed_attempts = 5

abbrev pub lock_duration : ℕ
lock_duration = 30 * 60 * 1000

abbrev pub reset_token_expiry : ℕ
reset_token_expiry = 60 * 60 * 1000

abbrev pub verification_token_expiry : ℕ
verification_token_expiry = 24 * 60 * 60 * 1000

abbrev pub session_expiry : ℕ
session_expiry = 7 * 24 * 60 * 60 * 1000

pub record User : Type 0 where
  pub id : ℕ
  pub email : ℕ
  pub name : ℕ
  pub password_hash : Option ℕ
  pub failed_attempts : ℕ
  pub locked_until : Option ℕ
  pub email_verified : Bool
  pub totp_enabled : Bool
  pub deleted_at : Option ℕ

-- A row of the password reset tokens or of the email verification tokens; its key is the unique
-- digest of the token.
pub record MailToken : Type 0 where
  pub user_id : ℕ
  pub expires_at : ℕ
  pub used_at : Option ℕ

-- A row of the refresh tokens or of the sessions; its key is the unique digest of the token.
pub record Login : Type 0 where
  pub user_id : ℕ
  pub token_hash : ℕ
  pub expires_at : ℕ
  pub revoked_at : Option ℕ

pub data LoginResult : Type 0 where
  logged_in : ℕ → LoginResult
  requires_2fa : ℕ → LoginResult

pub data RegisterResult : Type 0 where
  registered : ℕ → LoginResult → RegisterResult
  requires_verification : ℕ → ℕ → RegisterResult

-- The delegates, bcrypt (the second argument of `hash_password` is the salt), the SHA-256 digest of
-- tokens, and the setting REQUIRE_EMAIL_VERIFICATION.
pub record Auth : Type 1 where
  pub users : Delegate ℕ User ◌==◌
  pub resets : Delegate ℕ MailToken ◌==◌
  pub verifications : Delegate ℕ MailToken ◌==◌
  pub refresh_tokens : Delegate ℕ Login ◌==◌
  pub sessions : Delegate ℕ Login ◌==◌
  pub hash_password : ℕ → ℕ → ℕ
  pub compare : ℕ → ℕ → Bool
  pub hash_token : ℕ → ℕ
  pub require_email_verification : Bool

pub record Db (a : Auth) : Type 0 where
  pub users : a.users.Rows
  pub resets : a.resets.Rows
  pub verifications : a.verifications.Rows
  pub refresh_tokens : a.refresh_tokens.Rows
  pub sessions : a.sessions.Rows

abbrev pub has_email : ℕ → User → Bool
has_email email u = u.email == email && not (is_some u.deleted_at)

module _ (a : Auth) where
  abbrev user_rows : Db a → a.users.Rows
  user_rows s = s.users

  abbrev set_users : Db a → a.users.Rows → Db a
  set_users s t = record s { users = t }

  abbrev reset_rows : Db a → a.resets.Rows
  reset_rows s = s.resets

  abbrev set_resets : Db a → a.resets.Rows → Db a
  set_resets s t = record s { resets = t }

  abbrev verification_rows : Db a → a.verifications.Rows
  verification_rows s = s.verifications

  abbrev set_verifications : Db a → a.verifications.Rows → Db a
  set_verifications s t = record s { verifications = t }

  abbrev refresh_rows : Db a → a.refresh_tokens.Rows
  refresh_rows s = s.refresh_tokens

  abbrev set_refreshes : Db a → a.refresh_tokens.Rows → Db a
  set_refreshes s t = record s { refresh_tokens = t }

  abbrev session_rows : Db a → a.sessions.Rows
  session_rows s = s.sessions

  abbrev set_sessions : Db a → a.sessions.Rows → Db a
  set_sessions s t = record s { sessions = t }

  -- `findFirst({ where: { email, deletedAt: null } })`
  abbrev user_by_email : ℕ → Exec (Db a) (Option User)
  user_by_email email = find_where a.users user_rows set_users (has_email email)

  abbrev live_user : Option User → Option User
  live_user none = none
  live_user (some u) = if is_some u.deleted_at then none else some u

  persist_auth_session : ℕ → ℕ → ℕ → Exec (Db a) (Unit {0})
  persist_auth_session user token_hash expires_at = do
    let row : Login = record {
      user_id = user;
      token_hash = token_hash;
      expires_at = expires_at;
      revoked_at = none;
    }
    _ ← create a.refresh_tokens refresh_rows set_refreshes token_hash (λ t. false) row
    _ ← create a.sessions session_rows set_sessions token_hash (λ t. false) row
    pure tt

  abbrev is_locked : Option ℕ → ℕ → Bool
  is_locked none now = false
  is_locked (some t) now = ltb now t

  abbrev pub cleared : User → User
  cleared u = record u { failed_attempts = 0; locked_until = none }

  -- A lock that is over: the count starts again.
  unlock : User → Exec (Db a) User
  unlock u =
      if is_some u.locked_until then update a.users user_rows set_users u.id cleared else pure u

  lock_if_reached : User → ℕ → Exec (Db a) (Unit {0})
  lock_if_reached u stamp =
      if leb max_failed_attempts u.failed_attempts
      then (update a.users user_rows set_users u.id
            (λ v. record v { locked_until = some (stamp + lock_duration) })
          >> pure tt)
      else pure tt

  fail_login : User → ℕ → Exec (Db a) LoginResult
  unfolding lock_if_reached
  fail_login u stamp =
      transaction (do
        updated ←
            update a.users user_rows set_users u.id
              (λ v. record v { failed_attempts = v.failed_attempts + 1 })
        lock_if_reached updated stamp)
      >> throw (authentication bad_credentials)

  clear_failures : User → Exec (Db a) (Unit {0})
  clear_failures u =
      if not (u.failed_attempts == 0) || is_some u.locked_until
      then (update a.users user_rows set_users u.id cleared >> pure tt)
      else pure tt

  -- `stored` is the answer of `setUserTwoFactorToken`, `token` the random refresh token or two-factor
  -- token.
  accept_login : User → ℕ → ℕ → Bool → Exec (Db a) LoginResult
  unfolding clear_failures persist_auth_session
  accept_login u stamp token stored =
      if u.totp_enabled
      then (guard stored (base 500 two_factor_failed)
          >> clear_failures u
          >> pure (requires_2fa token))
      else (transaction (
            clear_failures u
            >> persist_auth_session u.id (a.hash_token token) (stamp + session_expiry))
          >> pure (logged_in token))

  judge_login : User → Bool → ℕ → ℕ → Bool → Exec (Db a) LoginResult
  unfolding accept_login fail_login
  judge_login u true stamp token stored =
      guard u.email_verified (base 401 email_not_verified) >> accept_login u stamp token stored
  judge_login u false stamp token stored = fail_login u stamp

  pub login : ℕ → ℕ → ℕ → ℕ → ℕ → Bool → Exec (Db a) LoginResult
  unfolding unlock judge_login
  login email password now stamp token stored = do
    found ← user_by_email email
    u ← or_throw found (authentication bad_credentials)
    guard (not (is_locked u.locked_until now)) (authentication account_locked)
    v ← unlock u
    h ← or_throw v.password_hash (authentication bad_credentials)
    judge_login v (a.compare password h) stamp token stored
