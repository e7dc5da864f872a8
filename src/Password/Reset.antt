-- ===== src/Password/Reset.antt =====
-- Registration, password resets, setting and changing passwords, and email verification.
use agentest.Shared.{
  ℕ, ◌+◌, Bool, true, false, not, ◌&&◌, ◌||◌, Option, none, some, if◌then◌else◌, ltb, ◌==◌, is_some,
  is_id, Exec, pure, guard, or_throw, transaction, ◌>>=◌, ◌>>◌, find_unique, create, update,
  update_all, authentication, bad_request, conflict, email_taken, user_missing,
  password_already_set, password_not_set, wrong_current_password, reset_token_invalid,
  reset_token_used, reset_token_expired, verification_token_invalid,
}
use agentest.Password.{
  Auth, Db, User, MailToken, Login, logged_in, RegisterResult, registered, requires_verification,
  cleared, user_rows, set_users, reset_rows, set_resets, verification_rows, set_verifications,
  refresh_rows, set_refreshes, session_rows, set_sessions, user_by_email, live_user,
  persist_auth_session, reset_token_expiry, verification_token_expiry, session_expiry,
}

module _ (a : Auth) where
  -- `updateMany({ where: { userId, usedAt: null }, data: { usedAt } })`
  abbrev pub unused_of : ℕ → MailToken → Bool
  unused_of user t = t.user_id == user && not (is_some t.used_at)

  abbrev pub use_up : ℕ → MailToken → MailToken
  use_up now t = record t { used_at = some now }

  -- The logins of a user that are not revoked, but for the one with the digest in `kept`.
  abbrev pub others_of : ℕ → Option ℕ → Login → Bool
  others_of user kept l =
      l.user_id == user && not (is_some l.revoked_at) && not (is_id kept l.token_hash)

  abbrev pub revoked : ℕ → Login → Login
  revoked now l = record l { revoked_at = some now }

  revoke_logins : ℕ → Option ℕ → ℕ → Exec (Db a) (Unit {0})
  revoke_logins user kept now = do
    update_all a.refresh_tokens (refresh_rows a) (set_refreshes a) (others_of user kept)
        (revoked now)
    update_all a.sessions (session_rows a) (set_sessions a) (others_of user kept) (revoked now)

  abbrev new_user : ℕ → ℕ → ℕ → ℕ → Bool → User
  new_user id email name password_hash verified = record {
    id = id;
    email = email;
    name = name;
    password_hash = some password_hash;
    failed_attempts = 0;
    locked_until = none;
    email_verified = verified;
    totp_enabled = false;
    deleted_at = none;
  }

  -- The two transactions of `register`; `fresh` is the id of the new user.
  register_with : ℕ → ℕ → ℕ → ℕ → ℕ → ℕ → Bool → Exec (Db a) RegisterResult
  unfolding persist_auth_session
  register_with email name password_hash stamp fresh token true = transaction (do
    _ ←
        create a.users (user_rows a) (set_users a) fresh (λ u. u.email == email)
          (new_user fresh email name password_hash false)
    _ ←
        create a.verifications (verification_rows a) (set_verifications a) (a.hash_token token)
          (λ t. false)
          (record {
            user_id = fresh;
            expires_at = stamp + verification_token_expiry;
            used_at = none;
          })
    pure (requires_verification fresh token))
  register_with email name password_hash stamp fresh token false = transaction (do
    _ ←
        create a.users (user_rows a) (set_users a) fresh (λ u. u.email == email)
          (new_user fresh email name password_hash true)
    persist_auth_session a fresh (a.hash_token token) (stamp + session_expiry)
    pure (registered fresh (logged_in token)))

  unfoldable pub register : ℕ → ℕ → ℕ → ℕ → ℕ → ℕ → ℕ → Exec (Db a) RegisterResult
  unfolding register_with
  register email name password salt stamp fresh token = do
    existing ← user_by_email a email
    guard (not (is_some existing)) (conflict email_taken)
    register_with email name (a.hash_password password salt) stamp fresh token
        a.require_email_verification

  abbrev has_password : Option User → Option User
  has_password none = none
  has_password (some u) = if is_some u.password_hash then some u else none

  replace_reset : Option User → ℕ → ℕ → ℕ → Exec (Db a) (Option ℕ)
  replace_reset none now stamp token = pure none
  replace_reset (some u) now stamp token = transaction (do
    update_all a.resets (reset_rows a) (set_resets a) (unused_of u.id) (use_up now)
    _ ←
        create a.resets (reset_rows a) (set_resets a) (a.hash_token token) (λ t. false)
          (record { user_id = u.id; expires_at = stamp + reset_token_expiry; used_at = none })
    pure (some token))

  unfoldable pub request_password_reset : ℕ → ℕ → ℕ → ℕ → Exec (Db a) (Option ℕ)
  unfolding replace_reset
  request_password_reset email now stamp token = do
    found ← user_by_email a email
    replace_reset (has_password found) now stamp token

  unfoldable pub reset_password : ℕ → ℕ → ℕ → ℕ → ℕ → Exec (Db a) (Unit {0})
  unfolding revoke_logins
  reset_password token password salt now stamp = do
    found ← find_unique a.resets (reset_rows a) (set_resets a) (a.hash_token token)
    t ← or_throw found (bad_request reset_token_invalid)
    guard (not (is_some t.used_at)) (bad_request reset_token_used)
    guard (not (ltb t.expires_at now)) (bad_request reset_token_expired)
    transaction (do
      _ ← update a.resets (reset_rows a) (set_resets a) (a.hash_token token) (use_up stamp)
      _ ←
          update a.users (user_rows a) (set_users a) t.user_id
            (λ u. record (cleared a u) { password_hash = some (a.hash_password password salt) })
      revoke_logins t.user_id none stamp)

  pub set_password : ℕ → ℕ → ℕ → Exec (Db a) (Unit {0})
  set_password user password salt = do
    found ← find_unique a.users (user_rows a) (set_users a) user
    u ← or_throw (live_user a found) (bad_request user_missing)
    guard (not (is_some u.password_hash)) (conflict password_already_set)
    _ ←
        update a.users (user_rows a) (set_users a) user
          (λ v. record v { password_hash = some (a.hash_password password salt) })
    pure tt

  unfoldable pub change_password : ℕ → ℕ → ℕ → ℕ → Option ℕ → ℕ → Exec (Db a) (Unit {0})
  unfolding revoke_logins
  change_password user current password salt kept now = do
    found ← find_unique a.users (user_rows a) (set_users a) user
    u ← or_throw (live_user a found) (bad_request user_missing)
    h ← or_throw u.password_hash (bad_request password_not_set)
    guard (a.compare current h) (authentication wrong_current_password)
    transaction (do
      _ ←
          update a.users (user_rows a) (set_users a) user
            (λ v. record v { password_hash = some (a.hash_password password salt) })
      revoke_logins user kept now)

  abbrev usable_verification : Option MailToken → ℕ → Option MailToken
  usable_verification none now = none
  usable_verification (some t) now =
      if is_some t.used_at || ltb t.expires_at now then none else some t

  unfoldable pub verify_email : ℕ → ℕ → ℕ → Exec (Db a) (Unit {0})
  verify_email token now stamp = do
    found ←
        find_unique a.verifications (verification_rows a) (set_verifications a) (a.hash_token token)
    t ← or_throw (usable_verification found now) (bad_request verification_token_invalid)
    transaction (do
      _ ←
          update a.verifications (verification_rows a) (set_verifications a) (a.hash_token token)
            (use_up stamp)
      _ ←
          update a.users (user_rows a) (set_users a) t.user_id
            (λ u. record u { email_verified = true })
      pure tt)

  abbrev unverified : Option User → Option User
  unverified none = none
  unverified (some u) = if u.email_verified || not (is_some u.password_hash) then none else some u

  replace_verification : Option User → ℕ → ℕ → ℕ → Exec (Db a) (Option ℕ)
  replace_verification none now stamp token = pure none
  replace_verification (some u) now stamp token = transaction (do
    update_all a.verifications (verification_rows a) (set_verifications a) (unused_of u.id)
        (use_up now)
    _ ←
        create a.verifications (verification_rows a) (set_verifications a) (a.hash_token token)
          (λ t. false)
          (record {
            user_id = u.id;
            expires_at = stamp + verification_token_expiry;
            used_at = none;
          })
    pure (some token))

  pub resend_verification : ℕ → ℕ → ℕ → ℕ → Exec (Db a) (Option ℕ)
  unfolding replace_verification
  resend_verification email now stamp token = do
    found ← user_by_email a email
    replace_verification (unverified found) now stamp token
