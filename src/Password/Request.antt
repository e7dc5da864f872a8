-- ===== src/Password/Request.antt =====
-- Requests for a password reset, and the earlier tokens.
use agentest.Shared.{
  ℕ, ◌≡◌, ◌∙◌, ap, ◌+◌, none, true, some, arith, is_some, is_ok, err, if◌then◌else◌, bad_request,
  reset_token_used,
}
use agentest.Password.{has_email, reset_token_expiry, Auth, Db, User, MailToken}
use agentest.Password.Reset.{reset_password, request_password_reset, unused_of, use_up}
use agentest.Password.Recovery.{reset_used}

module _ (a : Auth) where
  open a use {users as U, resets as R, hash_token}

  -- The reset tokens after a request: the new one beside the earlier ones, which are used up.
  requested : R.Rows → ℕ → ℕ → ℕ → ℕ → R.Rows
  requested t user now stamp fresh =
      R.write (R.update_many t (unused_of a user) (use_up a now)) (hash_token fresh)
        (record { user_id = user; expires_at = stamp + reset_token_expiry; used_at = none })

  request_password_reset_state :
      (email now stamp fresh : ℕ) (s : Db a) {u : User} {h : ℕ}
      → U.find_first s.users (has_email email) ≡ some u
      → u.password_hash ≡ some h
      → is_ok (request_password_reset a email now stamp fresh s).0 ≡ true
      → ((request_password_reset a email now stamp fresh s).1.resets
          ≡ requested s.resets u.id now stamp fresh)
        × (R.find (R.update_many s.resets (unused_of a u.id) (use_up a now)) (hash_token fresh)
            ≡ none)
  unfolding request_password_reset requested
  request_password_reset_state email now stamp fresh s e hashed good =
      (ground (arith, e, hashed, good), ground (arith, e, hashed, good))

  used_up : MailToken → ℕ → ℕ → MailToken
  used_up t user now = if unused_of a user t then use_up a now t else t

  used_up-used :
      (t : MailToken) (user now : ℕ)
      → t.user_id ≡ user
      → is_some (used_up t user now).used_at ≡ true
  unfolding used_up
  used_up-used t user now own = ground (arith, own)

  find-requested :
      (t : R.Rows) (user now stamp fresh token : ℕ) (r : MailToken)
      → R.find (R.update_many t (unused_of a user) (use_up a now)) (hash_token fresh) ≡ none
      → R.find t (hash_token token) ≡ some r
      → R.find (requested t user now stamp fresh) (hash_token token) ≡ some (used_up r user now)
  unfolding requested used_up
  find-requested t user now stamp fresh token r free e =
      let base = R.update_many t (unused_of a user) (use_up a now) in
      ground (
        arith,
        free,
        e,
        R.find-update_many t (unused_of a user) (use_up a now) (hash_token token),
        R.find-update_many t (unused_of a user) (use_up a now) (hash_token fresh),
        R.find-write base (hash_token fresh) (hash_token token)
            (record { user_id = user; expires_at = stamp + reset_token_expiry; used_at = none }),
      )

  -- After a successful request for a reset by the email of a user with a password, a reset with
  -- any token of that user that was stored before is refused as used and changes nothing.
  pub reset_password-request_password_reset :
      (email now stamp fresh token password salt later stamp' : ℕ) (s : Db a) (u : User) (h : ℕ)
      (t : MailToken)
      → U.find_first s.users (has_email email) ≡ some u
      → u.password_hash ≡ some h
      → R.find s.resets (hash_token token) ≡ some t
      → t.user_id ≡ u.id
      → is_ok (request_password_reset a email now stamp fresh s).0 ≡ true
      → let v = (request_password_reset a email now stamp fresh s).1 in
        reset_password a token password salt later stamp' v
        ≡ (err (bad_request reset_token_used), v)
  reset_password-request_password_reset email now stamp fresh token password salt later stamp' s u h
        t e hashed f own good =
      let v = (request_password_reset a email now stamp fresh s).1 in
      let (state, free) = request_password_reset_state email now stamp fresh s e hashed good in
      let g : R.find v.resets (hash_token token) ≡ some (used_up t u.id now) =
        ap (λ x. R.find x (hash_token token)) state
        ∙ find-requested s.resets u.id now stamp fresh token t free f in
      reset_used a token password salt later stamp' v (used_up t u.id now) g
        (used_up-used t u.id now own)
