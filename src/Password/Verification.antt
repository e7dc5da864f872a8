-- ===== src/Password/Verification.antt =====
-- Logins before and after the verification of the email.
use agentest.Shared.{
  ℕ, ◌≡◌, ◌∙◌, ◌≤◌, refl, ap, Bool, true, false, none, some, arith, ok, err, base,
  email_not_verified, not, ◌||◌, is_some, ◌==◌, Bool-cases, inl, inr,
}
use agentest.Password.{
  Auth, Db, User, MailToken, logged_in, login, accept_login, clear_failures, cleared,
}
use agentest.Password.Reset.{verify_email, use_up}
use agentest.Password.Kept.{WellKept-write, find_first-has_email}
use agentest.Password.Lockout.{Stands}
use agentest.Password.Entry.{nothing_found}

module _ (a : Auth) where
  open a use {users as U, verifications as V, refresh_tokens as T, sessions as S, hash_token}

  -- A user that is not locked and has a password, and no second factor.
  pub record Ready (u : User) (password : ℕ) : Type 0 where
    pub hash : ℕ
    pub hashed : u.password_hash ≡ some hash
    pub right : a.compare password hash ≡ true
    pub free : u.locked_until ≡ none
    pub plain : u.totp_enabled ≡ false

  login_unverified :
      (u : User) (password now stamp fresh : ℕ) (stored : Bool) (s : Db a)
      → Stands a u s
      → Ready u password
      → u.email_verified ≡ false
      → login a u.email password now stamp fresh stored s ≡ (err (base 401 email_not_verified), s)
  unfolding login
  login_unverified u password now stamp fresh stored s st r not_yet = ground (
    arith,
    st.stored,
    r.hashed,
    r.right,
    r.free,
    r.plain,
    not_yet,
    find_first-has_email a s.users u st.kept st.stored st.live,
  )

  clear_failures_state :
      (u : User) (s : Db a)
      → U.find s.users u.id ≡ some u
      → (t : U.Rows) × (clear_failures a u s ≡ (ok tt, record s { users = t }))
  unfolding clear_failures
  clear_failures_state u s e =
      elim (Bool-cases (not (u.failed_attempts == 0) || is_some u.locked_until)) [
        | inl tried ↦ (U.write s.users u.id (cleared a u), ground (arith, e, tried))
        | inr clean ↦ (s.users, ground (arith, e, clean))
      ]

  accept_login_plain :
      (u : User) (stamp fresh : ℕ) (stored : Bool) (s : Db a)
      → U.find s.users u.id ≡ some u
      → u.totp_enabled ≡ false
      → T.find s.refresh_tokens (hash_token fresh) ≡ none
      → S.find s.sessions (hash_token fresh) ≡ none
      → (accept_login a u stamp fresh stored s).0 ≡ ok (logged_in fresh)
  unfolding accept_login
  accept_login_plain u stamp fresh stored s e plain no_token no_session =
      let (t, f) = clear_failures_state u s e in
      ground (
        arith,
        f,
        plain,
        no_token,
        no_session,
        nothing_found T s.refresh_tokens,
        nothing_found S s.sessions,
      )

  login_verified :
      (u : User) (password now stamp fresh : ℕ) (stored : Bool) (s : Db a)
      → Stands a u s
      → Ready u password
      → u.email_verified ≡ true
      → login a u.email password now stamp fresh stored s ≡ accept_login a u stamp fresh stored s
  unfolding login
  login_verified u password now stamp fresh stored s st r verified = ground (
    arith,
    st.stored,
    r.hashed,
    r.right,
    r.free,
    verified,
    find_first-has_email a s.users u st.kept st.stored st.live,
  )

  abbrev after_verification : ℕ → ℕ → MailToken → User → Db a → Db a
  after_verification token stamp t u s = record s {
    verifications = V.write s.verifications (hash_token token) (use_up a stamp t);
    users = U.write s.users u.id (record u { email_verified = true });
  }

  verify_email_state :
      (token now stamp : ℕ) (s : Db a) {t : MailToken} {u : User}
      → V.find s.verifications (hash_token token) ≡ some t
      → U.find s.users u.id ≡ some u
      → t.user_id ≡ u.id
      → t.used_at ≡ none
      → now ≤ t.expires_at
      → (verify_email a token now stamp s).1 ≡ after_verification token stamp t u s
  unfolding verify_email
  verify_email_state token now stamp s e f own unused live = ground (arith, e, f, own, unused, live)

  -- If ids and emails of users are unique, a user that is not locked, has no second factor and
  -- gives the right password is refused as unverified, with nothing changed, while the email is
  -- not verified; after verifyEmail with a stored, unused and unexpired token of the user the
  -- login returns its new token, a digest that no session has.
  pub login-verify_email :
      (u : User) (t : MailToken) (token password now stamp later stamp' fresh : ℕ) (stored : Bool)
      (s : Db a)
      → Stands a u s
      → Ready u password
      → u.email_verified ≡ false
      → V.find s.verifications (hash_token token) ≡ some t
      → t.user_id ≡ u.id
      → t.used_at ≡ none
      → now ≤ t.expires_at
      → T.find s.refresh_tokens (hash_token fresh) ≡ none
      → S.find s.sessions (hash_token fresh) ≡ none
      → (login a u.email password later stamp' fresh stored s
          ≡ (err (base 401 email_not_verified), s))
        × ((login a u.email password later stamp' fresh stored
              (verify_email a token now stamp s).1).0
            ≡ ok (logged_in fresh))
  login-verify_email u t token password now stamp later stamp' fresh stored s st r not_yet e own
        unused live no_token no_session =
      let v : User = record u { email_verified = true } in
      let w = after_verification token stamp t u s in
      let st' : Stands a v w = record {
        kept = WellKept-write a s.users u v st.kept st.stored refl refl;
        stored = ground (arith, U.find-write s.users u.id u.id v);
        live = st.live;
      } in
      let r' : Ready v password = record {
        hash = r.hash;
        hashed = r.hashed;
        right = r.right;
        free = r.free;
        plain = r.plain;
      } in
      (
        login_unverified u password later stamp' fresh stored s st r not_yet,
        rw (verify_email_state token now stamp s e st.stored own unused live) (
            ap (λ x. x.0) (login_verified v password later stamp' fresh stored w st' r' refl)
            ∙ accept_login_plain v stamp' fresh stored w st'.stored r.plain no_token no_session),
      )
