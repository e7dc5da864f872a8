-- ===== src/Password/Entry.antt =====
-- Successful logins.
use agentest.Shared.{
  Delegate, ℕ, ◌≡◌, ◌≤◌, refl, sym, subst, ap, inl, inr, Bool, true, false, none, some, arith,
  is_ok, ok, Option-cases,
}
use agentest.Password.{Auth, Db, User, MailToken, logged_in, login, is_locked, has_email}
use agentest.Password.Kept.{WellKept, WellKept-write, find_first-has_email}
use agentest.Password.Lockout.{Stands}
use agentest.Password.Reset.{reset_password, others_of, revoked}
use agentest.Password.Recovery.{renewed, after_reset, reset_password_state}

pub nothing_found :
    {K R : Type 0} {same : K → K → Bool} (d : Delegate K R same) (t : d.Rows)
    → d.find_first t (λ r. false) ≡ none
nothing_found d t = elim (Option-cases (d.find_first t (λ r. false))) [
  | inl e ↦ e
  | inr (r, e) ↦ absurd (cc (d.find_first-some t (λ x. false) r e).0)
]

module _ (a : Auth) where
  open a use {users as U, resets as R, refresh_tokens as T, sessions as S, hash_token}

  -- What a successful login has established.
  pub record Admitted (email password now : ℕ) (s : Db a) : Type 0 where
    pub user : User
    pub found : U.find_first s.users (has_email email) ≡ some user
    pub open_ : is_locked a user.locked_until now ≡ false
    pub hash : ℕ
    pub hashed : user.password_hash ≡ some hash
    pub verified : user.email_verified ≡ true
    pub right : a.compare password hash ≡ true

  stored_of_email :
      (t : U.Rows) (email : ℕ) (u : User)
      → WellKept a t
      → U.find_first t (has_email email) ≡ some u
      → U.find t u.id ≡ some u
  stored_of_email t email u w e =
      let (on, k, f) = U.find_first-some t (has_email email) u e in
      subst (λ i. U.find t i ≡ some u) (sym (w.keyed k u f)) f

  login_admits :
      (email password now stamp token : ℕ) (stored : Bool) (s : Db a) (u : User) (h : ℕ)
      → U.find_first s.users (has_email email) ≡ some u
      → U.find s.users u.id ≡ some u
      → u.password_hash ≡ some h
      → is_ok (login a email password now stamp token stored s).0 ≡ true
      → (is_locked a u.locked_until now ≡ false)
        × (u.email_verified ≡ true)
        × (a.compare password h ≡ true)
  unfolding login
  login_admits email password now stamp token stored s u h e f hashed good = (
    ground (arith, e, f, hashed, good),
    ground (arith, e, f, hashed, good),
    ground (arith, e, f, hashed, good),
  )

  -- If ids and emails of users are unique, a login succeeds only for a user found by the email
  -- whose account is not locked, whose email is verified and whose password hash bcrypt accepts
  -- for the password.
  pub login-Admitted :
      (email password now stamp token : ℕ) (stored : Bool) (s : Db a)
      → WellKept a s.users
      → is_ok (login a email password now stamp token stored s).0 ≡ true
      → Admitted email password now s
  unfolding login
  login-Admitted email password now stamp token stored s w good =
      elim (Option-cases (U.find_first s.users (has_email email))) [
        | inl e ↦ absurd (ground (arith, e, good))
        | inr (u, e) ↦
            let f = stored_of_email s.users email u w e in
            elim (Option-cases u.password_hash) [
              | inl none_ ↦ absurd (ground (arith, e, f, none_, good))
              | inr (h, hashed) ↦
                  let (free, verified, right) =
                    login_admits email password now stamp token stored s u h e f hashed good in
                  record {
                    user = u;
                    found = e;
                    open_ = free;
                    hash = h;
                    hashed = hashed;
                    verified = verified;
                    right = right;
                  }
            ]
      ]

  login-renewed :
      (u : User) (password salt now stamp fresh : ℕ) (stored : Bool) (s : Db a)
      → Stands a (renewed a u password salt) s
      → u.email_verified ≡ true
      → u.totp_enabled ≡ false
      → a.compare password (a.hash_password password salt) ≡ true
      → T.find s.refresh_tokens (hash_token fresh) ≡ none
      → S.find s.sessions (hash_token fresh) ≡ none
      → (login a u.email password now stamp fresh stored s).0 ≡ ok (logged_in fresh)
  unfolding login
  login-renewed u password salt now stamp fresh stored s st verified plain right no_token
        no_session =
      ground (
        arith,
        st.stored,
        verified,
        plain,
        right,
        no_token,
        no_session,
        nothing_found T s.refresh_tokens,
        nothing_found S s.sessions,
        find_first-has_email a s.users (renewed a u password salt) st.kept st.stored st.live,
      )

  reset_password_ok :
      (token password salt now stamp : ℕ) (s : Db a) (t : MailToken) {u : User}
      → R.find s.resets (hash_token token) ≡ some t
      → U.find s.users t.user_id ≡ some u
      → t.used_at ≡ none
      → now ≤ t.expires_at
      → is_ok (reset_password a token password salt now stamp s).0 ≡ true
  unfolding reset_password
  reset_password_ok token password salt now stamp s t e f unused live =
      ground (arith, e, f, unused, live)

  Stands-renewed :
      (u : User) (password salt : ℕ) (s t : Db a)
      → Stands a u s
      → t.users ≡ U.write s.users u.id (renewed a u password salt)
      → Stands a (renewed a u password salt) t
  Stands-renewed u password salt s t st same = record {
    kept =
        subst (λ x. WellKept a x) (sym same)
          (WellKept-write a s.users u (renewed a u password salt) st.kept st.stored refl refl);
    stored = ground (arith, same, U.find-write s.users u.id u.id (renewed a u password salt));
    live = st.live;
  }

  -- If bcrypt accepts the passwords it hashed, then after a reset with a stored, unused and
  -- unexpired token of a verified user without a second factor, a login by the email with the
  -- new password returns its new token, a digest that no session has; ids and emails of users
  -- are unique.
  pub login-reset_password :
      (u : User) (t : MailToken) (token password salt now stamp later stamp' fresh : ℕ)
      (stored : Bool) (s : Db a)
      → Stands a u s
      → u.email_verified ≡ true
      → u.totp_enabled ≡ false
      → ((p q : ℕ) → a.compare p (a.hash_password p q) ≡ true)
      → R.find s.resets (hash_token token) ≡ some t
      → t.user_id ≡ u.id
      → t.used_at ≡ none
      → now ≤ t.expires_at
      → T.find s.refresh_tokens (hash_token fresh) ≡ none
      → S.find s.sessions (hash_token fresh) ≡ none
      → (login a u.email password later stamp' fresh stored
          (reset_password a token password salt now stamp s).1).0
        ≡ ok (logged_in fresh)
  login-reset_password u t token password salt now stamp later stamp' fresh stored s st verified
        plain bcrypt e own unused live no_token no_session =
      let v = after_reset a token password salt stamp t u s in
      let f : U.find s.users t.user_id ≡ some u = ground (arith, own, st.stored) in
      let good = reset_password_ok token password salt now stamp s t e f unused live in
      let st' : Stands a (renewed a u password salt) v =
        Stands-renewed u password salt s v st
          (ap (λ k. U.write s.users k (renewed a u password salt)) own) in
      rw (reset_password_state a token password salt now stamp s e f good) (
        login-renewed u password salt later stamp' fresh stored v st' verified plain
          (bcrypt password salt)
          (ground (
            arith,
            no_token,
            T.find-update_many s.refresh_tokens (others_of a t.user_id none) (revoked a stamp)
                (hash_token fresh),
          ))
          (ground (
            arith,
            no_session,
            S.find-update_many s.sessions (others_of a t.user_id none) (revoked a stamp)
                (hash_token fresh),
          )))
