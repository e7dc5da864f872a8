-- ===== src/Password/Recovery.antt =====
-- What resetting and changing a password do to tokens and sessions.
use agentest.Shared.{
  ℕ, ◌≡◌, none, refl, inl, inr, true, ◌||◌, Option, some, arith, is_some, is_id, is_ok, err,
  if◌then◌else◌, Option-cases, bad_request, reset_token_used,
}
use agentest.Password.{Auth, Db, User, MailToken, Login, cleared}
use agentest.Password.Reset.{reset_password, change_password, use_up, others_of, revoked}

module _ (a : Auth) where
  open a use {users as U, resets as R, refresh_tokens as T, sessions as S, hash_token}

  -- No login of the user stands but the one with the digest in `kept`.
  pub record Expelled (user : ℕ) (kept : Option ℕ) (s : Db a) : Type 0 where
    pub tokens :
        (k : ℕ) (l : Login)
        → T.find s.refresh_tokens k ≡ some l
        → l.user_id ≡ user
        → is_some l.revoked_at || is_id kept l.token_hash ≡ true
    pub sessions :
        (k : ℕ) (l : Login)
        → S.find s.sessions k ≡ some l
        → l.user_id ≡ user
        → is_some l.revoked_at || is_id kept l.token_hash ≡ true

  -- The rows that a successful reset has found.
  record Redeemed (token : ℕ) (s : Db a) : Type 0 where
    row : MailToken
    stored : R.find s.resets (hash_token token) ≡ some row
    user : User
    owner : U.find s.users row.user_id ≡ some user

  reset_password-Redeemed :
      (token password salt now stamp : ℕ) (s : Db a)
      → is_ok (reset_password a token password salt now stamp s).0 ≡ true
      → Redeemed token s
  unfolding reset_password
  reset_password-Redeemed token password salt now stamp s good =
      elim (Option-cases (R.find s.resets (hash_token token))) [
        | inl e ↦ absurd (ground (arith, e, good))
        | inr (t, e) ↦ elim (Option-cases (U.find s.users t.user_id)) [
          | inl f ↦ absurd (ground (arith, e, f, good))
          | inr (u, f) ↦ record { row = t; stored = e; user = u; owner = f }
        ]
      ]

  pub reset_used :
      (token password salt now stamp : ℕ) (s : Db a) (t : MailToken)
      → R.find s.resets (hash_token token) ≡ some t
      → is_some t.used_at ≡ true
      → reset_password a token password salt now stamp s ≡ (err (bad_request reset_token_used), s)
  unfolding reset_password
  reset_used token password salt now stamp s t e used = ground (arith, e, used)

  -- The row that a reset leaves of its user, and the tables.
  abbrev pub renewed : User → ℕ → ℕ → User
  renewed u password salt = record (cleared a u) {
    password_hash = some (a.hash_password password salt);
  }

  abbrev pub after_reset : ℕ → ℕ → ℕ → ℕ → MailToken → User → Db a → Db a
  after_reset token password salt stamp t u s = record s {
    resets = R.write s.resets (hash_token token) (use_up a stamp t);
    users = U.write s.users t.user_id (renewed u password salt);
    refresh_tokens = T.update_many s.refresh_tokens (others_of a t.user_id none) (revoked a stamp);
    sessions = S.update_many s.sessions (others_of a t.user_id none) (revoked a stamp);
  }

  pub reset_password_state :
      (token password salt now stamp : ℕ) (s : Db a) {t : MailToken} {u : User}
      → R.find s.resets (hash_token token) ≡ some t
      → U.find s.users t.user_id ≡ some u
      → is_ok (reset_password a token password salt now stamp s).0 ≡ true
      → (reset_password a token password salt now stamp s).1
        ≡ after_reset token password salt stamp t u s
  unfolding reset_password
  reset_password_state token password salt now stamp s e f good = ground (arith, e, f, good)

  revoked-by :
      (user : ℕ) (kept : Option ℕ) (now : ℕ) (m l : Login)
      → (if others_of a user kept m then revoked a now m else m) ≡ l
      → l.user_id ≡ user
      → is_some l.revoked_at || is_id kept l.token_hash ≡ true
  revoked-by user kept now m l e own = ground (arith, e, own)

  Expelled-lem :
      (user : ℕ) (kept : Option ℕ) (now : ℕ) (s : Db a) (t : T.Rows) (u : S.Rows)
      → s.refresh_tokens ≡ T.update_many t (others_of a user kept) (revoked a now)
      → s.sessions ≡ S.update_many u (others_of a user kept) (revoked a now)
      → Expelled user kept s
  Expelled-lem user kept now s t u e f = record {
    tokens = λ k l h own. elim (Option-cases (T.find t k)) [
      | inl none_ ↦ absurd (
          ground
            (arith, e, h, none_, T.find-update_many t (others_of a user kept) (revoked a now) k))
      | inr (m, g) ↦
          revoked-by user kept now m l
            (ground
              (arith, e, h, g, T.find-update_many t (others_of a user kept) (revoked a now) k))
            own
    ];
    sessions = λ k l h own. elim (Option-cases (S.find u k)) [
      | inl none_ ↦ absurd (
          ground
            (arith, f, h, none_, S.find-update_many u (others_of a user kept) (revoked a now) k))
      | inr (m, g) ↦
          revoked-by user kept now m l
            (ground
              (arith, f, h, g, S.find-update_many u (others_of a user kept) (revoked a now) k))
            own
    ];
  }

  -- After a successful password reset another one with the same token, at any time, is refused
  -- as used and changes nothing.
  pub reset_password-once :
      (token password salt now stamp password' salt' now' stamp' : ℕ) (s : Db a)
      → is_ok (reset_password a token password salt now stamp s).0 ≡ true
      → let t = (reset_password a token password salt now stamp s).1 in
        reset_password a token password' salt' now' stamp' t
        ≡ (err (bad_request reset_token_used), t)
  reset_password-once token password salt now stamp password' salt' now' stamp' s good =
      let r = reset_password-Redeemed token password salt now stamp s good in
      let t = after_reset token password salt stamp r.row r.user s in
      let row = use_up a stamp r.row in
      let held : R.find t.resets (hash_token token) ≡ some row =
        ground (arith, R.find-write s.resets (hash_token token) (hash_token token) row) in
      rw (reset_password_state token password salt now stamp s r.stored r.owner good)
        (reset_used token password' salt' now' stamp' t row held refl)

  -- After a successful reset with a stored token every refresh token and every session of its
  -- user is revoked.
  pub reset_password-Expelled :
      (token password salt now stamp : ℕ) (s : Db a) (t : MailToken)
      → R.find s.resets (hash_token token) ≡ some t
      → is_ok (reset_password a token password salt now stamp s).0 ≡ true
      → Expelled t.user_id none (reset_password a token password salt now stamp s).1
  reset_password-Expelled token password salt now stamp s t e good =
      let r = reset_password-Redeemed token password salt now stamp s good in
      let f : U.find s.users t.user_id ≡ some r.user = ground (arith, e, r.stored, r.owner) in
      rw (reset_password_state token password salt now stamp s e f good) (
        Expelled-lem t.user_id none stamp (after_reset token password salt stamp t r.user s)
          s.refresh_tokens s.sessions refl refl)

  change_password_state :
      (user current password salt : ℕ) (kept : Option ℕ) (now : ℕ) (s : Db a)
      → is_ok (change_password a user current password salt kept now s).0 ≡ true
      → ((change_password a user current password salt kept now s).1.refresh_tokens
          ≡ T.update_many s.refresh_tokens (others_of a user kept) (revoked a now))
        × ((change_password a user current password salt kept now s).1.sessions
            ≡ S.update_many s.sessions (others_of a user kept) (revoked a now))
  unfolding change_password
  change_password_state user current password salt kept now s good =
      elim (Option-cases (U.find s.users user)) [
        | inl none_ ↦ absurd (ground (arith, none_, good))
        | inr (u, e) ↦ (ground (arith, e, good), ground (arith, e, good))
      ]

  -- After a successful change of the password every refresh token and every session of the user
  -- is revoked but for those with the kept digest, if there is one, and every session with the
  -- kept digest is as it was.
  pub change_password-Expelled :
      (user current password salt : ℕ) (kept : Option ℕ) (now : ℕ) (s : Db a)
      → is_ok (change_password a user current password salt kept now s).0 ≡ true
      → let t = (change_password a user current password salt kept now s).1 in
        Expelled user kept t
        × ((k : ℕ) (l : Login)
            → S.find s.sessions k ≡ some l
            → is_id kept l.token_hash ≡ true
            → S.find t.sessions k ≡ some l)
  change_password-Expelled user current password salt kept now s good =
      let t = (change_password a user current password salt kept now s).1 in
      let (e, f) = change_password_state user current password salt kept now s good in
      (
        Expelled-lem user kept now t s.refresh_tokens s.sessions e f,
        λ k l g same. ground (
          arith,
          f,
          g,
          same,
          S.find-update_many s.sessions (others_of a user kept) (revoked a now) k,
        ),
      )
