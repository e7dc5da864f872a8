-- ===== src/Oauth/Exchange.antt =====
-- The exchange of an authorization code: who passes, what the tokens are good for, and a second use.
use agentest.Shared.{
  List, [], ◌∷◌, ltb, ℕ, ◌+◌, ◌≡◌, ◌≤◌, refl, inl, inr, true, Option, none, some, arith, is_some,
  is_ok, ok, err, if◌then◌else◌, ltb, Option-cases, oauth_error, code_already_used,
}
use agentest.Oauth.{
  Provider, Db, AuthorizationCode, AccessToken, RefreshToken, CodeRequest, s256, same_text, Clock,
  exchange_code, introspect_token, access_token_expires_in, refresh_token_expires_in, tokens_of,
  revoke_all, resource_agrees,
}

same_text-≡ : (xs ys : List ℕ) → same_text xs ys ≡ true → xs ≡ ys
same_text-≡ [] [] h = refl
same_text-≡ [] (y ∷ ys) h = absurd (ground (arith, h))
same_text-≡ (x ∷ xs) [] h = absurd (ground (arith, h))
same_text-≡ (x ∷ xs) (y ∷ ys) h = let rest = same_text-≡ xs ys in ground (arith, rest, h)

module _ (p : Provider) where
  open p use {codes as C, refreshes as R, accesses as T, hash_token}

  -- What a successful exchange has established of the code and the request.
  pub record Granted (input : CodeRequest) (now : ℕ) (s : Db p) : Type 0 where
    pub code : AuthorizationCode
    pub stored : C.find s.codes input.code ≡ some code
    pub fresh : code.used_at ≡ none
    pub live : now ≤ code.expires_at
    pub client : code.client_id ≡ input.client_id
    pub redirect : code.redirect_uri ≡ input.redirect_uri
    pub method : code.code_challenge_method ≡ s256
    pub verified : p.compute_code_challenge input.code_verifier ≡ code.code_challenge
    pub target : resource_agrees p input.resource code.resource ≡ true

  matches :
      (input : CodeRequest) (clock : Clock) (refresh access : ℕ) (s : Db p) {c : AuthorizationCode}
      → C.find s.codes input.code ≡ some c
      → is_ok (exchange_code p input clock refresh access s).0 ≡ true
      → same_text (p.compute_code_challenge input.code_verifier) c.code_challenge ≡ true
  unfolding exchange_code
  matches input clock refresh access s e good = ground (arith, e, good)

  -- An exchange succeeds only for a stored, unused and unexpired code, for the client and the
  -- redirect URI it was issued to, with the method S256, a verifier whose challenge is the
  -- stored one, and the resource, if one is named, of the code.
  pub exchange_code-Granted :
      (input : CodeRequest) (clock : Clock) (refresh access : ℕ) (s : Db p)
      → is_ok (exchange_code p input clock refresh access s).0 ≡ true
      → Granted input clock.checked s
  unfolding exchange_code
  exchange_code-Granted input clock refresh access s good =
      elim (Option-cases (C.find s.codes input.code)) [
        | inl e ↦ absurd (ground (arith, e, good))
        | inr (c, e) ↦ record {
          code = c;
          stored = e;
          fresh = ground (arith, e, good);
          live = ground (arith, e, good);
          client = ground (arith, e, good);
          redirect = ground (arith, e, good);
          method = ground (arith, e, good);
          verified =
              same_text-≡ (p.compute_code_challenge input.code_verifier) c.code_challenge
                (matches input clock refresh access s e good);
          target = ground (arith, e, good);
        }
      ]

  -- The rows that an exchange writes.
  abbrev spent : AuthorizationCode → Clock → AuthorizationCode
  spent c clock = record c { used_at = some clock.marked }

  abbrev pub issued_refresh : AuthorizationCode → Clock → RefreshToken
  issued_refresh c clock = record {
    client_id = c.client_id;
    user_id = c.user_id;
    scopes = c.scopes;
    audience = c.resource;
    expires_at = clock.refresh_issued + refresh_token_expires_in;
    revoked_at = none;
  }

  abbrev pub issued_access : AuthorizationCode → Clock → ℕ → AccessToken
  issued_access c clock refresh = record {
    client_id = c.client_id;
    user_id = c.user_id;
    scopes = c.scopes;
    audience = c.resource;
    created_at = clock.created;
    expires_at = clock.access_issued + access_token_expires_in;
    revoked_at = none;
    refresh_token = some (hash_token refresh);
  }

  abbrev pub after_exchange : Db p → ℕ → AuthorizationCode → Clock → ℕ → ℕ → Db p
  after_exchange s code c clock refresh access = record s {
    codes = C.write s.codes code (spent c clock);
    refreshes = R.write s.refreshes (hash_token refresh) (issued_refresh c clock);
    accesses = T.write s.accesses (hash_token access) (issued_access c clock refresh);
  }

  pub exchange_code_state :
      (input : CodeRequest) (clock : Clock) (refresh access : ℕ) (s : Db p) {c : AuthorizationCode}
      → C.find s.codes input.code ≡ some c
      → is_ok (exchange_code p input clock refresh access s).0 ≡ true
      → (exchange_code p input clock refresh access s).1
        ≡ after_exchange s input.code c clock refresh access
  unfolding exchange_code
  exchange_code_state input clock refresh access s e good = ground (arith, e, good)

  abbrev pub usable : AccessToken → ℕ → Option AccessToken
  usable t later = if ltb t.expires_at later then none else some t

  -- After a successful exchange there is a code stored under the presented one, and the new
  -- access token is introspected with its client, user, scopes and resource until it expires,
  -- an hour later, and as inactive afterwards.
  pub introspect_token-exchange_code :
      (input : CodeRequest) (clock : Clock) (refresh access later : ℕ) (s : Db p)
      → is_ok (exchange_code p input clock refresh access s).0 ≡ true
      → (c : AuthorizationCode) × (C.find s.codes input.code ≡ some c)
        × ((introspect_token p access later (exchange_code p input clock refresh access s).1).0
            ≡ ok (usable (issued_access c clock refresh) later))
  unfolding introspect_token
  introspect_token-exchange_code input clock refresh access later s good =
      let g = exchange_code-Granted input clock refresh access s good in
      let row = issued_access g.code clock refresh in
      (
        g.code,
        g.stored,
        rw (exchange_code_state input clock refresh access s g.stored good)
            (ground (arith, T.find-write s.accesses (hash_token access) (hash_token access) row)),
      )

  -- A code that was used already, and has not expired.
  pub replay_state :
      (input : CodeRequest) (clock : Clock) (refresh access : ℕ) (s : Db p) (c : AuthorizationCode)
      → C.find s.codes input.code ≡ some c
      → is_some c.used_at ≡ true
      → clock.checked ≤ c.expires_at
      → exchange_code p input clock refresh access s ≡ (
        err (oauth_error code_already_used),
        (revoke_all p c.user_id c.client_id clock.accesses_revoked clock.refreshes_revoked s).1,
      )
  unfolding exchange_code revoke_all
  replay_state input clock refresh access s c e used live = ground (arith, e, used, live)

  introspect_token-revoke_all :
      (s : Db p) (user client now now' at token : ℕ) {t : AccessToken}
      → T.find s.accesses (hash_token token) ≡ some t
      → t.user_id ≡ user
      → t.client_id ≡ client
      → (introspect_token p token at (revoke_all p user client now now' s).1).0 ≡ ok none
  unfolding introspect_token revoke_all
  introspect_token-revoke_all s user client now now' at token e eu ec = ground (
    arith,
    e,
    eu,
    ec,
    T.find-update_many s.accesses (tokens_of p user client)
        (λ t. record t { revoked_at = some now }) (hash_token token),
  )

  -- If a code was exchanged and is exchanged again before it expires, the second exchange is
  -- refused as used, and the access token of the first is no longer active.
  pub exchange_code-replay :
      (input again : CodeRequest) (clock later : Clock) (refresh access refresh' access' at : ℕ)
      (s : Db p) (c : AuthorizationCode)
      → C.find s.codes input.code ≡ some c
      → is_ok (exchange_code p input clock refresh access s).0 ≡ true
      → again.code ≡ input.code
      → later.checked ≤ c.expires_at
      → let t = (exchange_code p input clock refresh access s).1 in
        let u = exchange_code p again later refresh' access' t in
        (u.0 ≡ err (oauth_error code_already_used))
        × ((introspect_token p access at u.1).0 ≡ ok none)
  exchange_code-replay input again clock later refresh access refresh' access' at s c e good same
        le =
      let t = after_exchange s input.code c clock refresh access in
      let held : C.find t.codes again.code ≡ some (spent c clock) =
        ground (arith, same, C.find-write s.codes input.code again.code (spent c clock)) in
      let row : T.find t.accesses (hash_token access) ≡ some (issued_access c clock refresh) =
        ground (
          arith,
          T.find-write s.accesses (hash_token access) (hash_token access)
              (issued_access c clock refresh),
        ) in
      rw (exchange_code_state input clock refresh access s e good) (
        rw (replay_state again later refresh' access' t (spent c clock) held refl le) (
          refl,
          introspect_token-revoke_all t c.user_id c.client_id later.accesses_revoked
              later.refreshes_revoked at access row refl refl,
        ))
