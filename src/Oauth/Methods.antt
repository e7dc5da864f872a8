-- ===== src/Oauth/Methods.antt =====
-- The methods of the authorization server as sequences of changes of its tables.
use agentest.Shared.{
  ℕ, ◌+◌, ◌≡◌, ◌≤◌, refl, inl, inr, true, false, Option, none, some, arith, is_some, is_ok,
  Bool-cases, Option-cases, Bool, ◌&&◌, ◌||◌, ◌==◌, length, ltb, ap,
}
use agentest.Oauth.{
  Provider, Db, AuthorizationCode, CodeRequest, RefreshRequest, issue_authorization_code, Clock,
  exchange_code, refresh_access_token, revoke_token, revoke_all, issue_tokens, tokens_of,
  refreshes_of, client_agrees, authorization_code_expires_in, ChallengeMethod, s256, other_method,
  same_text, resource_agrees,
}
use agentest.Oauth.Exchange.{issued_refresh, issued_access, replay_state}
use agentest.Oauth.Refresh.{
  every-includes, refresh_access_token-Refreshed, refreshed_access, chosen_scopes,
  refresh_access_token_state, access_is_new, refused_refresh_state,
}
use agentest.Oauth.Changes.{
  Descends, new_code, use_code, new_refresh, new_access, mark_access, mark_refresh, mark_accesses,
  mark_refreshes, Changes, done, next, lands, append,
}

abbrev is_s256 : ChallengeMethod → Bool
is_s256 s256 = true
is_s256 (other_method m) = false

module _ (p : Provider) where
  open p use {codes as C, refreshes as R, accesses as T, hash_token}

  pub issue_authorization_code-Changes :
      (code : ℕ) (params : AuthorizationCode) (stamp : ℕ) (s : Db p)
      → Changes p s (issue_authorization_code p code params stamp s).1
  unfolding issue_authorization_code
  issue_authorization_code-Changes code params stamp s =
      elim (Bool-cases (is_ok (issue_authorization_code p code params stamp s).0)) [
        | inl good ↦
            lands p
              (next done (
                new_code code
                  (record params {
                    expires_at = stamp + authorization_code_expires_in;
                    used_at = none;
                  })
                  (ground (arith, good))))
              (ground (arith, good))
        | inr bad ↦ lands p done (ground (arith, bad))
      ]

  pub revoke_token-Changes :
      (token : ℕ) (client : Option ℕ) (now : ℕ) (s : Db p)
      → Changes p s (revoke_token p token client now s).1
  unfolding revoke_token
  revoke_token-Changes token client now s =
      elim (Option-cases (T.find s.accesses (hash_token token))) [
        | inr (t, e) ↦ elim (Bool-cases (client_agrees p client t.client_id)) [
          | inl agrees ↦
              lands p (next done (mark_access (hash_token token) now t e))
                (ground (arith, e, agrees))
          | inr other ↦ lands p done (ground (arith, e, other))
        ]
        | inl none_ ↦ elim (Option-cases (R.find s.refreshes (hash_token token))) [
          | inl f ↦ lands p done (ground (arith, none_, f))
          | inr (r, f) ↦ elim (Bool-cases (client_agrees p client r.client_id)) [
            | inl agrees ↦
                lands p (next done (mark_refresh (hash_token token) now r f))
                  (ground (arith, none_, f, agrees))
            | inr other ↦ lands p done (ground (arith, none_, f, other))
          ]
        ]
      ]

  pub refresh_access_token-Changes :
      (input : RefreshRequest) (clock : Clock) (access : ℕ) (s : Db p)
      → Changes p s (refresh_access_token p input clock access s).1
  refresh_access_token-Changes input clock access s =
      elim (Bool-cases (is_ok (refresh_access_token p input clock access s).0)) [
        | inr bad ↦ lands p done (refused_refresh_state p input clock access s bad)
        | inl good ↦
            let g = refresh_access_token-Refreshed p input clock access s good in
            let scopes = chosen_scopes p input.scope g.token.scopes in
            lands p
              (next done (
                new_access (hash_token access)
                  (refreshed_access p g.token clock input.refresh_token scopes)
                  (access_is_new p input clock access s good)
                  (record {
                    key = hash_token input.refresh_token;
                    token = g.token;
                    named = refl;
                    stored = g.stored;
                    client = refl;
                    user = refl;
                    audience = refl;
                    within = g.within;
                  })))
              (refresh_access_token_state p input.scope input.refresh_token input.client_id clock
                access s g.stored good)
      ]

  revoke_all-Changes :
      (user client now now' : ℕ) (s : Db p) → Changes p s (revoke_all p user client now now' s).1
  unfolding revoke_all
  revoke_all-Changes user client now now' s =
      next (next done (mark_accesses (tokens_of p user client) now))
        (mark_refreshes (refreshes_of p user client) now')

  issued_access-Descends :
      (c : AuthorizationCode) (clock : Clock) (refresh : ℕ) (s : Db p)
      → Descends p
          (record s {
            refreshes = R.write s.refreshes (hash_token refresh) (issued_refresh p c clock);
          })
          (issued_access p c clock refresh)
  issued_access-Descends c clock refresh s = record {
    key = hash_token refresh;
    token = issued_refresh p c clock;
    named = refl;
    stored = ground (
      arith,
      R.find-write s.refreshes (hash_token refresh) (hash_token refresh) (issued_refresh p c clock),
    );
    client = refl;
    user = refl;
    audience = refl;
    within = every-includes c.scopes;
  }

  issue_tokens-Changes :
      (c : AuthorizationCode) (clock : Clock) (refresh access : ℕ) (s : Db p)
      → Changes p s (issue_tokens p c clock refresh access s).1
  unfolding issue_tokens
  issue_tokens-Changes c clock refresh access s =
      let r = is_some (R.find s.refreshes (hash_token refresh)) in
      let t = is_some (T.find s.accesses (hash_token access)) in
      elim (Bool-cases (r || is_some (R.find_first s.refreshes (λ x. false)))) [
        | inl taken ↦ lands p done (ground (arith, taken))
        | inr free ↦ elim (Bool-cases (t || is_some (T.find_first s.accesses (λ x. false)))) [
          | inl taken ↦
              lands p
                (next done (
                  new_refresh (hash_token refresh) (issued_refresh p c clock)
                    (ground (arith, free))))
                (ground (arith, free, taken))
          | inr unused ↦
              lands p
                (next
                  (next done (
                    new_refresh (hash_token refresh) (issued_refresh p c clock)
                      (ground (arith, free))))
                  (new_access (hash_token access) (issued_access p c clock refresh)
                    (ground (arith, unused)) (issued_access-Descends c clock refresh s)))
                (ground (arith, free, unused))
        ]
      ]

  -- What `exchange_code` asks for before it marks the code as used.
  abbrev passes : CodeRequest → AuthorizationCode → Bool
  passes input c =
      c.client_id == input.client_id
      && c.redirect_uri == input.redirect_uri
      && is_s256 c.code_challenge_method
      && length (p.compute_code_challenge input.code_verifier) == length c.code_challenge
      && same_text (p.compute_code_challenge input.code_verifier) c.code_challenge
      && resource_agrees p input.resource c.resource

  refused_code_state :
      (input : CodeRequest) (clock : Clock) (refresh access : ℕ) (s : Db p) {c : AuthorizationCode}
      → C.find s.codes input.code ≡ some c
      → is_some c.used_at ≡ false
      → passes input c ≡ false
      → (exchange_code p input clock refresh access s).1 ≡ s
  unfolding exchange_code
  refused_code_state input clock refresh access s e unused bad = ground (arith, e, unused, bad)

  accepted_code_state :
      (input : CodeRequest) (clock : Clock) (refresh access : ℕ) (s : Db p) {c : AuthorizationCode}
      → C.find s.codes input.code ≡ some c
      → is_some c.used_at ≡ false
      → clock.checked ≤ c.expires_at
      → passes input c ≡ true
      → (exchange_code p input clock refresh access s).1
        ≡ (issue_tokens p c clock refresh access (record s {
          codes = C.write s.codes input.code (record c { used_at = some clock.marked });
        })).1
  unfolding exchange_code issue_tokens
  accepted_code_state input clock refresh access s e unused live good =
      ground (arith, e, unused, live, good)

  expired_code_state :
      (input : CodeRequest) (clock : Clock) (refresh access : ℕ) (s : Db p) {c : AuthorizationCode}
      → C.find s.codes input.code ≡ some c
      → ltb c.expires_at clock.checked ≡ true
      → (exchange_code p input clock refresh access s).1 ≡ s
  unfolding exchange_code
  expired_code_state input clock refresh access s e late = ground (arith, e, late)

  pub exchange_code-Changes :
      (input : CodeRequest) (clock : Clock) (refresh access : ℕ) (s : Db p)
      → Changes p s (exchange_code p input clock refresh access s).1
  unfolding exchange_code
  exchange_code-Changes input clock refresh access s =
      elim (Option-cases (C.find s.codes input.code)) [
        | inl e ↦ lands p done (ground (arith, e))
        | inr (c, e) ↦ elim (Bool-cases (ltb c.expires_at clock.checked)) [
          | inl late ↦ lands p done (expired_code_state input clock refresh access s e late)
          | inr live ↦ elim (Bool-cases (is_some c.used_at)) [
            | inl used ↦
                lands p
                  (revoke_all-Changes c.user_id c.client_id clock.accesses_revoked
                    clock.refreshes_revoked s)
                  (ap (λ r. r.1)
                    (replay_state p input clock refresh access s c e used (ground (arith, live))))
            | inr unused ↦ elim (Bool-cases (passes input c)) [
              | inr bad ↦
                  lands p done (refused_code_state input clock refresh access s e unused bad)
              | inl good ↦
                  lands p
                    (append p (next done (use_code input.code clock.marked c e))
                      (issue_tokens-Changes c clock refresh access _))
                    (accepted_code_state input clock refresh access s e unused
                      (ground (arith, live)) good)
            ]
          ]
        ]
      ]
