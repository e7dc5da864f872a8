-- ===== src/Oauth/Refresh.antt =====
-- Refreshing and revoking tokens.
use agentest.Shared.{
  ℕ, ◌+◌, ◌≡◌, ◌≤◌, refl, inl, inr, true, false, Option, none, some, List, [], ◌∷◌, arith, is_ok,
  ok, err, if◌then◌else◌, ==_self, every, includes, Option-cases, oauth_error, refresh_revoked,
}
use agentest.Oauth.{
  Clock, Provider, Db, AccessToken, RefreshToken, RefreshRequest, refresh_access_token,
  introspect_token, revoke_token, access_token_expires_in, parse_and_validate_scopes, client_agrees,
}
use agentest.Oauth.Exchange.{usable}

every-weaken :
    (xs ys : List ℕ) (x : ℕ) → every (includes ys) xs ≡ true → every (includes (x ∷ ys)) xs ≡ true
every-weaken [] ys x h = refl
every-weaken (z ∷ zs) ys x h = let rest = every-weaken zs ys x in ground (arith, rest, h)

pub every-includes : (xs : List ℕ) → every (includes xs) xs ≡ true
every-includes [] = refl
every-includes (x ∷ xs) = ground (arith, ==_self x, every-weaken xs xs x (every-includes xs))

module _ (p : Provider) where
  open p use {refreshes as R, accesses as T, hash_token}

  abbrev pub refreshed_access : RefreshToken → Clock → ℕ → List ℕ → AccessToken
  refreshed_access r clock refresh scopes = record {
    client_id = r.client_id;
    user_id = r.user_id;
    scopes = scopes;
    audience = r.audience;
    created_at = clock.created;
    expires_at = clock.access_issued + access_token_expires_in;
    revoked_at = none;
    refresh_token = some (hash_token refresh);
  }

  abbrev pub chosen_scopes : Option (List ℕ) → List ℕ → List ℕ
  chosen_scopes none held = held
  chosen_scopes (some words) held = parse_and_validate_scopes (some words)

  -- What a successful refresh has established, and what its access token is good for.
  pub record Refreshed (input : RefreshRequest) (clock : Clock) (access : ℕ) (s : Db p)
      : Type 0 where
    pub token : RefreshToken
    pub stored : R.find s.refreshes (hash_token input.refresh_token) ≡ some token
    pub live : clock.checked ≤ token.expires_at
    pub standing : token.revoked_at ≡ none
    pub client : token.client_id ≡ input.client_id
    pub within : every (includes token.scopes) (chosen_scopes input.scope token.scopes) ≡ true
    pub answer :
        (later : ℕ)
        → (introspect_token p access later (refresh_access_token p input clock access s).1).0
          ≡ ok (
              usable p
                (refreshed_access token clock input.refresh_token
                  (chosen_scopes input.scope token.scopes))
                later)

  within_lem :
      (words : Option (List ℕ)) (refresh client : ℕ) (clock : Clock) (access : ℕ) (s : Db p)
      {r : RefreshToken}
      → R.find s.refreshes (hash_token refresh) ≡ some r
      → let input : RefreshRequest = record {
        refresh_token = refresh;
        client_id = client;
        scope = words;
      } in
        is_ok (refresh_access_token p input clock access s).0 ≡ true
        → every (includes r.scopes) (chosen_scopes words r.scopes) ≡ true
  unfolding refresh_access_token
  within_lem none refresh client clock access s {r} e good = every-includes r.scopes
  within_lem (some words) refresh client clock access s e good = ground (arith, e, good)

  pub refresh_access_token_state :
      (words : Option (List ℕ)) (refresh client : ℕ) (clock : Clock) (access : ℕ) (s : Db p)
      {r : RefreshToken}
      → R.find s.refreshes (hash_token refresh) ≡ some r
      → let input : RefreshRequest = record {
        refresh_token = refresh;
        client_id = client;
        scope = words;
      } in
        is_ok (refresh_access_token p input clock access s).0 ≡ true
        → (refresh_access_token p input clock access s).1 ≡ record s {
          accesses =
              T.write s.accesses
                (hash_token access)
                (refreshed_access r clock refresh (chosen_scopes words r.scopes));
        }
  unfolding refresh_access_token
  refresh_access_token_state none refresh client clock access s e good = ground (arith, e, good)
  refresh_access_token_state (some words) refresh client clock access s e good =
      ground (arith, e, good)

  pub access_is_new :
      (input : RefreshRequest) (clock : Clock) (access : ℕ) (s : Db p)
      → is_ok (refresh_access_token p input clock access s).0 ≡ true
      → T.find s.accesses (hash_token access) ≡ none
  unfolding refresh_access_token
  access_is_new input clock access s good = ground (arith, good)

  pub refused_refresh_state :
      (input : RefreshRequest) (clock : Clock) (access : ℕ) (s : Db p)
      → is_ok (refresh_access_token p input clock access s).0 ≡ false
      → (refresh_access_token p input clock access s).1 ≡ s
  unfolding refresh_access_token
  refused_refresh_state input clock access s bad = ground (arith, bad)

  introspect_token-write :
      (s : Db p) (token later : ℕ) (t : AccessToken)
      → t.revoked_at ≡ none
      → (introspect_token p token later
          (record s { accesses = T.write s.accesses (hash_token token) t })).0
        ≡ ok (usable p t later)
  unfolding introspect_token
  introspect_token-write s token later t e =
      ground (arith, e, T.find-write s.accesses (hash_token token) (hash_token token) t)

  -- A refresh succeeds only with a stored, live and unrevoked refresh token of the client, and
  -- the new access token is introspected with its client, user and audience and with the chosen
  -- scopes, which the refresh token has, until it expires.
  pub refresh_access_token-Refreshed :
      (input : RefreshRequest) (clock : Clock) (access : ℕ) (s : Db p)
      → is_ok (refresh_access_token p input clock access s).0 ≡ true
      → Refreshed input clock access s
  unfolding refresh_access_token
  refresh_access_token-Refreshed input clock access s good =
      elim (Option-cases (R.find s.refreshes (hash_token input.refresh_token))) [
        | inl e ↦ absurd (ground (arith, e, good))
        | inr (r, e) ↦ record {
          token = r;
          stored = e;
          live = ground (arith, e, good);
          standing = ground (arith, e, good);
          client = ground (arith, e, good);
          within = within_lem input.scope input.refresh_token input.client_id clock access s e good;
          answer = λ later.
              rw
                (refresh_access_token_state input.scope input.refresh_token input.client_id clock
                  access s e good)
                (introspect_token-write s access later
                  (refreshed_access r clock input.refresh_token
                    (chosen_scopes input.scope r.scopes))
                  refl);
        }
      ]

  -- Revoking a stored access token makes it inactive if no client or its own client is named,
  -- and leaves what introspection answers for it as it was if another client is named.
  pub revoke_token-introspect_token :
      (token : ℕ) (client : Option ℕ) (now later : ℕ) (s : Db p) (t : AccessToken)
      → T.find s.accesses (hash_token token) ≡ some t
      → (introspect_token p token later (revoke_token p token client now s).1).0 ≡ (
          if client_agrees p client t.client_id
          then ok none
          else (introspect_token p token later s).0)
  unfolding introspect_token revoke_token
  revoke_token-introspect_token token none now later s t e = ground (
    arith,
    e,
    T.find-write s.accesses (hash_token token) (hash_token token)
        (record t { revoked_at = some now }),
  )
  revoke_token-introspect_token token (some c) now later s t e = ground (
    arith,
    e,
    T.find-write s.accesses (hash_token token) (hash_token token)
        (record t { revoked_at = some now }),
  )

  -- After a refresh token that is no access token was revoked for its client, or without naming
  -- a client, refreshing with it before it expires is refused as revoked and changes nothing.
  pub refresh_access_token-revoke_token :
      (token : ℕ) (client : Option ℕ) (now : ℕ) (s : Db p) (r : RefreshToken)
      (input : RefreshRequest) (later : Clock) (access : ℕ)
      → T.find s.accesses (hash_token token) ≡ none
      → R.find s.refreshes (hash_token token) ≡ some r
      → client_agrees p client r.client_id ≡ true
      → input.refresh_token ≡ token
      → later.checked ≤ r.expires_at
      → let t = (revoke_token p token client now s).1 in
        refresh_access_token p input later access t ≡ (err (oauth_error refresh_revoked), t)
  unfolding refresh_access_token revoke_token
  refresh_access_token-revoke_token token client now s r input later access none_ e agrees same le =
      ground (
        arith,
        none_,
        e,
        agrees,
        same,
        R.find-write s.refreshes (hash_token token) (hash_token token)
            (record r { revoked_at = some now }),
      )
