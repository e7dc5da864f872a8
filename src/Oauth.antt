-- ===== src/Oauth.antt =====
-- apps/api/src/services/oauth.service.ts: codes, tokens, introspection and revocation, over
-- apps/api/src/repositories/oauth.repository.ts and apps/api/src/utils/pkce.ts. Client ids, tokens,
-- URIs and scopes are numbers; a code challenge is its characters, since its length matters.
pub mod Changes
pub mod Exchange
pub mod Kept
pub mod Methods
pub mod Histories
mod Tests
pub mod Refresh
pub mod Audience
use agentest.Shared.{
  ℕ, ◌+◌, ◌*◌, Bool, true, false, not, ◌&&◌, Option, none, some, List, [], ◌∷◌, if◌then◌else◌, ltb,
  ◌==◌, is_id, is_some, length, every, includes, Delegate, Exec, Result, ok, err, pure, throw,
  guard, gets, or_throw, ◌>>=◌, ◌>>◌, find_unique, create, update, update_all, Error, oauth_error,
  range_error, OauthReason, code_not_found, code_expired, code_already_used, client_mismatch,
  redirect_mismatch, verifier_failed, resource_mismatch, refresh_not_found, refresh_expired,
  refresh_revoked, scope_exceeded,
}

abbrev pub authorization_code_expires_in : ℕ
authorization_code_expires_in = 10 * 60 * 1000

abbrev pub access_token_expires_in : ℕ
access_token_expires_in = 60 * 60 * 1000

abbrev pub refresh_token_expires_in : ℕ
refresh_token_expires_in = 30 * 24 * 60 * 60 * 1000

pub data ChallengeMethod : Type 0 where
  s256 : ChallengeMethod
  other_method : ℕ → ChallengeMethod

pub record AuthorizationCode : Type 0 where
  pub client_id : ℕ
  pub user_id : ℕ
  pub redirect_uri : ℕ
  pub scopes : List ℕ
  pub code_challenge : List ℕ
  pub code_challenge_method : ChallengeMethod
  pub resource : ℕ
  pub expires_at : ℕ
  pub used_at : Option ℕ

pub record RefreshToken : Type 0 where
  pub client_id : ℕ
  pub user_id : ℕ
  pub scopes : List ℕ
  pub audience : ℕ
  pub expires_at : ℕ
  pub revoked_at : Option ℕ

-- `refresh_token` is the key of the refresh token that the access token was issued with.
pub record AccessToken : Type 0 where
  pub client_id : ℕ
  pub user_id : ℕ
  pub scopes : List ℕ
  pub audience : ℕ
  pub created_at : ℕ
  pub expires_at : ℕ
  pub revoked_at : Option ℕ
  pub refresh_token : Option ℕ

pub record TokenResponse : Type 0 where
  pub access_token : ℕ
  pub expires_in : ℕ
  pub refresh_token : Option ℕ
  pub scope : List ℕ

pub record CodeRequest : Type 0 where
  pub code : ℕ
  pub client_id : ℕ
  pub redirect_uri : ℕ
  pub code_verifier : ℕ
  pub resource : Option ℕ

-- `scope` has the words of the requested text, if it is there and not empty.
pub record RefreshRequest : Type 0 where
  pub refresh_token : ℕ
  pub client_id : ℕ
  pub scope : Option (List ℕ)

-- `SUPPORTED_SCOPES` of validators/oauth.validator.ts, in its order.
abbrev pub supported_scopes : List ℕ
supported_scopes = 0 ∷ 1 ∷ 2 ∷ 3 ∷ 4 ∷ 5 ∷ 6 ∷ 7 ∷ 8 ∷ 9 ∷ []

abbrev pub keep_supported : List ℕ → List ℕ
keep_supported [] = []
keep_supported (x ∷ xs) =
    let rest = keep_supported xs in if includes supported_scopes x then x ∷ rest else rest

-- `parseAndValidateScopes` on the words of the text.
pub parse_and_validate_scopes : Option (List ℕ) → List ℕ
parse_and_validate_scopes none = []
parse_and_validate_scopes (some words) = keep_supported words

-- What the service takes from elsewhere: the delegates and the SHA-256 digests of tokens and of
-- code verifiers.
pub record Provider : Type 1 where
  pub codes : Delegate ℕ AuthorizationCode ◌==◌
  pub refreshes : Delegate ℕ RefreshToken ◌==◌
  pub accesses : Delegate ℕ AccessToken ◌==◌
  pub hash_token : ℕ → ℕ
  pub compute_code_challenge : ℕ → List ℕ

-- The readings of the clock at the token endpoint: for the test of the expiry, for revoking the tokens
-- of a code that was used before, for marking the code as used, for the expiry of each new token, and
-- by the database for the creation of the access token. A refresh makes the first and the last two.
pub record Clock : Type 0 where
  pub checked : ℕ
  pub accesses_revoked : ℕ
  pub refreshes_revoked : ℕ
  pub marked : ℕ
  pub refresh_issued : ℕ
  pub access_issued : ℕ
  pub created : ℕ

pub record Db (p : Provider) : Type 0 where
  pub codes : p.codes.Rows
  pub refreshes : p.refreshes.Rows
  pub accesses : p.accesses.Rows

abbrev pub same_text : List ℕ → List ℕ → Bool
same_text [] [] = true
same_text [] (y ∷ ys) = false
same_text (x ∷ xs) [] = false
same_text (x ∷ xs) (y ∷ ys) = x == y && same_text xs ys

module _ (p : Provider) where
  abbrev code_rows : Db p → p.codes.Rows
  code_rows s = s.codes

  abbrev set_codes : Db p → p.codes.Rows → Db p
  set_codes s t = record s { codes = t }

  abbrev refresh_rows : Db p → p.refreshes.Rows
  refresh_rows s = s.refreshes

  abbrev set_refreshes : Db p → p.refreshes.Rows → Db p
  set_refreshes s t = record s { refreshes = t }

  abbrev access_rows : Db p → p.accesses.Rows
  access_rows s = s.accesses

  abbrev set_accesses : Db p → p.accesses.Rows → Db p
  set_accesses s t = record s { accesses = t }

  -- `verifyCodeChallenge`: `crypto.timingSafeEqual` throws if the lengths differ.
  pub verify_code_challenge : ℕ → List ℕ → ChallengeMethod → Exec (Db p) Bool
  verify_code_challenge verifier challenge (other_method m) = pure false
  verify_code_challenge verifier challenge s256 = do
    let computed = p.compute_code_challenge verifier
    guard (length computed == length challenge) range_error
    pure (same_text computed challenge)

  pub issue_authorization_code : ℕ → AuthorizationCode → ℕ → Exec (Db p) ℕ
  issue_authorization_code code params stamp = do
    _ ←
        create p.codes code_rows set_codes code (λ c. false)
          (record params { expires_at = stamp + authorization_code_expires_in; used_at = none })
    pure code

  abbrev pub tokens_of : ℕ → ℕ → AccessToken → Bool
  tokens_of user client t = t.user_id == user && t.client_id == client && not (is_some t.revoked_at)

  abbrev pub refreshes_of : ℕ → ℕ → RefreshToken → Bool
  refreshes_of user client t =
      t.user_id == user && t.client_id == client && not (is_some t.revoked_at)

  -- A code that comes a second time: every token of its user and client is revoked.
  pub revoke_all : ℕ → ℕ → ℕ → ℕ → Exec (Db p) (Unit {0})
  revoke_all user client now now' = do
    update_all p.accesses access_rows set_accesses (tokens_of user client)
        (λ t. record t { revoked_at = some now })
    update_all p.refreshes refresh_rows set_refreshes (refreshes_of user client)
        (λ t. record t { revoked_at = some now' })

  refuse_used : AuthorizationCode → Clock → Exec (Db p) (Unit {0})
  unfolding revoke_all
  refuse_used c clock =
      if is_some c.used_at
      then (revoke_all c.user_id c.client_id clock.accesses_revoked clock.refreshes_revoked
          >> throw (oauth_error code_already_used))
      else pure tt

  abbrev resource_agrees : Option ℕ → ℕ → Bool
  resource_agrees none r = true
  resource_agrees (some x) r = x == r

  issue_tokens : AuthorizationCode → Clock → ℕ → ℕ → Exec (Db p) TokenResponse
  issue_tokens c clock refresh access = do
    _ ←
        create p.refreshes refresh_rows set_refreshes (p.hash_token refresh) (λ t. false)
          (record {
            client_id = c.client_id;
            user_id = c.user_id;
            scopes = c.scopes;
            audience = c.resource;
            expires_at = clock.refresh_issued + refresh_token_expires_in;
            revoked_at = none;
          })
    _ ←
        create p.accesses access_rows set_accesses (p.hash_token access) (λ t. false)
          (record {
            client_id = c.client_id;
            user_id = c.user_id;
            scopes = c.scopes;
            audience = c.resource;
            created_at = clock.created;
            expires_at = clock.access_issued + access_token_expires_in;
            revoked_at = none;
            refresh_token = some (p.hash_token refresh);
          })
    pure (record {
      access_token = access;
      expires_in = 3600;
      refresh_token = some refresh;
      scope = c.scopes;
    })

  -- `exchangeCodeForToken` with the grant type `authorization_code`. `refresh` and `access` are the
  -- random tokens.
  pub exchange_code : CodeRequest → Clock → ℕ → ℕ → Exec (Db p) TokenResponse
  unfolding refuse_used verify_code_challenge issue_tokens
  exchange_code input clock refresh access = do
    found ← find_unique p.codes code_rows set_codes input.code
    c ← or_throw found (oauth_error code_not_found)
    guard (not (ltb c.expires_at clock.checked)) (oauth_error code_expired)
    refuse_used c clock
    guard (c.client_id == input.client_id) (oauth_error client_mismatch)
    guard (c.redirect_uri == input.redirect_uri) (oauth_error redirect_mismatch)
    verified ← verify_code_challenge input.code_verifier c.code_challenge c.code_challenge_method
    guard verified (oauth_error verifier_failed)
    guard (resource_agrees input.resource c.resource) (oauth_error resource_mismatch)
    _ ←
        update p.codes code_rows set_codes input.code
          (λ d. record d { used_at = some clock.marked })
    issue_tokens c clock refresh access

  narrow_scopes : Option (List ℕ) → List ℕ → Exec (Db p) (List ℕ)
  unfolding parse_and_validate_scopes
  narrow_scopes none held = pure held
  narrow_scopes (some words) held = do
    let requested = parse_and_validate_scopes (some words)
    guard (every (includes held) requested) (oauth_error scope_exceeded)
    pure requested

  pub refresh_access_token : RefreshRequest → Clock → ℕ → Exec (Db p) TokenResponse
  unfolding narrow_scopes
  refresh_access_token input clock access = do
    found ← find_unique p.refreshes refresh_rows set_refreshes (p.hash_token input.refresh_token)
    r ← or_throw found (oauth_error refresh_not_found)
    guard (not (ltb r.expires_at clock.checked)) (oauth_error refresh_expired)
    guard (not (is_some r.revoked_at)) (oauth_error refresh_revoked)
    guard (r.client_id == input.client_id) (oauth_error client_mismatch)
    scopes ← narrow_scopes input.scope r.scopes
    _ ←
        create p.accesses access_rows set_accesses (p.hash_token access) (λ t. false)
          (record {
            client_id = r.client_id;
            user_id = r.user_id;
            scopes = scopes;
            audience = r.audience;
            created_at = clock.created;
            expires_at = clock.access_issued + access_token_expires_in;
            revoked_at = none;
            refresh_token = some (p.hash_token input.refresh_token);
          })
    pure (record { access_token = access; expires_in = 3600; refresh_token = none; scope = scopes })

  abbrev active_token : Option AccessToken → ℕ → Option AccessToken
  active_token none now = none
  active_token (some t) now =
      if is_some t.revoked_at then none else if ltb t.expires_at now then none else some t

  -- `none` is `{ active: false }`; a row holds what the answer is built from.
  pub introspect_token : ℕ → ℕ → Exec (Db p) (Option AccessToken)
  introspect_token token now = do
    found ← find_unique p.accesses access_rows set_accesses (p.hash_token token)
    pure (active_token found now)

  abbrev pub client_agrees : Option ℕ → ℕ → Bool
  client_agrees none c = true
  client_agrees (some x) c = c == x

  -- `revokeAccessToken` and `revokeRefreshToken` of the repository.
  mark_access : ℕ → ℕ → Exec (Db p) (Unit {0})
  mark_access key now = do
    _ ← update p.accesses access_rows set_accesses key (λ t. record t { revoked_at = some now })
    pure tt

  mark_refresh : ℕ → ℕ → Exec (Db p) (Unit {0})
  mark_refresh key now = do
    _ ← update p.refreshes refresh_rows set_refreshes key (λ t. record t { revoked_at = some now })
    pure tt

  revoke_refresh : ℕ → Option ℕ → ℕ → Option RefreshToken → Exec (Db p) (Unit {0})
  unfolding mark_refresh
  revoke_refresh key client now none = pure tt
  revoke_refresh key client now (some r) =
      if client_agrees client r.client_id then mark_refresh key now else pure tt

  revoke_found : ℕ → Option ℕ → ℕ → Option AccessToken → Exec (Db p) (Unit {0})
  unfolding revoke_refresh mark_access
  revoke_found key client now none = do
    found ← find_unique p.refreshes refresh_rows set_refreshes key
    revoke_refresh key client now found
  revoke_found key client now (some t) =
      if client_agrees client t.client_id then mark_access key now else pure tt

  pub revoke_token : ℕ → Option ℕ → ℕ → Exec (Db p) (Unit {0})
  unfolding revoke_found
  revoke_token token client now = do
    found ← find_unique p.accesses access_rows set_accesses (p.hash_token token)
    revoke_found (p.hash_token token) client now found

  abbrev audience_agrees : Option ℕ → AccessToken → Bool
  audience_agrees none t = true
  audience_agrees (some a) t = t.audience == a

  abbrev accepted_by : Option ℕ → Option AccessToken → Option (ℕ × List ℕ)
  accepted_by audience none = none
  accepted_by audience (some t) =
      if audience_agrees audience t then some (t.user_id, t.scopes) else none

  pub validate_access_token : ℕ → Option ℕ → ℕ → Exec (Db p) (Option (ℕ × List ℕ))
  unfolding introspect_token
  validate_access_token token audience now = do
    result ← introspect_token token now
    pure (accepted_by audience result)
