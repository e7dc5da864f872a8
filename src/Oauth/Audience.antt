-- ===== src/Oauth/Audience.antt =====
-- The resource that an access token is good for.
use agentest.Shared.{ℕ, ◌+◌, ◌≡◌, ◌≢◌, ◌≤◌, refl, true, none, some, arith, is_ok, ok}
use agentest.Oauth.{
  Clock, Provider, Db, AuthorizationCode, AccessToken, CodeRequest, exchange_code,
  validate_access_token, access_token_expires_in,
}
use agentest.Oauth.Exchange.{issued_access, exchange_code_state, after_exchange}

module _ (p : Provider) where
  open p use {codes as C, refreshes as R, accesses as T, hash_token}

  validate_stored :
      (token x later : ℕ) (s : Db p) (t : AccessToken)
      → T.find s.accesses (hash_token token) ≡ some t
      → t.revoked_at ≡ none
      → later ≤ t.expires_at
      → x ≢ t.audience
      → ((validate_access_token p token (some t.audience) later s).0
          ≡ ok (some (t.user_id, t.scopes)))
        × ((validate_access_token p token (some x) later s).0 ≡ ok none)
  unfolding validate_access_token
  validate_stored token x later s t e standing live other =
      (ground (arith, e, standing, live), ground (arith, e, standing, live, other))

  -- After a successful exchange of a stored code, and until the new access token expires, its
  -- validation for the resource of the code answers the user and the scopes of the code, and
  -- for any other resource it answers nothing.
  pub validate_access_token-exchange_code :
      (input : CodeRequest) (clock : Clock) (refresh access later x : ℕ) (s : Db p)
      (c : AuthorizationCode)
      → C.find s.codes input.code ≡ some c
      → is_ok (exchange_code p input clock refresh access s).0 ≡ true
      → later ≤ clock.access_issued + access_token_expires_in
      → x ≢ c.resource
      → let t = (exchange_code p input clock refresh access s).1 in
        ((validate_access_token p access (some c.resource) later t).0
          ≡ ok (some (c.user_id, c.scopes)))
        × ((validate_access_token p access (some x) later t).0 ≡ ok none)
  validate_access_token-exchange_code input clock refresh access later x s c e good live other =
      let row = issued_access p c clock refresh in
      let t = after_exchange p s input.code c clock refresh access in
      rw (exchange_code_state p input clock refresh access s e good) (
        validate_stored access x later t row
          (ground (arith, T.find-write s.accesses (hash_token access) (hash_token access) row)) refl
          live other)
