-- ===== src/Oauth/Histories.antt =====
-- Histories of calls to the authorization server, in any order.
use agentest.Shared.{ℕ, ◌≡◌, refl, true, false, Option, none, some, arith, List, [], ◌∷◌, is_ok, ok}
use agentest.Oauth.{
  Clock, Provider, Db, AuthorizationCode, AccessToken, CodeRequest, RefreshRequest,
  issue_authorization_code, exchange_code, refresh_access_token, revoke_token, introspect_token,
  client_agrees,
}
use agentest.Oauth.Exchange.{exchange_code-Granted, exchange_code_state}
use agentest.Oauth.Changes.{Changes, done, append, IsUsed, IsRevoked, WellLinked}
use agentest.Oauth.Kept.{Changes-IsUsed, Changes-IsRevoked, Changes-WellLinked}
use agentest.Oauth.Methods.{
  issue_authorization_code-Changes, exchange_code-Changes, refresh_access_token-Changes,
  revoke_token-Changes,
}

-- A call of each method that writes, with its arguments, the clock and the random tokens it reads.
pub data Call : Type 0 where
  authorizes : ℕ → AuthorizationCode → ℕ → Call
  exchanges : CodeRequest → Clock → ℕ → ℕ → Call
  refreshes : RefreshRequest → Clock → ℕ → Call
  revokes : ℕ → Option ℕ → ℕ → Call

module _ (p : Provider) where
  open p use {codes as C, accesses as T, hash_token}

  unfoldable pub run_call : Call → Db p → Db p
  run_call (authorizes code params stamp) s = (issue_authorization_code p code params stamp s).1
  run_call (exchanges input clock refresh access) s =
      (exchange_code p input clock refresh access s).1
  run_call (refreshes input clock access) s = (refresh_access_token p input clock access s).1
  run_call (revokes token client now) s = (revoke_token p token client now s).1

  unfoldable pub run_calls : List Call → Db p → Db p
  run_calls [] s = s
  run_calls (x ∷ xs) s = run_calls xs (run_call x s)

  run_call-Changes : (x : Call) (s : Db p) → Changes p s (run_call x s)
  unfolding run_call
  run_call-Changes (authorizes code params stamp) s =
      issue_authorization_code-Changes p code params stamp s
  run_call-Changes (exchanges input clock refresh access) s =
      exchange_code-Changes p input clock refresh access s
  run_call-Changes (refreshes input clock access) s =
      refresh_access_token-Changes p input clock access s
  run_call-Changes (revokes token client now) s = revoke_token-Changes p token client now s

  run_calls-Changes : (xs : List Call) (s : Db p) → Changes p s (run_calls xs s)
  unfolding run_calls
  run_calls-Changes [] s = done
  run_calls-Changes (x ∷ xs) s =
      append p (run_call-Changes x s) (run_calls-Changes xs (run_call x s))

  -- If every access token, from a code exchange or from a refresh, names a stored refresh token
  -- of the same user, client and audience that has all its scopes, then this is so after any
  -- calls of the methods that write.
  pub run_calls-WellLinked :
      (xs : List Call) (s : Db p) → WellLinked p s → WellLinked p (run_calls xs s)
  run_calls-WellLinked xs s w = Changes-WellLinked p (run_calls-Changes xs s) w

  exchange_code-IsUsed :
      (input : CodeRequest) (clock : Clock) (refresh access : ℕ) (s : Db p)
      → is_ok (exchange_code p input clock refresh access s).0 ≡ true
      → IsUsed p (exchange_code p input clock refresh access s).1 input.code
  exchange_code-IsUsed input clock refresh access s good =
      let g = exchange_code-Granted p input clock refresh access s good in
      rw (exchange_code_state p input clock refresh access s g.stored good) (record {
        code = record g.code { used_at = some clock.marked };
        stored = ground (
          arith,
          C.find-write s.codes input.code input.code
              (record g.code { used_at = some clock.marked }),
        );
        used = refl;
      })

  IsUsed-refused :
      (input : CodeRequest) (clock : Clock) (refresh access : ℕ) (s : Db p)
      → IsUsed p s input.code
      → is_ok (exchange_code p input clock refresh access s).0 ≡ false
  unfolding exchange_code
  IsUsed-refused input clock refresh access s u = ground (arith, u.stored, u.used)

  -- After an authorization code was exchanged and after any further calls of the methods that
  -- write, no exchange of the same code succeeds, at any time and for any client.
  pub exchange_code-once :
      (input again : CodeRequest) (clock later : Clock) (refresh access refresh' access' : ℕ)
      (s : Db p) (xs : List Call)
      → is_ok (exchange_code p input clock refresh access s).0 ≡ true
      → again.code ≡ input.code
      → is_ok
          (exchange_code p again later refresh' access'
            (run_calls xs (exchange_code p input clock refresh access s).1)).0
        ≡ false
  exchange_code-once input again clock later refresh access refresh' access' s xs good same =
      let t = (exchange_code p input clock refresh access s).1 in
      let used = exchange_code-IsUsed input clock refresh access s good in
      IsUsed-refused again later refresh' access' (run_calls xs t)
        (rw (same) (Changes-IsUsed p (run_calls-Changes xs t) used))

  revoke_token-IsRevoked :
      (token : ℕ) (client : Option ℕ) (now : ℕ) (s : Db p) {t : AccessToken}
      → T.find s.accesses (hash_token token) ≡ some t
      → client_agrees p client t.client_id ≡ true
      → IsRevoked p (revoke_token p token client now s).1 (hash_token token)
  unfolding revoke_token
  revoke_token-IsRevoked token client now s {t} e agrees = record {
    token = record t { revoked_at = some now };
    stored = ground (
      arith,
      e,
      agrees,
      T.find-write s.accesses (hash_token token) (hash_token token)
          (record t { revoked_at = some now }),
    );
    revoked = refl;
  }

  IsRevoked-inactive :
      (token at : ℕ) (s : Db p)
      → IsRevoked p s (hash_token token)
      → introspect_token p token at s ≡ (ok none, s)
  unfolding introspect_token
  IsRevoked-inactive token at s u = ground (arith, u.stored, u.revoked)

  -- Once an access token was revoked for its client, or without naming a client, and after any
  -- further calls, introspection answers that it is not active, at any time.
  pub revoke_token-final :
      (token : ℕ) (client : Option ℕ) (now at : ℕ) (s : Db p) (t : AccessToken) (xs : List Call)
      → T.find s.accesses (hash_token token) ≡ some t
      → client_agrees p client t.client_id ≡ true
      → let u = run_calls xs (revoke_token p token client now s).1 in
        introspect_token p token at u ≡ (ok none, u)
  revoke_token-final token client now at s t xs e agrees =
      let u = (revoke_token p token client now s).1 in
      IsRevoked-inactive token at (run_calls xs u) (
        Changes-IsRevoked p (run_calls-Changes xs u)
          (revoke_token-IsRevoked token client now s e agrees))
