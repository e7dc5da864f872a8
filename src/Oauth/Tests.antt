-- ===== src/Oauth/Tests.antt =====
-- A code is issued, exchanged, refreshed and revoked, on tables in memory.
use agentest.Shared.{
  ℕ, ◌+◌, ◌≡◌, refl, false, none, some, List, [], ◌∷◌, arith, is_ok, ok, err, id_rows, oauth_error,
  refresh_revoked, code_already_used,
}
use agentest.Oauth.{
  AuthorizationCode, RefreshToken, AccessToken, CodeRequest, RefreshRequest, Clock, Provider, Db,
  s256, issue_authorization_code, exchange_code, refresh_access_token, introspect_token,
  revoke_token, validate_access_token,
}
use agentest.Oauth.Exchange.{
  Granted, exchange_code-Granted, introspect_token-exchange_code, exchange_code-replay,
  issued_access, issued_refresh, usable,
}
use agentest.Oauth.Refresh.{
  Refreshed, refresh_access_token-Refreshed, revoke_token-introspect_token,
  refresh_access_token-revoke_token,
}
use agentest.Oauth.Audience.{validate_access_token-exchange_code}
use agentest.Oauth.Changes.{WellLinked}
use agentest.Oauth.Histories.{
  Call, authorizes, exchanges, refreshes, revokes, run_call, run_calls, run_calls-WellLinked,
  exchange_code-once, revoke_token-final,
}

abbrev provider : Provider
unfolding id_rows
provider = record {
  codes = id_rows AuthorizationCode;
  refreshes = id_rows RefreshToken;
  accesses = id_rows AccessToken;
  hash_token = λ t. t + 1000;
  compute_code_challenge = λ v. v ∷ (v + 1) ∷ [];
}

abbrev nothing : Db provider
unfolding id_rows
nothing = record {
  codes = record { keys = []; cell = λ k. none };
  refreshes = record { keys = []; cell = λ k. none };
  accesses = record { keys = []; cell = λ k. none };
}

abbrev code_for : List ℕ → AuthorizationCode
code_for challenge = record {
  client_id = 10;
  user_id = 1;
  redirect_uri = 3;
  scopes = 0 ∷ 1 ∷ [];
  code_challenge = challenge;
  code_challenge_method = s256;
  resource = 8;
  expires_at = 0;
  used_at = none;
}

abbrev request : CodeRequest
request = record {
  code = 500;
  client_id = 10;
  redirect_uri = 3;
  code_verifier = 42;
  resource = none;
}

abbrev renewal : RefreshRequest
renewal = record { refresh_token = 70; client_id = 10; scope = some (1 ∷ []) }

abbrev issued : Db provider
issued = run_calls provider (authorizes 500 (code_for (42 ∷ 43 ∷ [])) 5 ∷ []) nothing

-- A clock that moves on between the readings.
abbrev times : ℕ → Clock
times t = record {
  checked = t;
  accesses_revoked = t + 1;
  refreshes_revoked = t + 2;
  marked = t + 1;
  refresh_issued = t + 2;
  access_issued = t + 3;
  created = t + 4;
}

abbrev exchanged : Db provider
exchanged = (exchange_code provider request (times 7) 70 80 issued).1

abbrev afterwards : List Call
afterwards = refreshes renewal (times 9) 81 ∷ revokes 81 none 10 ∷ []

nothing-WellLinked : WellLinked provider nothing
unfolding id_rows
nothing-WellLinked k t h = absurd (cc h)

abbrev history : List Call
history =
    authorizes 500 (code_for (42 ∷ 43 ∷ [])) 5
    ∷ exchanges request (times 7) 70 80
    ∷ refreshes renewal (times 9) 81
    ∷ revokes 81 none 10
    ∷ []

run_calls-WellLinked_example : WellLinked provider (run_calls provider history nothing)
run_calls-WellLinked_example = run_calls-WellLinked provider history nothing nothing-WellLinked

exchange_code-once_example :
    is_ok
      (exchange_code provider request (times 20) 90 91 (run_calls provider afterwards exchanged)).0
    ≡ false
unfolding run_calls run_call issue_authorization_code exchange_code refresh_access_token
    revoke_token introspect_token id_rows
exchange_code-once_example =
    exchange_code-once provider request request (times 7) (times 20) 70 80 90 91 issued afterwards
      refl refl

revoke_token-final_example :
    let u = run_calls provider afterwards (revoke_token provider 80 (some 10) 8 exchanged).1 in
    introspect_token provider 80 30 u ≡ (ok none, u)
unfolding run_calls run_call issue_authorization_code exchange_code refresh_access_token
    revoke_token introspect_token id_rows
revoke_token-final_example =
    revoke_token-final provider 80 (some 10) 8 30 exchanged
      (issued_access provider (code_for (42 ∷ 43 ∷ [])) (times 7) 70) afterwards refl refl

exchange_code-Granted_example : Granted provider request 7 issued
unfolding run_calls run_call issue_authorization_code exchange_code refresh_access_token
    revoke_token introspect_token id_rows
exchange_code-Granted_example = exchange_code-Granted provider request (times 7) 70 80 issued refl

introspect_token-exchange_code_example :
    (c : AuthorizationCode) × (provider.codes.find issued.codes 500 ≡ some c)
    × ((introspect_token provider 80 9 exchanged).0
        ≡ ok (usable provider (issued_access provider c (times 7) 70) 9))
unfolding run_calls run_call issue_authorization_code exchange_code refresh_access_token
    revoke_token introspect_token id_rows
introspect_token-exchange_code_example =
    introspect_token-exchange_code provider request (times 7) 70 80 9 issued refl

exchange_code-replay_example :
    let u = exchange_code provider request (times 8) 90 91 exchanged in
    (u.0 ≡ err (oauth_error code_already_used))
    × ((introspect_token provider 80 19 u.1).0 ≡ ok none)
unfolding run_calls run_call issue_authorization_code exchange_code refresh_access_token
    revoke_token introspect_token id_rows
exchange_code-replay_example =
    exchange_code-replay provider request request (times 7) (times 8) 70 80 90 91 19 issued
      (record (code_for (42 ∷ 43 ∷ [])) { expires_at = 600005 }) refl refl refl (ground arith)

refresh_access_token-Refreshed_example : Refreshed provider renewal (times 9) 81 exchanged
unfolding run_calls run_call issue_authorization_code exchange_code refresh_access_token
    revoke_token introspect_token id_rows
refresh_access_token-Refreshed_example =
    refresh_access_token-Refreshed provider renewal (times 9) 81 exchanged refl

revoke_token-introspect_token_example :
    (introspect_token provider 80 9 (revoke_token provider 80 (some 11) 8 exchanged).1).0
    ≡ (introspect_token provider 80 9 exchanged).0
unfolding run_calls run_call issue_authorization_code exchange_code refresh_access_token
    revoke_token introspect_token id_rows
revoke_token-introspect_token_example =
    revoke_token-introspect_token provider 80 (some 11) 8 9 exchanged
      (issued_access provider (code_for (42 ∷ 43 ∷ [])) (times 7) 70) refl

refresh_access_token-revoke_token_example :
    let t = (revoke_token provider 70 (some 10) 8 exchanged).1 in
    refresh_access_token provider renewal (times 9) 81 t ≡ (err (oauth_error refresh_revoked), t)
unfolding run_calls run_call issue_authorization_code exchange_code refresh_access_token
    revoke_token introspect_token id_rows
refresh_access_token-revoke_token_example =
    refresh_access_token-revoke_token provider 70 (some 10) 8 exchanged
      (issued_refresh provider (code_for (42 ∷ 43 ∷ [])) (times 7)) renewal (times 9) 81 refl refl
      refl refl (ground arith)

validate_access_token-exchange_code_example :
    ((validate_access_token provider 80 (some 8) 9 exchanged).0 ≡ ok (some (1, 0 ∷ 1 ∷ [])))
    × ((validate_access_token provider 80 (some 9) 9 exchanged).0 ≡ ok none)
unfolding run_calls run_call issue_authorization_code exchange_code id_rows
validate_access_token-exchange_code_example =
    validate_access_token-exchange_code provider request (times 7) 70 80 9 9 issued
      (record (code_for (42 ∷ 43 ∷ [])) { expires_at = 600005 }) refl refl (ground arith)
      (ground arith)
