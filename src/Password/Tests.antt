-- ===== src/Password/Tests.antt =====
-- A user whose account is locked resets the password and logs in, on tables in memory.
use agentest.Shared.{
  is_id, ℕ, ◌+◌, ◌≡◌, refl, true, false, none, some, [], ◌∷◌, arith, ◌==◌, ok, err, id_rows,
  bad_request, reset_token_used, base, email_not_verified, authentication, account_locked, ==_self,
  ==_iff,
}
use agentest.Password.{Auth, Db, User, MailToken, Login, logged_in, login}
use agentest.Password.Reset.{verify_email, reset_password, change_password, request_password_reset}
use agentest.Password.Kept.{WellKept}
use agentest.Password.Lockout.{Attempt, try_all, Stands, login-locked}
use agentest.Password.Recovery.{
  Expelled, reset_password-once, reset_password-Expelled, change_password-Expelled,
}
use agentest.Password.Request.{reset_password-request_password_reset}
use agentest.Password.Verification.{Ready, login-verify_email}
use agentest.Password.Entry.{Admitted, login-Admitted, login-reset_password}

-- A hash of this bcrypt is the password.
abbrev auth : Auth
unfolding id_rows
auth = record {
  users = id_rows User;
  resets = id_rows MailToken;
  verifications = id_rows MailToken;
  refresh_tokens = id_rows Login;
  sessions = id_rows Login;
  hash_password = λ p q. p;
  compare = λ p h. p == h;
  hash_token = λ t. t + 1000;
  require_email_verification = true;
}

abbrev alice : User
alice = record {
  id = 1;
  email = 7;
  name = 3;
  password_hash = some 11;
  failed_attempts = 0;
  locked_until = none;
  email_verified = true;
  totp_enabled = false;
  deleted_at = none;
}

abbrev start : Db auth
unfolding id_rows
start = record {
  users = record { keys = 1 ∷ []; cell = λ k. some alice };
  resets = record { keys = []; cell = λ k. none };
  verifications = record { keys = []; cell = λ k. none };
  refresh_tokens = record { keys = []; cell = λ k. none };
  sessions = record { keys = []; cell = λ k. none };
}

start-WellKept : WellKept auth start.users
unfolding id_rows
start-WellKept = record {
  keyed = λ k u h. ground (arith, ==_iff 1 k, h);
  emails = λ i j u v h k e. ground (arith, ==_iff 1 i, ==_iff 1 j, h, k);
}

start-Stands : Stands auth alice start
unfolding id_rows
start-Stands = record { kept = start-WellKept; stored = refl; live = refl }

abbrev guess : ℕ → Attempt
guess t = record { password = 12; now = t; stamp = t; token = 50; stored = true }

abbrev right_one : ℕ → Attempt
right_one t = record { password = 11; now = t; stamp = t; token = 50; stored = true }

abbrev guessed : Db auth
guessed =
    try_all auth 7 (guess 5 ∷ [])
      (try_all auth 7 (guess 1 ∷ guess 2 ∷ guess 3 ∷ guess 4 ∷ []) start)

login-locked_example :
    login auth 7 11 6 6 50 true guessed ≡ (err (authentication account_locked), guessed)
unfolding auth
login-locked_example =
    login-locked auth alice 11 (guess 1 ∷ guess 2 ∷ guess 3 ∷ guess 4 ∷ []) (guess 5) (right_one 6)
      start start-Stands refl refl (refl, (refl, (refl, (refl, tt)))) refl refl (ground arith)

login-Admitted_example : Admitted auth 7 11 6 start
unfolding login id_rows
login-Admitted_example = login-Admitted auth 7 11 6 6 50 true start start-WellKept refl

abbrev session : Login
session = record { user_id = 1; token_hash = 1050; expires_at = 604800006; revoked_at = none }

abbrev entered : Db auth
entered = (login auth 7 11 6 6 50 true start).1

change_password-Expelled_example :
    let t = (change_password auth 1 11 13 0 (some 1050) 9 entered).1 in
    Expelled auth 1 (some 1050) t
    × ((k : ℕ) (l : Login)
        → auth.sessions.find entered.sessions k ≡ some l
        → is_id (some 1050) l.token_hash ≡ true
        → auth.sessions.find t.sessions k ≡ some l)
unfolding login change_password id_rows
change_password-Expelled_example =
    change_password-Expelled auth 1 11 13 0 (some 1050) 9 entered refl

abbrev asked : Db auth
asked = (request_password_reset auth 7 8 8 60 entered).1

abbrev ticket : MailToken
ticket = record { user_id = 1; expires_at = 3600008; used_at = none }

reset_password-Expelled_example : Expelled auth 1 none (reset_password auth 60 13 0 9 9 asked).1
unfolding login request_password_reset reset_password id_rows
reset_password-Expelled_example = reset_password-Expelled auth 60 13 0 9 9 asked ticket refl refl

reset_password-once_example :
    let t = (reset_password auth 60 13 0 9 9 asked).1 in
    reset_password auth 60 14 0 10 10 t ≡ (err (bad_request reset_token_used), t)
unfolding login request_password_reset reset_password id_rows
reset_password-once_example = reset_password-once auth 60 13 0 9 9 14 0 10 10 asked refl

login-reset_password_example :
    (login auth 7 13 10 10 51 true
      (reset_password auth 60 13 0 9 9 (request_password_reset auth 7 8 8 60 start).1).1).0
    ≡ ok (logged_in 51)
unfolding request_password_reset reset_password id_rows
login-reset_password_example =
    login-reset_password auth alice ticket 60 13 0 9 9 10 10 51 true
      (request_password_reset auth 7 8 8 60 start).1
      (record { kept = start-WellKept; stored = refl; live = refl }) refl refl (λ p q. ==_self p)
      refl refl refl (ground arith) refl refl

reset_password-request_password_reset_example :
    let v = (request_password_reset auth 7 9 9 61 asked).1 in
    reset_password auth 60 13 0 10 10 v ≡ (err (bad_request reset_token_used), v)
unfolding login request_password_reset id_rows
reset_password-request_password_reset_example =
    reset_password-request_password_reset auth 7 9 9 61 60 13 0 10 10 asked alice 11 ticket refl
      refl refl refl refl

abbrev bob : User
bob = record alice { email_verified = false }

abbrev joining : Db auth
unfolding id_rows
joining = record start {
  users = record { keys = 1 ∷ []; cell = λ k. some bob };
  verifications = record {
    keys = 1070 ∷ [];
    cell = λ k. some (record { user_id = 1; expires_at = 90; used_at = none });
  };
}

joining-Stands : Stands auth bob joining
unfolding id_rows
joining-Stands = record {
  kept = record {
    keyed = λ k u h. ground (arith, ==_iff 1 k, h);
    emails = λ i j u v h k e. ground (arith, ==_iff 1 i, ==_iff 1 j, h, k);
  };
  stored = refl;
  live = refl;
}

bob-Ready : Ready auth bob 11
unfolding auth
bob-Ready = record { hash = 11; hashed = refl; right = refl; free = refl; plain = refl }

login-verify_email_example :
    (login auth 7 11 10 10 51 true joining ≡ (err (base 401 email_not_verified), joining))
    × ((login auth 7 11 10 10 51 true (verify_email auth 70 9 9 joining).1).0 ≡ ok (logged_in 51))
unfolding id_rows
login-verify_email_example =
    login-verify_email auth bob (record { user_id = 1; expires_at = 90; used_at = none }) 70 11 9 9
      10 10 51 true joining joining-Stands bob-Ready refl refl refl refl (ground arith) refl refl
