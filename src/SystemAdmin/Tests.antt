-- ===== src/SystemAdmin/Tests.antt =====
-- A super administrator, a second one who is invited, and who deletes the first, on tables in memory.
use agentest.Shared.{
  ℕ, ◌+◌, ◌≡◌, refl, true, false, none, some, List, [], ◌∷◌, arith, is_ok, err, business,
  last_super_admin_deletion, id_rows, id_counts,
}
use agentest.SystemAdmin.{
  AdminRole, AdminUser, AdminInvitation, AdminSession, Client, Db, delete_admin_user,
}
use agentest.SystemAdmin.Kept.{Led}
use agentest.SystemAdmin.Methods.{Good}
use agentest.SystemAdmin.Histories.{
  invites, accepts, updates, deletes, unlocks, Timed, run_calls, run_calls-Led,
}
use agentest.SystemAdmin.Effects.{Gone, delete_admin_user_effect, delete_admin_user-refused}

abbrev client : Client
unfolding id_rows id_counts
client = record {
  users = id_rows AdminUser;
  counts = id_counts;
  invitations = id_rows AdminInvitation;
  sessions = id_rows AdminSession;
  hash = λ p. p + 1000;
  plus_hours = λ t h. t + h;
}

abbrev person : ℕ → AdminRole → AdminUser
person k role = record {
  id = k;
  email = 100 + k;
  password_hash = 9;
  name = 200 + k;
  role = role;
  totp_secret = none;
  totp_enabled = false;
  failed_attempts = 0;
  locked_until = none;
  deleted_at = none;
}

abbrev alone : Db client
unfolding id_rows id_counts
alone = record {
  users = record { keys = 1 ∷ []; cell = λ k. some (person 1 AdminRole.super_admin) };
  invitations = record { keys = []; cell = λ k. none };
  sessions = record { keys = []; cell = λ k. none };
  audit = [];
}

alone-Good : Good client 0 alone
unfolding id_rows id_counts
alone-Good = record {
  led = record { key = 1; user = person 1 AdminRole.super_admin; stored = refl; leads = refl };
  user_id = λ k u e. ground (arith, e);
  invitation_id = λ k i e. absurd (cc e);
  emails = λ j k u v e f same. ground (arith, e, f);
  closed = λ j k i u e o f same. absurd (cc e);
  single = λ j k i q e f o p same. absurd (cc e);
}

-- User 2 is invited and comes, is unlocked, takes the role of user 1, and is not deleted by 1.
abbrev calls : List Timed
calls =
    record { now = 10; call = invites 102 202 AdminRole.super_admin 1 10 77 5 }
    ∷ record { now = 20; call = accepts 77 3 20 2 }
    ∷ record { now = 21; call = unlocks 2 1 }
    ∷ record { now = 22; call = updates 1 none (some AdminRole.viewer) 2 }
    ∷ record { now = 23; call = deletes 2 1 }
    ∷ []

run_calls-Led_example : Led client (run_calls client calls alone).users
run_calls-Led_example =
    run_calls-Led client 0 calls alone alone-Good
      (omega arith, (omega arith, (omega arith, (omega arith, (omega arith, tt)))))

-- Two super administrators, with a session of each.
abbrev two : Db client
unfolding id_rows id_counts
two = record {
  users = record { keys = 1 ∷ 2 ∷ []; cell = λ k. some (person k AdminRole.super_admin) };
  invitations = record { keys = []; cell = λ k. none };
  sessions = record {
    keys = 1 ∷ 2 ∷ [];
    cell = λ k. some (record { id = k; admin_user_id = k; expires_at = 50; revoked_at = none });
  };
  audit = [];
}

delete_admin_user_effect_example :
    let (r, s') = delete_admin_user client 2 1 30 two in (is_ok r ≡ true) × Gone client two s' 2
unfolding id_rows id_counts
delete_admin_user_effect_example =
    delete_admin_user_effect client 2 1 30 (person 2 AdminRole.super_admin) two
      (λ e. absurd (omega (arith, e))) refl refl
      (λ h. (
        record { key = 1; user = person 1 AdminRole.super_admin; stored = refl; leads = refl },
        λ e. absurd (omega (arith, e)),
      ))

-- A viewer who tries to delete the only super administrator.
delete_admin_user-refused_example :
    delete_admin_user client 1 7 30 alone ≡ (err (business last_super_admin_deletion), alone)
unfolding id_rows id_counts
delete_admin_user-refused_example =
    delete_admin_user-refused client 1 7 30 (person 1 AdminRole.super_admin) alone
      (λ e. absurd (omega (arith, e))) refl refl (λ h. ground (arith, h.stored))
