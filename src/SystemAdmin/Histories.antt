-- ===== src/SystemAdmin/Histories.antt =====
-- Histories of calls, and the active super administrators.
use agentest.Shared.{ℕ, ◌<◌, Option, List, [], ◌∷◌, arith}
use agentest.SystemAdmin.{
  AdminRole, Client, Db, invite_admin_user, accept_invitation, update_admin_user, delete_admin_user,
  unlock_admin_user, reset_2fa,
}
use agentest.SystemAdmin.Kept.{Led, WellKept-later}
use agentest.SystemAdmin.Methods.{Good, update_admin_user-Good, delete_admin_user-Good, edit-Good}
use agentest.SystemAdmin.Admission.{invite_admin_user-Good, accept_invitation-Good}

-- A call of each method that writes.
pub data Call : Type 0 where
  invites : (email name : ℕ) → AdminRole → (current stamp token fresh : ℕ) → Call
  accepts : (token password stamp fresh : ℕ) → Call
  updates : ℕ → Option ℕ → Option AdminRole → ℕ → Call
  deletes : (id current : ℕ) → Call
  unlocks : (id current : ℕ) → Call
  resets : (id current : ℕ) → Call

-- A call and its time.
pub record Timed : Type 0 where
  pub now : ℕ
  pub call : Call

-- The calls come one after the other, each later than the one before.
abbrev pub Later : ℕ → List Timed → Type 0
Later last [] = Unit
Later last (x ∷ xs) = (last < x.now) × Later x.now xs

module _ (c : Client) where
  abbrev pub run_call : ℕ → Call → Db c → Db c
  run_call now (invites email name role current stamp token fresh) s =
      (invite_admin_user c email name role current now stamp token fresh s).1
  run_call now (accepts token password stamp fresh) s =
      (accept_invitation c token password now stamp fresh s).1
  run_call now (updates id name role current) s = (update_admin_user c id name role current s).1
  run_call now (deletes id current) s = (delete_admin_user c id current now s).1
  run_call now (unlocks id current) s = (unlock_admin_user c id current s).1
  run_call now (resets id current) s = (reset_2fa c id current s).1

  abbrev pub run_calls : List Timed → Db c → Db c
  run_calls [] s = s
  run_calls (x ∷ xs) s = run_calls xs (run_call x.now x.call s)

  run_call-Good :
      (last now : ℕ) (call : Call) (s : Db c)
      → last < now
      → Good c last s
      → Good c now (run_call now call s)
  run_call-Good last now (invites email name role current stamp token fresh) s lt w =
      invite_admin_user-Good c last email name role current now stamp token fresh s
        (omega (arith, lt)) w
  run_call-Good last now (accepts token password stamp fresh) s lt w =
      accept_invitation-Good c last token password now stamp fresh s lt w
  run_call-Good last now (updates id name role current) s lt w =
      update_admin_user-Good c now id name role current s
        (WellKept-later c last now s.users s.invitations (omega (arith, lt)) w)
  run_call-Good last now (deletes id current) s lt w =
      delete_admin_user-Good c now id current now s
        (WellKept-later c last now s.users s.invitations (omega (arith, lt)) w)
  run_call-Good last now (unlocks id current) s lt w =
      (edit-Good c now id current s
        (WellKept-later c last now s.users s.invitations (omega (arith, lt)) w)).0
  run_call-Good last now (resets id current) s lt w =
      (edit-Good c now id current s
        (WellKept-later c last now s.users s.invitations (omega (arith, lt)) w)).1

  -- From tables in which some administrator is an active super administrator, rows stand under
  -- their ids, emails are unique, and no invitation that can still be accepted is for the email
  -- of an active administrator or of another such invitation, whatever invitations,
  -- acceptances, updates, deletions, unlockings and resets are called, each later than the one
  -- before, there is an active super administrator afterwards.
  pub run_calls-Led :
      (last : ℕ) (calls : List Timed) (s : Db c)
      → Good c last s
      → Later last calls
      → Led c (run_calls calls s).users
  run_calls-Led last [] s w l = w.led
  run_calls-Led last (x ∷ xs) s w (lt, l) =
      run_calls-Led x.now xs (run_call x.now x.call s) (run_call-Good last x.now x.call s lt w) l
