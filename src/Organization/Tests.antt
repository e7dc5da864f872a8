-- ===== src/Organization/Tests.antt =====
-- An organization from its foundation to the transfer of its ownership, on tables in memory.
use agentest.Shared.{
  ℕ, ◌+◌, ◌≡◌, refl, true, false, none, some, List, [], ◌∷◌, arith, is_ok, err, id_rows, pair_rows,
  conflict, already_processed,
}
use agentest.Organization.{
  Organization, Member, Invitation, Client, Db, as_member, create_organization, invite,
  accept_invitation, decline_invitation, transfer_ownership, soft_delete, restore, find_by_id,
}
use agentest.Organization.Changes.{WellOwned}
use agentest.Organization.Ownership.{
  Call, creates, invites, accepts, removes, run_call, run_calls, run_calls-WellOwned,
  run_calls-IsOwner, IsOwner,
}
use agentest.Organization.Invitations.{accept_invitation-once}
use agentest.Organization.Effects.{Transferred, transfer_ownership_effect, restore-soft_delete}

-- User u has the email 100 + u.
abbrev client : Client
unfolding id_rows pair_rows
client = record {
  organizations = id_rows Organization;
  members = pair_rows Member;
  invitations = id_rows Invitation;
  email_of = λ u. some (100 + u);
  user_of_email = λ e. none;
  plus_days = λ t d. t + d;
}

abbrev nothing : Db client
unfolding id_rows pair_rows
nothing = record {
  organizations = record { keys = []; cell = λ k. none };
  members = record { keys = []; cell = λ k. none };
  invitations = record { keys = []; cell = λ k. none };
}

nothing-WellOwned : WellOwned client nothing
unfolding id_rows pair_rows
nothing-WellOwned = record {
  anchored = λ org user m h. cc;
  single = λ org u v m n h k p q. cc;
  owned = λ org h. absurd (cc h);
  invited = λ id v h. absurd (cc h);
  keyed = λ id v h. cc;
  tokens = λ i j v x h k e. cc;
  settled = λ id v h. cc;
}

abbrev founding : List Call
founding = creates 1 7 none 5 1 ∷ invites 5 1 102 as_member 10 10 77 30 ∷ []

abbrev joined : List Call
joined = creates 1 7 none 5 1 ∷ invites 5 1 102 as_member 10 10 77 30 ∷ accepts 77 2 20 20 ∷ []

run_calls-IsOwner_example :
    let s = run_calls client joined nothing in
    (u : ℕ) × IsOwner client s 5 u × ((v : ℕ) → IsOwner client s 5 v → u ≡ v)
unfolding run_calls run_call accept_invitation invite create_organization id_rows pair_rows
run_calls-IsOwner_example = run_calls-IsOwner client joined nothing 5 nothing-WellOwned refl

accept_invitation-once_example :
    let s = run_calls client founding nothing in
    let t = run_calls client (removes 5 2 ∷ []) (accept_invitation client 77 2 20 20 s).1 in
    (accept_invitation client 77 2 50 50 t ≡ (err (conflict already_processed), t))
    × (decline_invitation client 77 2 50 50 t ≡ (err (conflict already_processed), t))
unfolding run_calls run_call accept_invitation invite create_organization id_rows pair_rows
accept_invitation-once_example =
    accept_invitation-once client 77 2 20 20 (run_calls client founding nothing) (removes 5 2 ∷ [])
      2 50 50 (run_calls-WellOwned client founding nothing nothing-WellOwned) refl

transfer_ownership_effect_example :
    let s = run_calls client joined nothing in
    Transferred client 5 1 2 s (transfer_ownership client 5 1 2 s).1
unfolding transfer_ownership run_calls run_call accept_invitation invite create_organization id_rows
    pair_rows
transfer_ownership_effect_example =
    transfer_ownership_effect client 5 1 2 (run_calls client joined nothing) refl

restore-soft_delete_example :
    let s = run_calls client founding nothing in
    let t = (soft_delete client 5 40 41 s).1 in
    (o : Organization) × (client.organizations.find s.organizations 5 ≡ some o)
    × (o.deleted_at ≡ none)
    × (is_ok (find_by_id client 5 t).0 ≡ false)
    × (is_ok (restore client 5 60 61 t).0 ≡ true)
    × (client.organizations.find (restore client 5 60 61 t).1.organizations 5
        ≡ some (record o { updated_at = 61 }))
unfolding soft_delete run_calls run_call accept_invitation invite create_organization id_rows
    pair_rows
restore-soft_delete_example =
    restore-soft_delete client 5 40 41 60 61 (run_calls client founding nothing) refl (omega arith)
