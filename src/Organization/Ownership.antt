-- ===== src/Organization/Ownership.antt =====
-- Histories of calls, and the owners of an organization.
use agentest.Shared.{ℕ, ◌≡◌, true, Option, some, List, [], ◌∷◌, is_some}
use agentest.Access.{org_owner}
use agentest.Organization.{
  Member, Client, Db, GrantableRole, create_organization, update_organization, soft_delete, invite,
  accept_invitation, decline_invitation, cancel_invitation, update_member_role, remove_member,
  restore, transfer_ownership,
}
use agentest.Organization.Changes.{Changes, WellOwned, Changes-WellOwned}
use agentest.Organization.Methods.{
  create_organization-Changes, edit-Changes, invite-Changes, accept_invitation-Changes,
  decline_invitation-Changes, cancel_invitation-Changes, update_member_role-Changes,
  remove_member-Changes, restore-Changes, transfer_ownership-Changes,
}

-- A call of each method that writes, with its arguments and what it reads from its surroundings.
pub data Call : Type 0 where
  creates : ℕ → ℕ → Option ℕ → ℕ → ℕ → Call
  updates : ℕ → Option ℕ → Option (Option ℕ) → ℕ → Call
  deletes : ℕ → ℕ → ℕ → Call
  invites : ℕ → ℕ → ℕ → GrantableRole → ℕ → ℕ → ℕ → ℕ → Call
  accepts : ℕ → ℕ → ℕ → ℕ → Call
  declines : ℕ → ℕ → ℕ → ℕ → Call
  cancels : ℕ → ℕ → Call
  regrades : ℕ → ℕ → GrantableRole → Call
  removes : ℕ → ℕ → Call
  restores : ℕ → ℕ → ℕ → Call
  transfers : ℕ → ℕ → ℕ → Call

module _ (c : Client) where
  unfoldable pub run_call : Call → Db c → Db c
  run_call (creates user name description fresh stamp) s =
      (create_organization c user name description fresh stamp s).1
  run_call (updates id name description stamp) s =
      (update_organization c id name description stamp s).1
  run_call (deletes id now stamp) s = (soft_delete c id now stamp s).1
  run_call (invites org inviter email role now stamp token fresh) s =
      (invite c org inviter email role now stamp token fresh s).1
  run_call (accepts token user now stamp) s = (accept_invitation c token user now stamp s).1
  run_call (declines token user now stamp) s = (decline_invitation c token user now stamp s).1
  run_call (cancels org id) s = (cancel_invitation c org id s).1
  run_call (regrades org user role) s = (update_member_role c org user role s).1
  run_call (removes org user) s = (remove_member c org user s).1
  run_call (restores id now stamp) s = (restore c id now stamp s).1
  run_call (transfers org current next_owner) s = (transfer_ownership c org current next_owner s).1

  unfoldable pub run_calls : List Call → Db c → Db c
  run_calls [] s = s
  run_calls (x ∷ xs) s = run_calls xs (run_call x s)

  pub run_call-Changes : (x : Call) (s : Db c) → WellOwned c s → Changes c s (run_call x s)
  unfolding run_call update_organization soft_delete
  run_call-Changes (creates user name description fresh stamp) s w =
      create_organization-Changes c user name description fresh stamp s
  run_call-Changes (updates id name description stamp) s w = edit-Changes c id _ s
  run_call-Changes (deletes id now stamp) s w = edit-Changes c id _ s
  run_call-Changes (invites org inviter email role now stamp token fresh) s w =
      invite-Changes c org inviter email role now stamp token fresh s
  run_call-Changes (accepts token user now stamp) s w =
      accept_invitation-Changes c token user now stamp s w
  run_call-Changes (declines token user now stamp) s w =
      decline_invitation-Changes c token user now stamp s w
  run_call-Changes (cancels org id) s w = cancel_invitation-Changes c org id s
  run_call-Changes (regrades org user role) s w = update_member_role-Changes c org user role s
  run_call-Changes (removes org user) s w = remove_member-Changes c org user s
  run_call-Changes (restores id now stamp) s w = restore-Changes c id now stamp s
  run_call-Changes (transfers org current next_owner) s w =
      transfer_ownership-Changes c org current next_owner s

  pub run_calls-WellOwned :
      (xs : List Call) (s : Db c) → WellOwned c s → WellOwned c (run_calls xs s)
  unfolding run_calls
  run_calls-WellOwned [] s w = w
  run_calls-WellOwned (x ∷ xs) s w =
      run_calls-WellOwned xs (run_call x s) (Changes-WellOwned c (run_call-Changes x s w) w)

  -- `user` has the owner's role in the organization.
  abbrev pub IsOwner : Db c → ℕ → ℕ → Type 0
  IsOwner s org user =
      (m : Member) × (c.members.find s.members (org, user) ≡ some m) × (m.role ≡ org_owner)

  -- From well-owned tables, after any calls of the methods that write, an organization that
  -- exists has a member with the role of owner, and no second one.
  pub run_calls-IsOwner :
      (xs : List Call) (s : Db c) (org : ℕ)
      → WellOwned c s
      → is_some (c.organizations.find (run_calls xs s).organizations org) ≡ true
      → (u : ℕ) × IsOwner (run_calls xs s) org u
        × ((v : ℕ) → IsOwner (run_calls xs s) org v → u ≡ v)
  run_calls-IsOwner xs s org w h =
      let w' = run_calls-WellOwned xs s w in
      let (u, m, e, o) = w'.owned org h in
      (u, (m, e, o), λ v own. w'.single org u v m own.0 e own.1 o own.2)
