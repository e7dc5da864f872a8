-- ===== src/Organization/Methods.antt =====
-- The methods of the organization service as sequences of changes of the tables.
use agentest.Shared.{
  ℕ, ◌≡◌, refl, sym, subst, inl, inr, false, ◌&&◌, Option, none, some, arith, ◌==◌, is_some,
  Bool-cases, Option-cases, is_ok, ◌>>=◌, update,
}
use agentest.Access.{org_owner, org_admin}
use agentest.Organization.{
  Organization, Invitation, Client, Db, GrantableRole, as_admin, as_member, granted, is_org_owner,
  orgs, set_orgs, find_by_id, new_organization, create_organization, invite, accept_invitation,
  decline_invitation, cancel_invitation, update_member_role, remove_member, restore,
  transfer_ownership, new_invitation, is_open,
}
use agentest.Organization.Changes.{
  found, edit, enroll, regrade, leave, transfer, post, answer, withdraw, Changes, done, next, lands,
  WellOwned,
}

-- The row that a token finds stands under its own id.
pub stored_of_token :
    (c : Client) (token : ℕ) (s : Db c)
    → WellOwned c s
    → (i : Invitation) → c.invitations.find_first s.invitations (λ v. v.token == token) ≡ some i
    → c.invitations.find s.invitations i.id ≡ some i
stored_of_token c token s w i e =
    let (on, k, f) = c.invitations.find_first-some s.invitations (λ v. v.token == token) i e in
    subst (λ id. c.invitations.find s.invitations id ≡ some i) (sym (w.keyed k i f)) f

module _ (c : Client) where
  open c use {organizations as O, members as M, invitations as I}

  pub edit-Changes :
      (id : ℕ) (f : Organization → Organization) (s : Db c)
      → Changes c s ((find_by_id c id >>= λ _. update O (orgs c) (set_orgs c) id f) s).1
  unfolding find_by_id
  edit-Changes id f s = elim (Option-cases (O.find s.organizations id)) [
    | inl e ↦ rw (e, find_by_id) done
    | inr (o, e) ↦ elim (Bool-cases (is_some o.deleted_at)) [
      | inl gone ↦ lands c done (ground (arith, e, gone))
      | inr live ↦ lands c (next done (edit id o (f o) e)) (ground (arith, e, live))
    ]
  ]

  grant-ne-owner : (r : GrantableRole) → is_org_owner (granted r) ≡ false
  grant-ne-owner as_admin = refl
  grant-ne-owner as_member = refl

  pub remove_member-Changes : (org user : ℕ) (s : Db c) → Changes c s (remove_member c org user s).1
  unfolding remove_member
  remove_member-Changes org user s = elim (Option-cases (M.find s.members (org, user))) [
    | inl e ↦ rw (e, remove_member) done
    | inr (m, e) ↦ elim (Bool-cases (is_org_owner m.role)) [
      | inl own ↦ rw (e, own, remove_member) done
      | inr low ↦ lands c (next done (leave org user m e low)) (ground (arith, e, low))
    ]
  ]

  pub update_member_role-Changes :
      (org user : ℕ) (role : GrantableRole) (s : Db c)
      → Changes c s (update_member_role c org user role s).1
  unfolding update_member_role
  update_member_role-Changes org user role s = elim (Option-cases (M.find s.members (org, user))) [
    | inl e ↦ rw (e, update_member_role) done
    | inr (m, e) ↦ elim (Bool-cases (is_org_owner m.role)) [
      | inl own ↦ rw (e, own, update_member_role) done
      | inr low ↦
          lands c
            (next done
              (regrade org user m (record m { role = granted role }) e low (grant-ne-owner role)))
            (ground (arith, e, low))
    ]
  ]

  pub cancel_invitation-Changes :
      (org id : ℕ) (s : Db c) → Changes c s (cancel_invitation c org id s).1
  unfolding cancel_invitation
  cancel_invitation-Changes org id s = elim (Option-cases (I.find s.invitations id)) [
    | inl e ↦ rw (e, cancel_invitation) done
    | inr (i, e) ↦ elim (Bool-cases (i.organization_id == org && is_open i)) [
      | inl good ↦
          lands c (next done (withdraw id i e (ground (arith, good)))) (ground (arith, e, good))
      | inr bad ↦ lands c done (ground (arith, e, bad))
    ]
  ]

  pub restore-Changes : (id now stamp : ℕ) (s : Db c) → Changes c s (restore c id now stamp s).1
  unfolding restore
  restore-Changes id now stamp s = elim (Option-cases (O.find s.organizations id)) [
    | inl e ↦ rw (e, restore) done
    | inr (o, e) ↦ elim (Bool-cases (is_ok (restore c id now stamp s).0)) [
      | inl good ↦
          lands c (next done (edit id o (record o { deleted_at = none; updated_at = stamp }) e))
            (ground (arith, e, good))
      | inr bad ↦ lands c done (ground (arith, e, bad))
    ]
  ]

  pub create_organization-Changes :
      (user name : ℕ) (description : Option ℕ) (fresh stamp : ℕ) (s : Db c)
      → Changes c s (create_organization c user name description fresh stamp s).1
  unfolding create_organization
  create_organization-Changes user name description fresh stamp s =
      elim (Bool-cases (is_ok (create_organization c user name description fresh stamp s).0)) [
        | inl good ↦
            lands c
              (next done (
                found fresh user (new_organization c name description stamp)
                  (record { organization_id = fresh; user_id = user; role = org_owner })
                  (ground (arith, good)) (ground (arith, good)) refl))
              (ground (arith, good))
        | inr bad ↦ lands c done (ground (arith, bad))
      ]

  pub transfer_ownership-Changes :
      (org a b : ℕ) (s : Db c) → Changes c s (transfer_ownership c org a b s).1
  unfolding transfer_ownership
  transfer_ownership-Changes org a b s = elim (Option-cases (M.find s.members (org, a))) [
    | inl e ↦ lands c done (ground (arith, e))
    | inr (m, e) ↦ elim (Option-cases (M.find s.members (org, b))) [
      | inl f ↦ lands c done (ground (arith, e, f))
      | inr (n, f) ↦ elim (Bool-cases (is_ok (transfer_ownership c org a b s).0)) [
        | inl good ↦
            lands c
              (next done (
                transfer org a b m n (record m { role = org_admin }) (record n { role = org_owner })
                  (ground (arith, good, e, f)) e (ground (arith, good, e, f)) f refl refl))
              (ground (
                arith,
                e,
                f,
                good,
                M.find-write s.members (org, a) (org, b) (record m { role = org_admin }),
              ))
        | inr bad ↦ lands c done (
            ground (
              arith,
              e,
              f,
              bad,
              M.find-write s.members (org, a) (org, b) (record m { role = org_admin }),
            ))
      ]
    ]
  ]

  pub invite-Changes :
      (org inviter email : ℕ) (role : GrantableRole) (now stamp token fresh : ℕ) (s : Db c)
      → Changes c s (invite c org inviter email role now stamp token fresh s).1
  unfolding invite
  invite-Changes org inviter email role now stamp token fresh s =
      elim (Bool-cases (is_ok (invite c org inviter email role now stamp token fresh s).0)) [
        | inl good ↦
            lands c
              (next done (
                post (new_invitation c org inviter email role stamp token fresh)
                  (ground (arith, good)) (ground (arith, good)) (ground (arith, good))
                  (grant-ne-owner role) refl))
              (ground (arith, good))
        | inr bad ↦ lands c done (ground (arith, bad))
      ]

  pub decline_invitation-Changes :
      (token user now stamp : ℕ) (s : Db c)
      → WellOwned c s
      → Changes c s (decline_invitation c token user now stamp s).1
  unfolding decline_invitation
  decline_invitation-Changes token user now stamp s w =
      elim (Option-cases (I.find_first s.invitations (λ i. i.token == token))) [
        | inl e ↦ lands c done (ground (arith, e))
        | inr (i, e) ↦ elim (Bool-cases (is_ok (decline_invitation c token user now stamp s).0)) [
          | inr bad ↦ lands c done (ground (arith, e, bad, stored_of_token c token s w i e))
          | inl good ↦
              let f = stored_of_token c token s w i e in
              lands c
                (next done (
                  answer i i.accepted_at (some stamp) f (ground (arith, e, good))
                    (ground (arith, e, good))))
                (ground (arith, e, f, good))
        ]
      ]

  pub accept_invitation-Changes :
      (token user now stamp : ℕ) (s : Db c)
      → WellOwned c s
      → Changes c s (accept_invitation c token user now stamp s).1
  unfolding accept_invitation
  accept_invitation-Changes token user now stamp s w =
      elim (Option-cases (I.find_first s.invitations (λ i. i.token == token))) [
        | inl e ↦ lands c done (ground (arith, e))
        | inr (i, e) ↦ elim (Bool-cases (is_ok (accept_invitation c token user now stamp s).0)) [
          | inr bad ↦ lands c done (ground (arith, e, bad))
          | inl good ↦
              let f = stored_of_token c token s w i e in
              let (low, exists) = w.invited i.id i f in
              lands c
                (next
                  (next done (
                    answer i (some stamp) i.declined_at f (ground (arith, e, good))
                      (ground (arith, e, good))))
                  (enroll i.organization_id user
                    (record { organization_id = i.organization_id; user_id = user; role = i.role })
                    exists (ground (arith, e, f, good)) low))
                (ground (arith, e, f, good))
        ]
      ]
