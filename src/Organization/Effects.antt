-- ===== src/Organization/Effects.antt =====
-- What single methods of the organization service leave in the tables.
use agentest.Shared.{
  ℕ, refl, ◌≡◌, ◌≢◌, ◌≤◌, inl, inr, true, false, none, some, arith, is_ok, if◌then◌else◌, same_pair,
  Pair, Option-cases,
}
use agentest.Access.{OrganizationRole, org_owner, org_admin, member}
use agentest.Organization.{
  Organization, Member, Client, Db, is_org_owner, transfer_ownership, soft_delete, restore,
  grace_period_days, find_by_id,
}

abbrev pub with_role : OrganizationRole → Member → Member
with_role r m = record m { role = r }

is_org_owner-eq : (r : OrganizationRole) → is_org_owner r ≡ true → r ≡ org_owner
is_org_owner-eq org_owner h = refl
is_org_owner-eq org_admin h = cc
is_org_owner-eq member h = cc

module _ (c : Client) where
  open c use {organizations as O, members as M, invitations as I}

  -- In `s` the user `a` owned the organization and `b` was another member, and in `t` the two
  -- memberships have the roles ADMIN and OWNER and all other memberships are those of `s`.
  pub record Transferred (org a b : ℕ) (s t : Db c) : Type 0 where
    pub former : Member
    pub heir : Member
    pub former_stored : M.find s.members (org, a) ≡ some former
    pub former_owned : former.role ≡ org_owner
    pub heir_stored : M.find s.members (org, b) ≡ some heir
    pub apart : a ≢ b
    pub rows :
        (k : Pair)
        → M.find t.members k ≡ (
            if same_pair (org, b) k
            then some (with_role org_owner heir)
            else if same_pair (org, a) k
            then some (with_role org_admin former)
            else M.find s.members k)

  -- A transfer succeeds only if the previous owner has the role OWNER and the new one is
  -- another member of the organization, and then the previous owner has the role ADMIN, the new
  -- one the role OWNER, and every other membership, of this and of other organizations, is as
  -- it was.
  pub transfer_ownership_effect :
      (org a b : ℕ) (s : Db c)
      → is_ok (transfer_ownership c org a b s).0 ≡ true
      → Transferred org a b s (transfer_ownership c org a b s).1
  unfolding transfer_ownership
  transfer_ownership_effect org a b s good = elim (Option-cases (M.find s.members (org, a))) [
    | inl e ↦ absurd (ground (arith, e, good))
    | inr (m, e) ↦
        let m' = record m { role = org_admin } in
        let n' = λ (n : Member). record n { role = org_owner } in
        elim (Option-cases (M.find s.members (org, b))) [
          | inl f ↦ absurd (ground (arith, e, f, good))
          | inr (n, f) ↦ record {
            former = m;
            heir = n;
            former_stored = e;
            former_owned = is_org_owner-eq m.role (ground (arith, e, f, good));
            heir_stored = f;
            apart = λ same. ground (arith, e, f, good, same);
            rows = λ (g, u). ground (
              arith,
              e,
              f,
              good,
              M.find-write s.members (org, a) (org, b) m',
              M.find-write s.members (org, a) (g, u) m',
              M.find-write (M.write s.members (org, a) m') (org, b) (g, u) (n' n),
            );
          }
        ]
  ]

  -- After a successful soft deletion of an organization, which was not deleted before, findById
  -- no longer finds it, and restoring it by the end of the grace period succeeds and brings
  -- back its row as it was but for updatedAt, which is the time of the restoration.
  pub restore-soft_delete :
      (id now stamp later stamp' : ℕ) (s : Db c)
      → is_ok (soft_delete c id now stamp s).0 ≡ true
      → later ≤ c.plus_days now grace_period_days
      → let t = (soft_delete c id now stamp s).1 in
        (o : Organization) × (O.find s.organizations id ≡ some o)
        × (o.deleted_at ≡ none)
        × (is_ok (find_by_id c id t).0 ≡ false)
        × (is_ok (restore c id later stamp' t).0 ≡ true)
        × (O.find (restore c id later stamp' t).1.organizations id
            ≡ some (record o { updated_at = stamp' }))
  unfolding soft_delete restore
  restore-soft_delete id now stamp later stamp' s good le =
      elim (Option-cases (O.find s.organizations id)) [
        | inl e ↦ absurd (ground (arith, e, good))
        | inr (o, e) ↦
            let gone = record o { deleted_at = some now; updated_at = stamp } in
            let back = record gone { deleted_at = none; updated_at = stamp' } in
            let t = O.write s.organizations id gone in
            let w = O.find-write s.organizations id id gone in
            let live : o.deleted_at ≡ none = ground (arith, e, good) in
            (
              o,
              e,
              live,
              ground (arith, e, good, w),
              ground (arith, e, good, le, w),
              ground (arith, e, good, le, w, O.find-write t id id back),
            )
      ]
