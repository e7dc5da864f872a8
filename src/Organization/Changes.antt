-- ===== src/Organization/Changes.antt =====
-- What the methods may do to the tables, and an invariant of them: every organization has
-- exactly one owner, members and invitations belong to organizations that exist, and no invitation
-- is for the owner's role.
use agentest.Shared.{
  ℕ, ◌≡◌, ◌≢◌, sym, subst, inl, inr, true, false, Option, none, some, arith, ◌&&◌, ◌==◌, is_some,
  Bool-cases,
}
use agentest.Access.{org_owner}
use agentest.Organization.{Organization, Member, Invitation, Client, Db, is_org_owner, is_open}

module _ (c : Client) where
  open c use {organizations as O, members as M, invitations as I}

  pub data Change (s : Db c) : Db c → Type 0 where
    found :
        (org user : ℕ) (o : Organization) (m : Member)
        → O.find s.organizations org ≡ none
        → M.find s.members (org, user) ≡ none
        → m.role ≡ org_owner
        → Change s (record s {
          organizations = O.write s.organizations org o;
          members = M.write s.members (org, user) m;
        })
    edit :
        (org : ℕ) (o p : Organization)
        → O.find s.organizations org ≡ some o
        → Change s (record s { organizations = O.write s.organizations org p })
    enroll :
        (org user : ℕ) (m : Member)
        → is_some (O.find s.organizations org) ≡ true
        → M.find s.members (org, user) ≡ none
        → is_org_owner m.role ≡ false
        → Change s (record s { members = M.write s.members (org, user) m })
    regrade :
        (org user : ℕ) (m n : Member)
        → M.find s.members (org, user) ≡ some m
        → is_org_owner m.role ≡ false
        → is_org_owner n.role ≡ false
        → Change s (record s { members = M.write s.members (org, user) n })
    leave :
        (org user : ℕ) (m : Member)
        → M.find s.members (org, user) ≡ some m
        → is_org_owner m.role ≡ false
        → Change s (record s { members = M.erase s.members (org, user) })
    transfer :
        (org a b : ℕ) (m n m' n' : Member)
        → a ≢ b
        → M.find s.members (org, a) ≡ some m
        → m.role ≡ org_owner
        → M.find s.members (org, b) ≡ some n
        → is_org_owner m'.role ≡ false
        → n'.role ≡ org_owner
        → Change s (record s { members = M.write (M.write s.members (org, a) m') (org, b) n' })
    post :
        (v : Invitation)
        → I.find s.invitations v.id ≡ none
        → I.find_first s.invitations (λ i. i.token == v.token) ≡ none
        → is_some (O.find s.organizations v.organization_id) ≡ true
        → is_org_owner v.role ≡ false
        → is_open v ≡ true
        → Change s (record s { invitations = I.write s.invitations v.id v })
    answer :
        (v : Invitation) (accepted declined : Option ℕ)
        → I.find s.invitations v.id ≡ some v
        → is_open v ≡ true
        → is_some accepted && is_some declined ≡ false
        → Change s (record s {
          invitations =
              I.write s.invitations v.id
                (record v { accepted_at = accepted; declined_at = declined });
        })
    withdraw :
        (id : ℕ) (v : Invitation)
        → I.find s.invitations id ≡ some v
        → is_open v ≡ true
        → Change s (record s { invitations = I.erase s.invitations id })

  pub data Changes (s : Db c) : Db c → Type 0 where
    done : Changes s s
    next : {t u : Db c} → Changes s t → Change t u → Changes s u

  pub record WellOwned (s : Db c) : Type 0 where
    pub anchored :
        (org user : ℕ) (m : Member)
        → M.find s.members (org, user) ≡ some m
        → is_some (O.find s.organizations org) ≡ true
    pub single :
        (org u v : ℕ) (m n : Member)
        → M.find s.members (org, u) ≡ some m
        → M.find s.members (org, v) ≡ some n
        → m.role ≡ org_owner
        → n.role ≡ org_owner
        → u ≡ v
    pub owned :
        (org : ℕ)
        → is_some (O.find s.organizations org) ≡ true
        → (u : ℕ) × (m : Member) × (M.find s.members (org, u) ≡ some m) × (m.role ≡ org_owner)
    pub invited :
        (id : ℕ) (v : Invitation)
        → I.find s.invitations id ≡ some v
        → (is_org_owner v.role ≡ false)
          × (is_some (O.find s.organizations v.organization_id) ≡ true)
    pub keyed : (id : ℕ) (v : Invitation) → I.find s.invitations id ≡ some v → v.id ≡ id
    pub tokens :
        (i j : ℕ) (v x : Invitation)
        → I.find s.invitations i ≡ some v
        → I.find s.invitations j ≡ some x
        → v.token ≡ x.token
        → i ≡ j
    pub settled :
        (id : ℕ) (v : Invitation)
        → I.find s.invitations id ≡ some v
        → is_some v.accepted_at && is_some v.declined_at ≡ false

  Change-anchored :
      {s t : Db c}
      → Change s t
      → WellOwned s
      → (org user : ℕ) (m : Member) → M.find t.members (org, user) ≡ some m
      → is_some (O.find t.organizations org) ≡ true
  Change-anchored {s} (found g a o r e f own) w org user m h = ground (
    arith,
    w.anchored org user m,
    M.find-write s.members (g, a) (org, user) r,
    O.find-write s.organizations g org o,
  )
  Change-anchored {s} (edit g o p e) w org user m h =
      ground (arith, w.anchored org user m, O.find-write s.organizations g org p)
  Change-anchored {s} (enroll g a r e f own) w org user m h =
      ground (arith, w.anchored org user m, M.find-write s.members (g, a) (org, user) r)
  Change-anchored {s} (regrade g a r q e f own) w org user m h =
      ground (
        arith,
        w.anchored org user m,
        w.anchored g a r,
        M.find-write s.members (g, a) (org, user) q,
      )
  Change-anchored {s} (leave g a r e f) w org user m h =
      ground (arith, w.anchored org user m, M.find-erase s.members (g, a) (org, user))
  Change-anchored {s} (transfer g a b r q r' q' ne e o f low high) w org user m h = ground (
    arith,
    w.anchored org user m,
    w.anchored g a r,
    M.find-write s.members (g, a) (org, user) r',
    M.find-write (M.write s.members (g, a) r') (g, b) (org, user) q',
  )
  Change-anchored (post i e n f low o) w org user m h = w.anchored org user m h
  Change-anchored (answer i a d e o x) w org user m h = w.anchored org user m h
  Change-anchored (withdraw id i e o) w org user m h = w.anchored org user m h

  Change-single :
      {s t : Db c}
      → Change s t
      → WellOwned s
      → (org u v : ℕ) (m n : Member) → M.find t.members (org, u) ≡ some m
      → M.find t.members (org, v) ≡ some n
      → m.role ≡ org_owner
      → n.role ≡ org_owner
      → u ≡ v
  Change-single {s} (found g a o r e f own) w org u v m n h k p q = ground (
    arith,
    w.single org u v m n,
    w.anchored org u m,
    w.anchored org v n,
    M.find-write s.members (g, a) (org, u) r,
    M.find-write s.members (g, a) (org, v) r,
  )
  Change-single (edit g o o' e) w org u v m n h k p q = w.single org u v m n h k p q
  Change-single {s} (enroll g a r e f own) w org u v m n h k p q = ground (
    arith,
    w.single org u v m n,
    M.find-write s.members (g, a) (org, u) r,
    M.find-write s.members (g, a) (org, v) r,
  )
  Change-single {s} (regrade g a r r' e f own) w org u v m n h k p q = ground (
    arith,
    w.single org u v m n,
    M.find-write s.members (g, a) (org, u) r',
    M.find-write s.members (g, a) (org, v) r',
  )
  Change-single {s} (leave g a r e f) w org u v m n h k p q = ground (
    arith,
    w.single org u v m n,
    M.find-erase s.members (g, a) (org, u),
    M.find-erase s.members (g, a) (org, v),
  )
  Change-single {s} (transfer g a b r x r' x' ne e o f low high) w org u v m n h k p q = ground (
    arith,
    w.single org u v m n,
    w.single g a u r m,
    w.single g a v r n,
    M.find-write s.members (g, a) (org, u) r',
    M.find-write (M.write s.members (g, a) r') (g, b) (org, u) x',
    M.find-write s.members (g, a) (org, v) r',
    M.find-write (M.write s.members (g, a) r') (g, b) (org, v) x',
  )
  Change-single (post i e g f low o) w org u v m n h k p q = w.single org u v m n h k p q
  Change-single (answer i a d e o x) w org u v m n h k p q = w.single org u v m n h k p q
  Change-single (withdraw id i e o) w org u v m n h k p q = w.single org u v m n h k p q

  abbrev HasOwner : Db c → ℕ → Type 0
  HasOwner s org =
      (u : ℕ) × (m : Member) × (M.find s.members (org, u) ≡ some m) × (m.role ≡ org_owner)

  Change-owned :
      {s t : Db c}
      → Change s t
      → WellOwned s
      → (org : ℕ) → is_some (O.find t.organizations org) ≡ true
      → HasOwner t org
  Change-owned {s} (found g a o r e f own) w org h = elim (Bool-cases (g == org)) [
    | inl y ↦ (a, r, ground (arith, y, M.find-write s.members (g, a) (org, a) r), own)
    | inr n ↦
        let (u, m, i, q) =
          w.owned org (ground (arith, n, h, O.find-write s.organizations g org o)) in
        (u, m, ground (arith, n, i, M.find-write s.members (g, a) (org, u) r), q)
  ]
  Change-owned {s} (edit g o p e) w org h =
      w.owned org (ground (arith, h, e, O.find-write s.organizations g org p))
  Change-owned {s} (enroll g a r e f own) w org h =
      let (u, m, i, q) = w.owned org h in
      (u, m, ground (arith, i, q, f, M.find-write s.members (g, a) (org, u) r), q)
  Change-owned {s} (regrade g a r p e f own) w org h =
      let (u, m, i, q) = w.owned org h in
      (u, m, ground (arith, i, q, e, f, M.find-write s.members (g, a) (org, u) p), q)
  Change-owned {s} (leave g a r e f) w org h =
      let (u, m, i, q) = w.owned org h in
      (u, m, ground (arith, i, q, e, f, M.find-erase s.members (g, a) (org, u)), q)
  Change-owned {s} (transfer g a b r x r' x' ne e o f low high) w org h =
      elim (Bool-cases (g == org)) [
        | inl y ↦ (
          b,
          x',
          ground (arith, y, M.find-write (M.write s.members (g, a) r') (g, b) (org, b) x'),
          high,
        )
        | inr n ↦
            let (u, m, i, q) = w.owned org h in
            (
              u,
              m,
              ground (
                arith,
                n,
                i,
                M.find-write s.members (g, a) (org, u) r',
                M.find-write (M.write s.members (g, a) r') (g, b) (org, u) x',
              ),
              q,
            )
      ]
  Change-owned (post i e n f low o) w org h = w.owned org h
  Change-owned (answer i a d e o x) w org h = w.owned org h
  Change-owned (withdraw id i e o) w org h = w.owned org h

  Change-invited :
      {s t : Db c}
      → Change s t
      → WellOwned s
      → (id : ℕ) (v : Invitation) → I.find t.invitations id ≡ some v
      → (is_org_owner v.role ≡ false) × (is_some (O.find t.organizations v.organization_id) ≡ true)
  Change-invited {s} (found g a o r e f own) w id v h =
      ground (arith, w.invited id v h, O.find-write s.organizations g v.organization_id o)
  Change-invited {s} (edit g o p e) w id v h =
      ground (arith, w.invited id v h, O.find-write s.organizations g v.organization_id p)
  Change-invited (enroll g a r e f own) w id v h = w.invited id v h
  Change-invited (regrade g a r p e f own) w id v h = w.invited id v h
  Change-invited (leave g a r e f) w id v h = w.invited id v h
  Change-invited (transfer g a b r x r' x' ne e o f low high) w id v h = w.invited id v h
  Change-invited {s} (post i e n f low o) w id v h =
      ground (arith, w.invited id v, I.find-write s.invitations i.id id i)
  Change-invited {s} (answer i a d e o x) w id v h = ground (
    arith,
    w.invited id v,
    w.invited i.id i,
    I.find-write s.invitations i.id id (record i { accepted_at = a; declined_at = d }),
  )
  Change-invited {s} (withdraw j i e o) w id v h =
      ground (arith, w.invited id v, I.find-erase s.invitations j id)

  Change-keyed :
      {s t : Db c}
      → Change s t
      → WellOwned s
      → (id : ℕ) (v : Invitation) → I.find t.invitations id ≡ some v
      → v.id ≡ id
  Change-keyed {s} (post i e n f low o) w id v h =
      ground (arith, w.keyed id v, I.find-write s.invitations i.id id i)
  Change-keyed {s} (answer i a d e o x) w id v h = ground (
    arith,
    w.keyed id v,
    I.find-write s.invitations i.id id (record i { accepted_at = a; declined_at = d }),
  )
  Change-keyed {s} (withdraw j i e o) w id v h =
      ground (arith, w.keyed id v, I.find-erase s.invitations j id)
  Change-keyed _ w id v h = w.keyed id v h

  Change-settled :
      {s t : Db c}
      → Change s t
      → WellOwned s
      → (id : ℕ) (v : Invitation) → I.find t.invitations id ≡ some v
      → is_some v.accepted_at && is_some v.declined_at ≡ false
  Change-settled {s} (post i e n f low o) w id v h =
      ground (arith, w.settled id v, I.find-write s.invitations i.id id i)
  Change-settled {s} (answer i a d e o x) w id v h = ground (
    arith,
    w.settled id v,
    I.find-write s.invitations i.id id (record i { accepted_at = a; declined_at = d }),
  )
  Change-settled {s} (withdraw j i e o) w id v h =
      ground (arith, w.settled id v, I.find-erase s.invitations j id)
  Change-settled _ w id v h = w.settled id v h

  Change-tokens :
      {s t : Db c}
      → Change s t
      → WellOwned s
      → (i j : ℕ) (v x : Invitation) → I.find t.invitations i ≡ some v
      → I.find t.invitations j ≡ some x
      → v.token ≡ x.token
      → i ≡ j
  Change-tokens {s} (post r e n f low o) w i j v x h k same = ground (
    arith,
    w.tokens i j v x,
    I.find_first-none s.invitations (λ y. y.token == r.token) i v n,
    I.find_first-none s.invitations (λ y. y.token == r.token) j x n,
    I.find-write s.invitations r.id i r,
    I.find-write s.invitations r.id j r,
  )
  Change-tokens {s} (answer r a d e o z) w i j v x h k same =
      let r' = record r { accepted_at = a; declined_at = d } in
      ground (
        arith,
        w.tokens i j v x,
        w.tokens r.id j r x,
        w.tokens i r.id v r,
        I.find-write s.invitations r.id i r',
        I.find-write s.invitations r.id j r',
      )
  Change-tokens {s} (withdraw l r e o) w i j v x h k same =
      ground
        (arith, w.tokens i j v x, I.find-erase s.invitations l i, I.find-erase s.invitations l j)
  Change-tokens _ w i j v x h k same = w.tokens i j v x h k same

  pub Change-WellOwned : {s t : Db c} → Change s t → WellOwned s → WellOwned t
  Change-WellOwned ch w = record {
    anchored = Change-anchored ch w;
    single = Change-single ch w;
    owned = Change-owned ch w;
    invited = Change-invited ch w;
    keyed = Change-keyed ch w;
    tokens = Change-tokens ch w;
    settled = Change-settled ch w;
  }

  pub Changes-WellOwned : {s t : Db c} → Changes s t → WellOwned s → WellOwned t
  Changes-WellOwned done w = w
  Changes-WellOwned (next cs ch) w = Change-WellOwned ch (Changes-WellOwned cs w)

  pub lands : {s t u : Db c} → Changes s t → u ≡ t → Changes s u
  lands {s} cs e = subst (λ v. Changes s v) (sym e) cs
