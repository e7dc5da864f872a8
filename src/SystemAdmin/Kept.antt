-- ===== src/SystemAdmin/Kept.antt =====
-- The invariant of the tables: there is an active super administrator, and, after the time of the
-- last call, no open invitation is for the email of an active user or of another open invitation.
use agentest.Shared.{
  ℕ, ◌≡◌, ◌≢◌, ◌≤◌, ◌⊎◌, ◌∙◌, refl, sym, ap, inl, inr, Bool, true, false, not, ◌&&◌, none, some,
  arith, ◌==◌, ==_iff, ==_self, is_some, ltb, Bool-cases,
}
use agentest.SystemAdmin.{AdminUser, AdminInvitation, Client, is_active, active_super}

-- An invitation that can be accepted after a time.
abbrev pub open_after : ℕ → AdminInvitation → Bool
open_after last i = not (is_some i.accepted_at) && ltb last i.expires_at

module _ (c : Client) where
  open c use {users as U, invitations as I}

  pub record Led (us : U.Rows) : Type 0 where
    pub key : ℕ
    pub user : AdminUser
    pub stored : U.find us key ≡ some user
    pub leads : active_super user ≡ true

  -- Another super administrator than that of a key.
  abbrev pub Another : U.Rows → ℕ → Type 0
  Another us k = (h : Led us) × (h.key ≢ k)

  pub record WellKept (last : ℕ) (us : U.Rows) (is : I.Rows) : Type 0 where
    pub led : Led us
    pub user_id : (k : ℕ) (u : AdminUser) → U.find us k ≡ some u → u.id ≡ k
    pub invitation_id : (k : ℕ) (i : AdminInvitation) → I.find is k ≡ some i → i.id ≡ k
    pub emails :
        (j k : ℕ) (u v : AdminUser)
        → U.find us j ≡ some u
        → U.find us k ≡ some v
        → u.email ≡ v.email
        → j ≡ k
    pub closed :
        (j k : ℕ) (i : AdminInvitation) (u : AdminUser)
        → I.find is j ≡ some i
        → open_after last i ≡ true
        → U.find us k ≡ some u
        → u.email ≡ i.email
        → is_active u ≡ false
    pub single :
        (j k : ℕ) (i q : AdminInvitation)
        → I.find is j ≡ some i
        → I.find is k ≡ some q
        → open_after last i ≡ true
        → open_after last q ≡ true
        → i.email ≡ q.email
        → j ≡ k

  open_before :
      (last now : ℕ) (i : AdminInvitation)
      → last ≤ now
      → open_after now i ≡ true
      → open_after last i ≡ true
  open_before last now i le h = ground (arith, le, h)

  pub WellKept-later :
      (last now : ℕ) (us : U.Rows) (is : I.Rows)
      → last ≤ now
      → WellKept last us is
      → WellKept now us is
  WellKept-later last now us is le w = record {
    led = w.led;
    user_id = w.user_id;
    invitation_id = w.invitation_id;
    emails = w.emails;
    closed = λ j k i u e o f same. w.closed j k i u e (open_before last now i le o) f same;
    single = λ j k i q e f o p same.
        w.single j k i q e f (open_before last now i le o) (open_before last now q le p) same;
  }

  -- Writing a user keeps a super administrator.
  write-Led :
      (us : U.Rows) (k : ℕ) (w : AdminUser)
      → (h : Led us) → (h.key ≡ k → (active_super w ≡ true) ⊎ Another us k)
      → Led (U.write us k w)
  write-Led us k w h f = elim (Bool-cases (k == h.key)) [
    | inr apart ↦ record {
      key = h.key;
      user = h.user;
      stored = ground (arith, apart, h.stored, U.find-write us k h.key w);
      leads = h.leads;
    }
    | inl here ↦ elim (f (sym ((==_iff k h.key).0 here))) [
      | inl on ↦ record {
        key = k;
        user = w;
        stored = ground (arith, ==_self k, U.find-write us k k w);
        leads = on;
      }
      | inr (j, apart) ↦
          let off : (k == j.key) ≡ false = elim (Bool-cases (k == j.key)) [
            | inl e ↦ absurd (apart (sym ((==_iff k j.key).0 e)))
            | inr n ↦ n
          ] in
          record {
            key = j.key;
            user = j.user;
            stored = ground (arith, off, j.stored, U.find-write us k j.key w);
            leads = j.leads;
          }
    ]
  ]

  -- The row that a user had before another row was written.
  record Before (us : U.Rows) (j : ℕ) (x : AdminUser) : Type 0 where
    user : AdminUser
    stored : U.find us j ≡ some user
    email : user.email ≡ x.email
    inactive : is_active user ≡ false → is_active x ≡ false

  before :
      (us : U.Rows) (k : ℕ) (u w : AdminUser)
      → U.find us k ≡ some u
      → w.email ≡ u.email
      → (is_active u ≡ false → is_active w ≡ false)
      → (j : ℕ) (x : AdminUser) → U.find (U.write us k w) j ≡ some x
      → Before us j x
  before us k u w e same act j x f = elim (Bool-cases (k == j)) [
    | inr apart ↦ record {
      user = x;
      stored = ground (arith, apart, f, U.find-write us k j w);
      email = refl;
      inactive = λ h. h;
    }
    | inl here ↦
        let eq : w ≡ x = ground (arith, here, f, U.find-write us k j w) in
        record {
          user = u;
          stored = ap (U.find us) (sym ((==_iff k j).0 here)) ∙ e;
          email = sym same ∙ ap (λ y. y.email) eq;
          inactive = λ h. ap is_active (sym eq) ∙ act h;
        }
  ]

  -- A user is rewritten, not activated.
  pub rewrite-WellKept :
      (last : ℕ) (us : U.Rows) (is : I.Rows) (k : ℕ) (u w : AdminUser)
      → WellKept last us is
      → U.find us k ≡ some u
      → w.id ≡ u.id
      → w.email ≡ u.email
      → (is_active u ≡ false → is_active w ≡ false)
      → (active_super u ≡ true → (active_super w ≡ true) ⊎ Another us k)
      → WellKept last (U.write us k w) is
  rewrite-WellKept last us is k u w kept e same_id same_email act lead =
      let old = before us k u w e same_email act in
      record {
        led = write-Led us k w kept.led (λ here.
            let same : kept.led.user ≡ u = cc (kept.led.stored, e, ap (U.find us) here) in
            lead (ap active_super (sym same) ∙ kept.led.leads));
        user_id = λ j v f.
            ground (arith, same_id, kept.user_id k u e, f, kept.user_id j v, U.find-write us k j w);
        invitation_id = kept.invitation_id;
        emails = λ i j v x f g same.
            let p = old i v f in
            let q = old j x g in
            kept.emails i j p.user q.user p.stored q.stored (p.email ∙ same ∙ sym q.email);
        closed = λ i j v x f o g same.
            let q = old j x g in
            q.inactive (kept.closed i j v q.user f o q.stored (q.email ∙ same));
        single = kept.single;
      }

  -- A row of a table after a write is the written one or was there.
  invitation_or :
      (is : I.Rows) (n : ℕ) (v : AdminInvitation) (j : ℕ) (i : AdminInvitation)
      → I.find (I.write is n v) j ≡ some i
      → ((n ≡ j) × (v ≡ i)) ⊎ (((n == j) ≡ false) × (I.find is j ≡ some i))
  invitation_or is n v j i e = elim (Bool-cases (n == j)) [
    | inl here ↦ inl ((==_iff n j).0 here, ground (arith, here, e, I.find-write is n j v))
    | inr apart ↦ inr (apart, ground (arith, apart, e, I.find-write is n j v))
  ]

  user_or :
      (us : U.Rows) (n : ℕ) (v : AdminUser) (j : ℕ) (u : AdminUser)
      → U.find (U.write us n v) j ≡ some u
      → ((n ≡ j) × (v ≡ u)) ⊎ (U.find us j ≡ some u)
  user_or us n v j u e = elim (Bool-cases (n == j)) [
    | inl here ↦ inl ((==_iff n j).0 here, ground (arith, here, e, U.find-write us n j v))
    | inr apart ↦ inr (ground (arith, apart, e, U.find-write us n j v))
  ]

  -- An invitation is posted for an email with no active user and no open invitation.
  pub post-WellKept :
      (last : ℕ) (us : U.Rows) (is : I.Rows) (v : AdminInvitation)
      → WellKept last us is
      → I.find is v.id ≡ none
      → ((k : ℕ) (u : AdminUser) → U.find us k ≡ some u → u.email ≡ v.email → is_active u ≡ false)
      → ((k : ℕ) (i : AdminInvitation)
          → I.find is k ≡ some i
          → i.email ≡ v.email
          → open_after last i ≡ false)
      → WellKept last us (I.write is v.id v)
  post-WellKept last us is v kept free idle alone = record {
    led = kept.led;
    user_id = kept.user_id;
    invitation_id = λ k i e. ground (arith, e, I.find-write is v.id k v, kept.invitation_id k i);
    emails = kept.emails;
    closed = λ j k i u e o f same. elim (Bool-cases (v.id == j)) [
      | inr apart ↦
          kept.closed j k i u (ground (arith, apart, e, I.find-write is v.id j v)) o f same
      | inl here ↦
          let eq : v ≡ i = ground (arith, here, e, I.find-write is v.id j v) in
          idle k u f (same ∙ ap (λ y. y.email) (sym eq))
    ];
    single = λ j k i q e f o p same. elim (invitation_or is v.id v j i e) [
      | inl (a, x) ↦ elim (invitation_or is v.id v k q f) [
        | inl (b, y) ↦ sym a ∙ b
        | inr (n, g) ↦ absurd (cc (alone k q g (sym same ∙ ap (λ z. z.email) (sym x)), p))
      ]
      | inr (m, g) ↦ elim (invitation_or is v.id v k q f) [
        | inl (b, y) ↦ absurd (cc (alone j i g (same ∙ ap (λ z. z.email) (sym y)), o))
        | inr (n, h) ↦ kept.single j k i q g h o p same
      ]
    ];
  }

  -- An invitation is accepted: its user is made or comes back, and it is closed.
  pub admit-WellKept :
      (last : ℕ) (us : U.Rows) (is : I.Rows) (k stamp : ℕ) (w : AdminUser) (i : AdminInvitation)
      → WellKept last us is
      → I.find is i.id ≡ some i
      → open_after last i ≡ true
      → w.id ≡ k
      → w.email ≡ i.email
      → ((j : ℕ) (r : AdminUser) → U.find us j ≡ some r → r.email ≡ i.email → j ≡ k)
      → ((r : AdminUser) → U.find us k ≡ some r → r.email ≡ i.email)
      → WellKept last (U.write us k w) (I.write is i.id (record i { accepted_at = some stamp }))
  admit-WellKept last us is k stamp w i kept e o same_id same_email slot mine =
      let done : AdminInvitation = record i { accepted_at = some stamp } in
      record {
        led = write-Led us k w kept.led (λ here.
            let at : U.find us k ≡ some kept.led.user =
              ap (U.find us) (sym here) ∙ kept.led.stored in
            let off = kept.closed i.id k i kept.led.user e o at (mine kept.led.user at) in
            absurd (ground (arith, off, kept.led.leads)));
        user_id = λ j v f. elim (user_or us k w j v f) [
          | inl (a, x) ↦ ap (λ y. y.id) (sym x) ∙ same_id ∙ a
          | inr g ↦ kept.user_id j v g
        ];
        invitation_id = λ j q f. elim (invitation_or is i.id done j q f) [
          | inl (a, x) ↦ ap (λ y. y.id) (sym x) ∙ a
          | inr (n, g) ↦ kept.invitation_id j q g
        ];
        emails = λ a b u v f g same. elim (user_or us k w a u f) [
          | inl (p, x) ↦ elim (user_or us k w b v g) [
            | inl (q, y) ↦ sym p ∙ q
            | inr h ↦ sym p ∙ sym (slot b v h (sym same ∙ ap (λ y. y.email) (sym x) ∙ same_email))
          ]
          | inr h ↦ elim (user_or us k w b v g) [
            | inl (q, y) ↦ slot a u h (same ∙ ap (λ z. z.email) (sym y) ∙ same_email) ∙ q
            | inr m ↦ kept.emails a b u v h m same
          ]
        ];
        closed = λ j b q u f live g same. elim (invitation_or is i.id done j q f) [
          | inl (a, x) ↦ absurd (ground (arith, live, ap (λ y. open_after last y) (sym x)))
          | inr (n, h) ↦ elim (user_or us k w b u g) [
            | inl (p, y) ↦
                let to : i.email ≡ q.email = sym same_email ∙ ap (λ z. z.email) y ∙ same in
                let one = kept.single i.id j i q e h o live to in
                absurd (cc ((==_iff i.id j).1 one, n))
            | inr m ↦ kept.closed j b q u h live m same
          ]
        ];
        single = λ j b q p f g live also same. elim (invitation_or is i.id done j q f) [
          | inl (a, x) ↦ absurd (ground (arith, live, ap (λ y. open_after last y) (sym x)))
          | inr (n, h) ↦ elim (invitation_or is i.id done b p g) [
            | inl (a, x) ↦ absurd (ground (arith, also, ap (λ y. open_after last y) (sym x)))
            | inr (m, l) ↦ kept.single j b q p h l live also same
          ]
        ];
      }
