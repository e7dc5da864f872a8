-- ===== src/SystemAdmin/Admission.antt =====
-- Invitations and their acceptance, and the invariant of the tables.
use agentest.Shared.{
  ℕ, ◌≡◌, ◌≤◌, ◌<◌, ◌⊎◌, ◌∙◌, refl, sym, ap, inl, inr, true, false, none, some, [], ◌∷◌, ◌++◌,
  arith, ==_iff, is_some, ltb, Bool-cases, Option-cases, ok, Error, err, business, admin_exists,
  not_found, invitation_text, invitation_accepted, admin_invitation_expired,
}
use agentest.SystemAdmin.{
  AdminRole, AdminUser, AdminInvitation, Client, Db, is_active, has_email, has_token, open_for,
  invite_admin_user, accept_invitation, admit, restore_user, create_user, find_invitation,
  refuse_active, admin_user_invite, admin_user_activate, invitation_expires_hours,
}
use agentest.SystemAdmin.Kept.{WellKept-later, post-WellKept, admit-WellKept, open_after}
use agentest.SystemAdmin.Methods.{Good}

module _ (c : Client) where
  open c use {users as U, invitations as I}

  -- The row that a query finds stands under its id.
  user_of_email :
      (last email : ℕ) (s : Db c) (u : AdminUser)
      → Good c last s
      → U.find_first s.users (has_email email) ≡ some u
      → (U.find s.users u.id ≡ some u) × (u.email ≡ email)
  user_of_email last email s u w e =
      let (on, k, f) = U.find_first-some s.users (has_email email) u e in
      (ap (U.find s.users) (w.user_id k u f) ∙ f, (==_iff u.email email).0 on)

  pub invitation_of_token :
      (last token : ℕ) (s : Db c) (i : AdminInvitation)
      → Good c last s
      → I.find_first s.invitations (has_token token) ≡ some i
      → I.find s.invitations i.id ≡ some i
  invitation_of_token last token s i w e =
      let (on, k, f) = I.find_first-some s.invitations (has_token token) i e in
      ap (I.find s.invitations) (w.invitation_id k i f) ∙ f

  -- Nobody active has the email, if the guard lets pass.
  refuse_active-cases :
      (last email : ℕ) (s : Db c)
      → Good c last s
      → ((refuse_active c (U.find_first s.users (has_email email)) s ≡ (ok tt, s))
          × ((k : ℕ) (u : AdminUser)
              → U.find s.users k ≡ some u
              → u.email ≡ email
              → is_active u ≡ false))
        ⊎ (refuse_active c (U.find_first s.users (has_email email)) s
            ≡ (err (business admin_exists), s))
  refuse_active-cases last email s w =
      elim (Option-cases (U.find_first s.users (has_email email))) [
        | inl e ↦ inl (
          rw e refl,
          λ k u f same. absurd (
              cc (
                (==_iff u.email email).1 same,
                U.find_first-none s.users (has_email email) k u e f,
              )),
        )
        | inr (v, e) ↦ elim (Bool-cases (is_some v.deleted_at)) [
          | inr live ↦ inr (rw (e, live) refl)
          | inl gone ↦ inl (
            rw (e, gone) refl,
            λ k u f same.
                let (g, to) = user_of_email last email s v w e in
                let one = w.emails k v.id u v f g (same ∙ sym to) in
                let eq : u ≡ v = cc (f, g, ap (U.find s.users) one) in
                ground (arith, ap is_active eq, gone),
          )
        ]
      ]

  pub invite_admin_user-Good :
      (last email name : ℕ) (role : AdminRole) (current now stamp token fresh : ℕ) (s : Db c)
      → last ≤ now
      → Good c last s
      → Good c now (invite_admin_user c email name role current now stamp token fresh s).1
  unfolding invite_admin_user
  invite_admin_user-Good last email name role current now stamp token fresh s le w =
      let later = WellKept-later c last now s.users s.invitations le w in
      let v : AdminInvitation = record {
        id = fresh;
        email = email;
        name = name;
        role = role;
        token = token;
        invited_by_id = current;
        accepted_at = none;
        expires_at = c.plus_hours stamp invitation_expires_hours;
      } in
      elim (refuse_active-cases now email s later) [
        | inr run ↦ rw run later
        | inl (run, idle) ↦ elim (Option-cases (I.find_first s.invitations (open_for email now))) [
          | inr (q, pending) ↦ rw (run, pending) later
          | inl clear ↦ elim (Option-cases (U.find s.users current)) [
            | inl e ↦ rw (run, clear, e) later
            | inr (inviter, e) ↦ elim (Option-cases (I.find s.invitations fresh)) [
              | inr (q, taken) ↦
                  let stays : (invite_admin_user c email name role current now stamp token fresh
                        s).1
                      ≡ s =
                    ground (arith, run, clear, e, taken) in
                  rw stays later
              | inl free ↦ elim (Option-cases (I.find_first s.invitations (has_token token))) [
                | inr (q, clash) ↦
                    let stays : (invite_admin_user c email name role current now stamp token fresh
                          s).1
                        ≡ s =
                      ground (arith, run, clear, e, free, clash) in
                    rw stays later
                | inl new ↦
                    let posted : (invite_admin_user c email name role current now stamp token fresh
                          s).1
                        ≡ record s {
                          invitations = I.write s.invitations fresh v;
                          audit =
                              s.audit
                              ++ record {
                                admin_user_id = current;
                                action = admin_user_invite;
                                target_id = fresh;
                              }
                                ∷ [];
                        } =
                      ground (arith, run, clear, e, free, new) in
                    rw posted (
                      post-WellKept c now s.users s.invitations v later free idle (λ k i f same.
                        let shut =
                          I.find_first-none s.invitations (open_for email now) k i clear f in
                        ground (arith, shut, (==_iff i.email email).1 same)))
              ]
            ]
          ]
        ]
      ]

  -- What `find_invitation` lets through.
  find_invitation-cases :
      (last token now : ℕ) (s : Db c)
      → last < now
      → Good c last s
      → ((i : AdminInvitation) × (find_invitation c token now s ≡ (ok i, s))
          × (I.find s.invitations i.id ≡ some i)
          × (open_after last i ≡ true))
        ⊎ ((e : Error) × (find_invitation c token now s ≡ (err e, s)))
  unfolding find_invitation
  find_invitation-cases last token now s lt w =
      elim (Option-cases (I.find_first s.invitations (has_token token))) [
        | inl e ↦ inr (not_found invitation_text, rw e refl)
        | inr (i, e) ↦ elim (Bool-cases (is_some i.accepted_at)) [
          | inl used ↦ inr (business invitation_accepted, rw (e, used) refl)
          | inr unused ↦ elim (Bool-cases (ltb i.expires_at now)) [
            | inl over ↦ inr (business admin_invitation_expired, rw (e, unused, over) refl)
            | inr valid ↦ inl (
              i,
              rw (e, unused, valid) refl,
              invitation_of_token last token s i w e,
              ground (arith, lt, unused, valid),
            )
          ]
        ]
      ]

  -- An admission: the user of the invitation is made, or comes back.
  admit-Good :
      (last password stamp fresh : ℕ) (s : Db c) (i : AdminInvitation)
      → Good c last s
      → I.find s.invitations i.id ≡ some i
      → open_after last i ≡ true
      → Good c last (admit c i password stamp fresh (U.find_first s.users (has_email i.email)) s).1
  unfolding admit restore_user create_user
  admit-Good last password stamp fresh s i w stored open_now =
      elim (Option-cases (U.find_first s.users (has_email i.email))) [
        | inl none_of ↦ elim (Option-cases (U.find s.users fresh)) [
          | inr (q, taken) ↦
              let stays : (create_user c i password stamp fresh s).1 ≡ s = ground (arith, taken) in
              rw (none_of, stays) w
          | inl free ↦
              let v : AdminUser = record {
                id = fresh;
                email = i.email;
                password_hash = c.hash password;
                name = i.name;
                role = i.role;
                totp_secret = none;
                totp_enabled = false;
                failed_attempts = 0;
                locked_until = none;
                deleted_at = none;
              } in
              let made : (create_user c i password stamp fresh s).1 ≡ record s {
                users = U.write s.users fresh v;
                invitations = I.write s.invitations i.id (record i { accepted_at = some stamp });
                audit =
                    s.audit
                    ++ record {
                      admin_user_id = fresh;
                      action = admin_user_activate;
                      target_id = fresh;
                    }
                      ∷ [];
              } =
                ground (arith, free, none_of, stored) in
              rw (none_of, made)
                (admit-WellKept c last s.users s.invitations fresh stamp v i w stored open_now refl
                  refl
                  (λ j r f same. absurd (
                    cc (
                      (==_iff r.email i.email).1 same,
                      U.find_first-none s.users (has_email i.email) j r none_of f,
                    )))
                  (λ r f. absurd (cc (f, free))))
        ]
        | inr (u, e) ↦
            let (g, to) = user_of_email last i.email s u w e in
            let v : AdminUser = record u {
              name = i.name;
              role = i.role;
              password_hash = c.hash password;
              totp_enabled = false;
              totp_secret = none;
              failed_attempts = 0;
              locked_until = none;
              deleted_at = none;
            } in
            let back : (restore_user c i password stamp u s).1 ≡ record s {
              users = U.write s.users u.id v;
              invitations = I.write s.invitations i.id (record i { accepted_at = some stamp });
              audit =
                  s.audit
                  ++ record { admin_user_id = u.id; action = admin_user_activate; target_id = u.id }
                    ∷ [];
            } =
              ground (arith, g, stored) in
            rw (e, back)
              (admit-WellKept c last s.users s.invitations u.id stamp v i w stored open_now refl to
                (λ j r f same. w.emails j u.id r u f g (same ∙ sym to))
                (λ r f. let eq : u ≡ r = cc (g, f) in ap (λ y. y.email) (sym eq) ∙ to))
      ]

  pub accept_invitation-Good :
      (last token password now stamp fresh : ℕ) (s : Db c)
      → last < now
      → Good c last s
      → Good c now (accept_invitation c token password now stamp fresh s).1
  unfolding accept_invitation
  accept_invitation-Good last token password now stamp fresh s lt w =
      elim (find_invitation-cases last token now s lt w) [
        | inr (e, run) ↦
            rw run (WellKept-later c last now s.users s.invitations (omega (arith, lt)) w)
        | inl (i, run, stored, open_now) ↦ rw run (
            WellKept-later c last now _ _ (omega (arith, lt))
              (admit-Good last password stamp fresh s i w stored open_now))
      ]
