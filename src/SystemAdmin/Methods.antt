-- ===== src/SystemAdmin/Methods.antt =====
-- The methods other than the invitations, and the invariant of the tables.
use agentest.Shared.{
  ℕ, ◌≡◌, ◌⊎◌, ◌∙◌, refl, inl, inr, true, false, Option, none, some, arith, ◌==◌, leb,
  if◌then◌else◌, Bool-cases, Option-cases, pure, Reason, Error, ok, err, business, [], ◌∷◌, ◌++◌,
  self_role, last_super_admin_role, last_super_admin_deletion,
}
use agentest.SystemAdmin.{
  AdminRole, AdminUser, Client, Db, is_active, is_super, active_super, same_role, or_old, live_user,
  not_last, check_role, update_admin_user, delete_admin_user, remove_user, unlock_admin_user,
  reset_2fa, session_of, admin_user_delete, admin_user_update, admin_user_unlock,
  admin_user_reset_2fa,
}
use agentest.SystemAdmin.Kept.{Another, WellKept, rewrite-WellKept}

same_role-is_super : (a b : AdminRole) → same_role a b ≡ true → is_super a ≡ is_super b
same_role-is_super AdminRole.super_admin AdminRole.super_admin h = refl
same_role-is_super AdminRole.admin AdminRole.admin h = refl
same_role-is_super AdminRole.viewer AdminRole.viewer h = refl
same_role-is_super AdminRole.super_admin AdminRole.admin h = absurd (cc h)
same_role-is_super AdminRole.super_admin AdminRole.viewer h = absurd (cc h)
same_role-is_super AdminRole.admin AdminRole.super_admin h = absurd (cc h)
same_role-is_super AdminRole.admin AdminRole.viewer h = absurd (cc h)
same_role-is_super AdminRole.viewer AdminRole.super_admin h = absurd (cc h)
same_role-is_super AdminRole.viewer AdminRole.admin h = absurd (cc h)

live_user-some :
    (o : Option AdminUser) (u : AdminUser)
    → live_user o ≡ some u
    → (o ≡ some u) × (is_active u ≡ true)
live_user-some none u h = absurd (cc h)
live_user-some (some v) u h = ground (arith, h)

module _ (c : Client) where
  open c use {users as U, invitations as I}

  abbrev pub Good : ℕ → Db c → Type 0
  Good last s = WellKept c last s.users s.invitations

  not_last-cases :
      (reason : Reason) (id : ℕ) (s : Db c)
      → ((not_last c reason s ≡ (ok tt, s)) × Another c s.users id)
        ⊎ (not_last c reason s ≡ (err (business reason), s))
  unfolding not_last
  not_last-cases reason id s = elim (Bool-cases (leb (c.counts.count s.users active_super) 1)) [
    | inl last ↦ inr (rw last refl)
    | inr more ↦
        let (j, r, e, on, apart) =
          c.counts.count-another s.users active_super id (ground (arith, more)) in
        inl (rw more refl, (record { key = j; user = r; stored = e; leads = on }, apart))
  ]

  -- A checked role is no demotion of the last super administrator.
  check_role-cases :
      (id current : ℕ) (u : AdminUser) (role : Option AdminRole) (s : Db c)
      → ((check_role c id current u role s ≡ (ok tt, s))
          × (is_super u.role ≡ true
              → (is_super (or_old role u.role) ≡ true) ⊎ Another c s.users id))
        ⊎ ((e : Error) × (check_role c id current u role s ≡ (err e, s)))
  unfolding check_role
  check_role-cases id current u none s = inl (refl, λ h. inl h)
  check_role-cases id current u (some role) s = elim (Bool-cases (same_role role u.role)) [
    | inl same ↦ inl (rw same refl, λ h. inl (same_role-is_super role u.role same ∙ h))
    | inr change ↦ elim (Bool-cases (id == current)) [
      | inl self ↦ inr (business self_role, rw (change, self) refl)
      | inr other ↦ elim (Bool-cases (is_super u.role)) [
        | inr low ↦ inl (rw (change, other, low) refl, λ h. absurd (cc (h, low)))
        | inl high ↦ elim (not_last-cases last_super_admin_role id s) [
          | inl (run, another) ↦ inl (rw (change, other, high) run, λ h. inr another)
          | inr run ↦ inr (business last_super_admin_role, rw (change, other, high) run)
        ]
      ]
    ]
  ]

  pub update_admin_user-Good :
      (last id : ℕ) (name : Option ℕ) (role : Option AdminRole) (current : ℕ) (s : Db c)
      → Good last s
      → Good last (update_admin_user c id name role current s).1
  unfolding update_admin_user
  update_admin_user-Good last id name role current s w =
      elim (Option-cases (live_user (U.find s.users id))) [
        | inl e ↦ rw e w
        | inr (u, e) ↦
            let (f, act) = live_user-some (U.find s.users id) u e in
            elim (check_role-cases id current u role s) [
              | inr (x, run) ↦ rw (e, run) w
              | inl (run, safe) ↦
                  let v : AdminUser = record u {
                    name = or_old name u.name;
                    role = or_old role u.role;
                  } in
                  let done : (update_admin_user c id name role current s).1 ≡ record s {
                    users = U.write s.users id v;
                    audit =
                        s.audit
                        ++ record {
                          admin_user_id = current;
                          action = admin_user_update;
                          target_id = id;
                        }
                          ∷ [];
                  } =
                    ground (arith, e, run, f) in
                  rw done (
                    rewrite-WellKept c last s.users s.invitations id u v w f refl refl (λ h. h)
                      (λ h. elim (safe (ground (arith, h))) [
                        | inl high ↦ inl (ground (arith, high, act))
                        | inr another ↦ inr another
                      ]))
            ]
      ]

  -- The guard of a deletion: another super administrator stays.
  deletion-cases :
      (id : ℕ) (u : AdminUser) (s : Db c)
      → (((if is_super u.role then not_last c last_super_admin_deletion else pure tt) s
            ≡ (ok tt, s))
          × (is_super u.role ≡ true → Another c s.users id))
        ⊎ ((e : Error) × ((if is_super u.role
                  then not_last c last_super_admin_deletion
                  else pure tt)
                s
              ≡ (err e, s)))
  deletion-cases id u s = elim (Bool-cases (is_super u.role)) [
    | inr low ↦ inl (rw low refl, λ h. absurd (cc (h, low)))
    | inl high ↦ elim (not_last-cases last_super_admin_deletion id s) [
      | inl (run, another) ↦ inl (rw high run, λ h. another)
      | inr run ↦ inr (business last_super_admin_deletion, rw high run)
    ]
  ]

  abbrev pub removed : Db c → ℕ → ℕ → ℕ → AdminUser → Db c
  removed s id current now u = record s {
    users = U.write s.users id (record u { deleted_at = some now });
    sessions =
        c.sessions.update_many s.sessions (session_of id) (λ x. record x { revoked_at = some now });
    audit =
        s.audit
        ++ record { admin_user_id = current; action = admin_user_delete; target_id = id } ∷ [];
  }

  pub remove_user_run :
      (id current now : ℕ) (u : AdminUser) (s : Db c)
      → U.find s.users id ≡ some u
      → remove_user c id current now s ≡ (ok tt, removed s id current now u)
  unfolding remove_user
  remove_user_run id current now u s f = ground (arith, f)

  pub delete_admin_user-Good :
      (last id current now : ℕ) (s : Db c)
      → Good last s
      → Good last (delete_admin_user c id current now s).1
  unfolding delete_admin_user
  delete_admin_user-Good last id current now s w = elim (Bool-cases (id == current)) [
    | inl self ↦ rw self w
    | inr other ↦ elim (Option-cases (live_user (U.find s.users id))) [
      | inl e ↦ rw (other, e) w
      | inr (u, e) ↦
          let (f, act) = live_user-some (U.find s.users id) u e in
          elim (deletion-cases id u s) [
            | inr (x, run) ↦ rw (other, e, run) w
            | inl (run, safe) ↦
                rw (other, e, run, remove_user_run id current now u s f)
                  (rewrite-WellKept c last s.users s.invitations id u
                    (record u { deleted_at = some now }) w f refl refl (λ h. refl)
                    (λ h. inr (safe (ground (arith, h)))))
          ]
    ]
  ]

  pub edit-Good :
      (last id current : ℕ) (s : Db c)
      → Good last s
      → (Good last (unlock_admin_user c id current s).1) × (Good last (reset_2fa c id current s).1)
  unfolding unlock_admin_user reset_2fa
  edit-Good last id current s w = elim (Option-cases (live_user (U.find s.users id))) [
    | inl e ↦ (rw e w, rw e w)
    | inr (u, e) ↦
        let (f, act) = live_user-some (U.find s.users id) u e in
        let unlocked : (unlock_admin_user c id current s).1 ≡ record s {
          users = U.write s.users id (record u { locked_until = none; failed_attempts = 0 });
          audit =
              s.audit
              ++ record { admin_user_id = current; action = admin_user_unlock; target_id = id }
                ∷ [];
        } =
          ground (arith, e, f) in
        let reset : (reset_2fa c id current s).1 ≡ record s {
          users = U.write s.users id (record u { totp_enabled = false; totp_secret = none });
          audit =
              s.audit
              ++ record { admin_user_id = current; action = admin_user_reset_2fa; target_id = id }
                ∷ [];
        } =
          ground (arith, e, f) in
        (
          rw unlocked (
              rewrite-WellKept c last s.users s.invitations id u
                (record u { locked_until = none; failed_attempts = 0 }) w f refl refl (λ h. h)
                (λ h. inl h)),
          rw reset (
              rewrite-WellKept c last s.users s.invitations id u
                (record u { totp_enabled = false; totp_secret = none }) w f refl refl (λ h. h)
                (λ h. inl h)),
        )
  ]
