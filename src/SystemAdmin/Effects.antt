-- ===== src/SystemAdmin/Effects.antt =====
-- Deletions, and the guard on the last super administrator.
use agentest.Shared.{
  ℕ, ◌≡◌, ◌≢◌, ◌≤◌, ◌∙◌, refl, sym, ap, inl, inr, true, false, some, arith, ◌==◌, ==_iff, ==_self,
  is_some, leb, Bool-cases, Option-cases, ok, err, business, last_super_admin_deletion, pure,
  if◌then◌else◌, is_ok, not_found, admin_text,
}
use agentest.SystemAdmin.{
  AdminUser, AdminSession, Client, Db, is_active, is_super, active_super, session_of, not_last,
  delete_admin_user, live_user, find_target,
}
use agentest.SystemAdmin.Kept.{Led, Another}
use agentest.SystemAdmin.Methods.{removed, remove_user_run}

module _ (c : Client) where
  open c use {users as U, sessions as X}

  live_user_active : (u : AdminUser) → is_active u ≡ true → live_user (some u) ≡ some u
  live_user_active u h = ground (arith, h)

  -- A user who is deleted: gone for every other method, and logged out everywhere.
  pub record Gone (s s' : Db c) (id : ℕ) : Type 0 where
    pub hidden : find_target c id s' ≡ (err (not_found admin_text), s')
    pub logged_out :
        (k : ℕ) (x : AdminSession)
        → X.find s'.sessions k ≡ some x
        → x.admin_user_id ≡ id
        → is_some x.revoked_at ≡ true
    pub others_kept : (k : ℕ) → k ≢ id → U.find s'.users k ≡ U.find s.users k
    pub sessions_kept :
        (k : ℕ) (x : AdminSession)
        → X.find s.sessions k ≡ some x
        → x.admin_user_id ≢ id
        → X.find s'.sessions k ≡ some x

  removed-Gone :
      (id current now : ℕ) (u : AdminUser) (s : Db c) → Gone s (removed c s id current now u) id
  removed-Gone id current now u s =
      let s' = removed c s id current now u in
      record {
        hidden =
            let e : U.find s'.users id ≡ some (record u { deleted_at = some now }) = ground (
              arith,
              ==_self id,
              U.find-write s.users id id (record u { deleted_at = some now }),
            ) in
            rw e refl;
        logged_out = λ k x e on. elim (Option-cases (X.find s.sessions k)) [
          | inl f ↦ absurd (
              ground (
                arith,
                e,
                f,
                X.find-update_many s.sessions (session_of id)
                    (λ y. record y { revoked_at = some now }) k,
              ))
          | inr (y, f) ↦ ground (
            arith,
            e,
            f,
            on,
            X.find-update_many s.sessions (session_of id) (λ z. record z { revoked_at = some now })
                k,
          )
        ];
        others_kept = λ k apart. elim (Bool-cases (id == k)) [
          | inl here ↦ absurd (apart (sym ((==_iff id k).0 here)))
          | inr off ↦
              ground (arith, off, U.find-write s.users id k (record u { deleted_at = some now }))
        ];
        sessions_kept = λ k x e off. ground (
          arith,
          e,
          off,
          X.find-update_many s.sessions (session_of id) (λ z. record z { revoked_at = some now }) k,
        );
      }

  deletion_allowed :
      (id : ℕ) (u : AdminUser) (s : Db c)
      → (is_super u.role ≡ true → (2 ≤ c.counts.count s.users active_super))
      → (if is_super u.role then not_last c last_super_admin_deletion else pure tt) s ≡ (ok tt, s)
  unfolding not_last
  deletion_allowed id u s more = elim (Bool-cases (is_super u.role)) [
    | inr low ↦ rw low refl
    | inl high ↦
        let two = more high in
        let pass : leb (c.counts.count s.users active_super) 1 ≡ false = ground (arith, two) in
        rw (high, pass) refl
  ]

  -- Deleting an active administrator by another one succeeds, if the deleted one is no super
  -- administrator or another active super administrator exists; afterwards the methods that
  -- change an administrator no longer find the deleted one, every session of theirs is revoked,
  -- and the rows of the other administrators and of their sessions are as before.
  pub delete_admin_user_effect :
      (id current now : ℕ) (u : AdminUser) (s : Db c)
      → id ≢ current
      → U.find s.users id ≡ some u
      → is_active u ≡ true
      → (is_super u.role ≡ true → Another c s.users id)
      → let (r, s') = delete_admin_user c id current now s in (is_ok r ≡ true) × Gone s s' id
  unfolding delete_admin_user
  delete_admin_user_effect id current now u s apart e act other =
      let off : (id == current) ≡ false = elim (Bool-cases (id == current)) [
        | inl self ↦ absurd (apart ((==_iff id current).0 self))
        | inr n ↦ n
      ] in
      let live = ap live_user e ∙ live_user_active u act in
      let pass = deletion_allowed id u s (λ high.
        let (h, ne) = other high in
        c.counts.another-count s.users active_super id h.key u h.user e (ground (arith, high, act))
          h.stored h.leads ne) in
      rw (off, live, pass, remove_user_run c id current now u s e)
        (refl, removed-Gone id current now u s)

  -- If an administrator is the only active super administrator, deleting them by somebody else
  -- is refused because they are the last one, and changes nothing.
  pub delete_admin_user-refused :
      (id current now : ℕ) (u : AdminUser) (s : Db c)
      → id ≢ current
      → U.find s.users id ≡ some u
      → active_super u ≡ true
      → ((h : Led c s.users) → h.key ≡ id)
      → delete_admin_user c id current now s ≡ (err (business last_super_admin_deletion), s)
  unfolding delete_admin_user not_last
  delete_admin_user-refused id current now u s apart e leads alone =
      let off : (id == current) ≡ false = elim (Bool-cases (id == current)) [
        | inl self ↦ absurd (apart ((==_iff id current).0 self))
        | inr n ↦ n
      ] in
      let live = ap live_user e ∙ live_user_active u (ground (arith, leads)) in
      let high : is_super u.role ≡ true = ground (arith, leads) in
      let one : leb (c.counts.count s.users active_super) 1 ≡ true =
        elim (Bool-cases (leb (c.counts.count s.users active_super) 1)) [
          | inl y ↦ y
          | inr more ↦
              let (j, r, f, on, ne) =
                c.counts.count-another s.users active_super id (ground (arith, more)) in
              absurd (ne (alone (record { key = j; user = r; stored = f; leads = on })))
        ] in
      rw (off, live, high, one) refl
