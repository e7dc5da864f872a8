-- ===== src/EditLock/Held.antt =====
-- A lock that a user holds, and the calls that leave it in place.
use agentest.Shared.{
  ℕ, suc, ◌≡◌, ◌≢◌, ◌≤◌, ◌<◌, refl, sym, subst, inl, inr, true, Option, none, some, arith, List, [],
  ◌∷◌, All, ltb, is_id, Option-cases, Bool-cases, ok,
}
use Prim.Native.String.{String}
use agentest.EditLock.{
  LockTargetType, same_type, suite, case, EditLock, ActorInfo, LockInfo, Locks, on_target, expiry,
  insert_lock, new_lock, update_heartbeat, acquire_existing, acquire_lock, process_expired_locks,
}
use agentest.EditLock.Changes.{WellFormed, Change, beat, drop, insert, purge, Changes, done, next}
use agentest.EditLock.Methods.{
  Call, acquires, beats, releases, expires, forces, run_call, run_calls, run_call-WellFormed,
  update_heartbeat-Changes, release_lock-Changes, force_release_lem, update_heartbeat_owner,
  acquire_lock-Changes, acquire_existing_over, acquire_existing_own, acquire_existing_other,
}

module _ (locks : Locks) where
  -- `owner` has a lock on the target, the row `key`, which runs at least to `until`.
  pub record Held (owner : ℕ) (ty : LockTargetType) (target until key : ℕ) (t : locks.Rows)
      : Type 0 where
    pub lock : EditLock
    pub stored : locks.find t key ≡ some lock
    pub on : on_target ty target lock ≡ true
    pub owned : is_id lock.locked_by_user_id owner ≡ true
    pub live : until ≤ lock.expires_at

  is_id_functional : (o : Option ℕ) (a b : ℕ) → is_id o a ≡ true → is_id o b ≡ true → a ≡ b
  is_id_functional none a b p q = cc
  is_id_functional (some u) a b p q = ground arith

  Change-stored :
      {a now until : ℕ} {u : ℕ} {ty : LockTargetType} {target key : ℕ} {s t : locks.Rows}
      → Change locks a now s t
      → a ≢ u
      → now < until
      → (h : Held u ty target until key s) → locks.find t key ≡ some h.lock
  Change-stored {a} {u} {key} {s} (beat k l stamp e own) ne lt h = ground (
    arith,
    h.stored,
    h.owned,
    is_id_functional h.lock.locked_by_user_id a u,
    locks.find-write s k key (record l { last_heartbeat = stamp; expires_at = expiry stamp }),
  )
  Change-stored {a} {u} {key} {s} (drop k l e own) ne lt h = ground (
    arith,
    h.stored,
    h.owned,
    h.live,
    is_id_functional h.lock.locked_by_user_id a u,
    locks.find-erase s k key,
  )
  Change-stored {key} {s} (insert l e n) ne lt h =
      ground (arith, h.stored, locks.find-write s l.id key l)
  Change-stored {now} {key} {s} purge ne lt h =
      ground (arith, h.stored, h.live, locks.find-delete_many s (λ l. ltb l.expires_at now) key)

  Changes-Held :
      {a now until : ℕ} {u : ℕ} {ty : LockTargetType} {target key : ℕ} {s t : locks.Rows}
      → Changes locks a now s t
      → a ≢ u
      → now < until
      → Held u ty target until key s
      → Held u ty target until key t
  Changes-Held done ne lt h = h
  Changes-Held (next cs c) ne lt h =
      let h' = Changes-Held cs ne lt h in
      record {
        lock = h'.lock;
        stored = Change-stored c ne lt h';
        on = h'.on;
        owned = h'.owned;
        live = h'.live;
      }

-- A call that does not take the row `lock` of `owner` away before `until`: one of another user or of
-- the timer before that time, or the forced release of another lock.
abbrev pub Harmless : ℕ → ℕ → ℕ → Call → Type 0
Harmless owner until lock (acquires ty target actor now stamp fresh) =
    (actor.id ≢ owner) × (now < until)
Harmless owner until lock (beats id actor stamp) = (actor.id ≢ owner) × (stamp < until)
Harmless owner until lock (releases id actor now) = (actor.id ≢ owner) × (now < until)
Harmless owner until lock (expires now) = now < until
Harmless owner until lock (forces id) = id ≢ lock

module _ (locks : Locks) (user_name : ℕ → Option String) where
  run_call-Held :
      (c : Call) (t : locks.Rows) {u : ℕ} {ty : LockTargetType} {target until key : ℕ}
      → WellFormed locks t
      → Harmless u until key c
      → Held locks u ty target until key t
      → Held locks u ty target until key (run_call locks user_name c t)
  unfolding run_call process_expired_locks
  run_call-Held (acquires ty target actor now stamp fresh) t w (o, lt) h =
      Changes-Held locks (acquire_lock-Changes locks user_name ty target actor now stamp fresh t w)
        o lt h
  run_call-Held (beats id actor stamp) t w (o, lt) h =
      Changes-Held locks (update_heartbeat-Changes locks user_name id actor stamp stamp t) o lt h
  run_call-Held (releases id actor now) t w (o, lt) h =
      Changes-Held locks (release_lock-Changes locks user_name id actor now t) o lt h
  run_call-Held (expires now) t {u} w lt h =
      Changes-Held locks {a = suc u} (next done purge) (λ e. omega arith) lt h
  run_call-Held (forces id) t {key} w ne h = elim (force_release_lem locks user_name id t) [
    | inl e ↦ rw e h
    | inr (l, f, e) ↦ rw e (record {
      lock = h.lock;
      stored = ground (arith, h.stored, locks.find-erase t id key);
      on = h.on;
      owned = h.owned;
      live = h.live;
    })
  ]

  pub run_calls-Held :
      (cs : List Call) (t : locks.Rows) {u : ℕ} {ty : LockTargetType} {target until key : ℕ}
      → WellFormed locks t
      → All (Harmless u until key) cs
      → Held locks u ty target until key t
      → Held locks u ty target until key (run_calls locks user_name cs t)
  unfolding run_calls
  run_calls-Held [] t w o h = h
  run_calls-Held (c ∷ cs) t w (o, os) h =
      run_calls-Held cs (run_call locks user_name c t) (run_call-WellFormed locks user_name c t w)
        os (run_call-Held c t w o h)

  same_type_self : (ty : LockTargetType) → same_type ty ty ≡ true
  same_type_self suite = refl
  same_type_self case = refl

  insert_lock_id :
      (ty : LockTargetType) (target : ℕ) (actor : ActorInfo) (stamp fresh : ℕ) (t : locks.Rows)
      {info : LockInfo}
      → (insert_lock locks user_name ty target actor stamp fresh t).0 ≡ ok info
      → info.id ≡ fresh
  unfolding insert_lock
  insert_lock_id ty target actor stamp fresh t h = ground arith

  update_heartbeat_id :
      (id : ℕ) (actor : ActorInfo) (stamp : ℕ) (l : EditLock) (t : locks.Rows) {info : LockInfo}
      → locks.find t id ≡ some l
      → (update_heartbeat locks user_name id actor stamp t).0 ≡ ok info
      → info.id ≡ l.id
  unfolding update_heartbeat
  update_heartbeat_id id actor stamp l t e h = ground arith

  insert_lock-Held :
      (ty : LockTargetType) (target : ℕ) (actor : ActorInfo) (stamp fresh : ℕ) (t : locks.Rows)
      {info : LockInfo}
      → (insert_lock locks user_name ty target actor stamp fresh t).0 ≡ ok info
      → Held locks actor.id ty target
          (expiry stamp)
          info.id
          (insert_lock locks user_name ty target actor stamp fresh t).1
  unfolding insert_lock
  insert_lock-Held ty target actor stamp fresh t h =
      let l = new_lock locks user_name ty target actor stamp fresh in
      record {
        lock = l;
        stored = ground (
          arith,
          insert_lock_id ty target actor stamp fresh t h,
          locks.find-write t fresh fresh l,
        );
        on = ground (arith, same_type_self ty);
        owned = ground arith;
        live = omega arith;
      }

  update_heartbeat-Held :
      (ty : LockTargetType) (target : ℕ) (actor : ActorInfo) (stamp : ℕ) (l : EditLock)
      (t : locks.Rows)
      → locks.find t l.id ≡ some l
      → on_target ty target l ≡ true
      → is_id l.locked_by_user_id actor.id ≡ true
      → Held locks actor.id ty target
          (expiry stamp)
          l.id
          (update_heartbeat locks user_name l.id actor stamp t).1
  update_heartbeat-Held ty target actor stamp l t e on own =
      rw (update_heartbeat_owner locks user_name l.id actor stamp l t e own) (
        let m = record l { last_heartbeat = stamp; expires_at = expiry stamp } in
        record {
          lock = m;
          stored = ground (arith, locks.find-write t l.id l.id m);
          on = on;
          owned = own;
          live = omega arith;
        })

  acquire_existing-Held :
      (ty : LockTargetType) (target : ℕ) (actor : ActorInfo) (now stamp fresh : ℕ) (l : EditLock)
      (t : locks.Rows) {info : LockInfo}
      → locks.find t l.id ≡ some l
      → on_target ty target l ≡ true
      → (acquire_existing locks user_name ty target actor now stamp fresh l t).0 ≡ ok info
      → Held locks actor.id ty target
          (expiry stamp)
          info.id
          (acquire_existing locks user_name ty target actor now stamp fresh l t).1
  acquire_existing-Held ty target actor now stamp fresh l t e on h =
      elim (Bool-cases (ltb now l.expires_at)) [
        | inl live ↦ elim (Bool-cases (is_id l.locked_by_user_id actor.id)) [
          | inl own ↦
              rw (acquire_existing_own locks user_name ty target actor now stamp fresh l t live own)
                (subst
                  (λ k.
                    Held locks actor.id ty target (expiry stamp) k
                      (update_heartbeat locks user_name l.id actor stamp t).1)
                  (sym (
                    update_heartbeat_id l.id actor stamp l t e (
                      rw
                        (acquire_existing_own locks user_name ty target actor now stamp fresh l t
                          live own)
                        at h)))
                  (update_heartbeat-Held ty target actor stamp l t e on own))
          | inr other ↦ cc (
              rw
                (acquire_existing_other locks user_name ty target actor now stamp fresh l t live
                  other)
                at h)
        ]
        | inr over ↦
            let skip =
              acquire_existing_over locks user_name ty target actor now stamp fresh l t e over in
            rw skip
              (insert_lock-Held ty target actor stamp fresh (locks.erase t l.id) (rw skip at h))
      ]

  pub acquire_lock-Held :
      (ty : LockTargetType) (target : ℕ) (actor : ActorInfo) (now stamp fresh : ℕ) (t : locks.Rows)
      {info : LockInfo}
      → WellFormed locks t
      → (acquire_lock locks user_name ty target actor now stamp fresh t).0 ≡ ok info
      → Held locks actor.id ty target
          (expiry stamp)
          info.id
          (acquire_lock locks user_name ty target actor now stamp fresh t).1
  unfolding acquire_lock
  acquire_lock-Held ty target actor now stamp fresh t w h =
      elim (Option-cases (locks.find_first t (on_target ty target))) [
        | inl e ↦
            rw (e, acquire_lock)
              (insert_lock-Held ty target actor stamp fresh t (rw (e, acquire_lock) at h))
        | inr (l, e) ↦
            let (on, k, f) = locks.find_first-some t (on_target ty target) l e in
            rw (e, acquire_lock)
              (acquire_existing-Held ty target actor now stamp fresh l t
                (subst (λ i. locks.find t i ≡ some l) (sym (w.keyed k l f)) f) on
                (rw (e, acquire_lock) at h))
      ]
