-- ===== src/EditLock/Methods.antt =====
-- The methods of the lock service as calls. Acquire, heartbeat, release and expiry are sequences of
-- guarded changes; forceRelease has no guard of its own and is treated apart.
use agentest.Shared.{
  ℕ, ◌≡◌, ◌⊎◌, sym, subst, inl, inr, true, false, Option, some, arith, List, [], ◌∷◌, err,
  lock_conflict, ltb, is_id, Option-cases, Bool-cases,
}
use Prim.Native.String.{String}
use agentest.EditLock.{
  LockTargetType, EditLock, ActorInfo, Locks, on_target, expiry, insert_lock, new_lock,
  update_heartbeat, acquire_existing, acquire_lock, release_lock, holder, process_expired_locks,
  force_release,
}
use agentest.EditLock.Changes.{
  WellFormed, beat, drop, insert, purge, Changes, done, next, Changes-WellFormed, Change-WellFormed,
}

-- The requests of users, of administrators and of the cleanup timer, with what each reads from its
-- surroundings.
pub data Call : Type 0 where
  acquires : LockTargetType → ℕ → ActorInfo → ℕ → ℕ → ℕ → Call
  beats : ℕ → ActorInfo → ℕ → Call
  releases : ℕ → ActorInfo → ℕ → Call
  expires : ℕ → Call
  forces : ℕ → Call

module _ (locks : Locks) (user_name : ℕ → Option String) where
  unfoldable pub run_call : Call → locks.Rows → locks.Rows
  run_call (acquires ty target actor now stamp fresh) t =
      (acquire_lock locks user_name ty target actor now stamp fresh t).1
  run_call (beats id actor stamp) t = (update_heartbeat locks user_name id actor stamp t).1
  run_call (releases id actor now) t = (release_lock locks user_name id actor t).1
  run_call (expires now) t = (process_expired_locks locks user_name now t).1
  run_call (forces id) t = (force_release locks user_name id t).1

  unfoldable pub run_calls : List Call → locks.Rows → locks.Rows
  run_calls [] t = t
  run_calls (c ∷ cs) t = run_calls cs (run_call c t)

  -- The owner's heartbeat moves the expiry, and nothing else of the row but the time of the beat.
  pub update_heartbeat_owner :
      (id : ℕ) (actor : ActorInfo) (stamp : ℕ) (l : EditLock) (t : locks.Rows)
      → locks.find t id ≡ some l
      → is_id l.locked_by_user_id actor.id ≡ true
      → (update_heartbeat locks user_name id actor stamp t).1
        ≡ locks.write t id (record l { last_heartbeat = stamp; expires_at = expiry stamp })
  unfolding update_heartbeat
  update_heartbeat_owner id actor stamp l t e own = ground arith

  pub update_heartbeat-Changes :
      (id : ℕ) (actor : ActorInfo) (stamp now : ℕ) (t : locks.Rows)
      → Changes locks actor.id now t (update_heartbeat locks user_name id actor stamp t).1
  unfolding update_heartbeat
  update_heartbeat-Changes id actor stamp now t = elim (Option-cases (locks.find t id)) [
    | inl e ↦ rw (e, update_heartbeat) done
    | inr (l, e) ↦ elim (Bool-cases (is_id l.locked_by_user_id actor.id)) [
      | inl own ↦
          rw (update_heartbeat_owner id actor stamp l t e own) (next done (beat id l stamp e own))
      | inr other ↦ rw (e, other, update_heartbeat) done
    ]
  ]

  insert_lock-Changes :
      (ty : LockTargetType) (target : ℕ) (actor : ActorInfo) (now stamp fresh : ℕ)
      (s t : locks.Rows)
      → Changes locks actor.id now s t
      → Changes locks actor.id now s (insert_lock locks user_name ty target actor stamp fresh t).1
  unfolding insert_lock
  insert_lock-Changes ty target actor now stamp fresh s t cs =
      elim (Option-cases (locks.find t fresh)) [
        | inr (l, e) ↦ rw (e, insert_lock) cs
        | inl e ↦ elim (Option-cases (locks.find_first t (on_target ty target))) [
          | inr (l, f) ↦ rw (e, f, insert_lock) cs
          | inl f ↦
              rw (e, f, insert_lock)
                (next cs (insert (new_lock locks user_name ty target actor stamp fresh) e f))
        ]
      ]

  pub acquire_existing_over :
      (ty : LockTargetType) (target : ℕ) (actor : ActorInfo) (now stamp fresh : ℕ) (l : EditLock)
      (t : locks.Rows)
      → locks.find t l.id ≡ some l
      → ltb now l.expires_at ≡ false
      → acquire_existing locks user_name ty target actor now stamp fresh l t
        ≡ insert_lock locks user_name ty target actor stamp fresh (locks.erase t l.id)
  unfolding acquire_existing
  acquire_existing_over ty target actor now stamp fresh l t e over = ground arith

  pub acquire_existing_own :
      (ty : LockTargetType) (target : ℕ) (actor : ActorInfo) (now stamp fresh : ℕ) (l : EditLock)
      (t : locks.Rows)
      → ltb now l.expires_at ≡ true
      → is_id l.locked_by_user_id actor.id ≡ true
      → acquire_existing locks user_name ty target actor now stamp fresh l t
        ≡ update_heartbeat locks user_name l.id actor stamp t
  unfolding acquire_existing
  acquire_existing_own ty target actor now stamp fresh l t live own = rw (live, own)

  pub acquire_existing_other :
      (ty : LockTargetType) (target : ℕ) (actor : ActorInfo) (now stamp fresh : ℕ) (l : EditLock)
      (t : locks.Rows)
      → ltb now l.expires_at ≡ true
      → is_id l.locked_by_user_id actor.id ≡ false
      → acquire_existing locks user_name ty target actor now stamp fresh l t
        ≡ (err (lock_conflict (holder locks user_name l.locked_by_user_id) l.expires_at), t)
  unfolding acquire_existing
  acquire_existing_other ty target actor now stamp fresh l t live other = rw (live, other)

  acquire_existing-Changes :
      (ty : LockTargetType) (target : ℕ) (actor : ActorInfo) (now stamp fresh : ℕ) (k : ℕ)
      (l : EditLock) (t : locks.Rows)
      → locks.find t l.id ≡ some l
      → Changes locks actor.id now t
          (acquire_existing locks user_name ty target actor now stamp fresh l t).1
  unfolding acquire_existing
  acquire_existing-Changes ty target actor now stamp fresh k l t e =
      elim (Bool-cases (ltb now l.expires_at)) [
        | inl live ↦ elim (Bool-cases (is_id l.locked_by_user_id actor.id)) [
          | inl own ↦ rw (live, own) (update_heartbeat-Changes l.id actor stamp now t)
          | inr other ↦ rw (live, other) done
        ]
        | inr over ↦ rw (acquire_existing_over ty target actor now stamp fresh l t e over) (
            insert_lock-Changes ty target actor now stamp fresh t (locks.erase t l.id)
              (next done (drop l.id l e (inr (ground arith)))))
      ]

  pub acquire_lock-Changes :
      (ty : LockTargetType) (target : ℕ) (actor : ActorInfo) (now stamp fresh : ℕ) (t : locks.Rows)
      → WellFormed locks t
      → Changes locks actor.id now t
          (acquire_lock locks user_name ty target actor now stamp fresh t).1
  unfolding acquire_lock
  acquire_lock-Changes ty target actor now stamp fresh t w =
      elim (Option-cases (locks.find_first t (on_target ty target))) [
        | inl e ↦
            rw (e, acquire_lock) (insert_lock-Changes ty target actor now stamp fresh t t done)
        | inr (l, e) ↦
            rw (e, acquire_lock)
              (let (on, k, f) = locks.find_first-some t (on_target ty target) l e in
                acquire_existing-Changes ty target actor now stamp fresh k l t
                  (subst (λ i. locks.find t i ≡ some l) (sym (w.keyed k l f)) f))
      ]

  release_lock_owner :
      (id : ℕ) (actor : ActorInfo) (l : EditLock) (t : locks.Rows)
      → locks.find t id ≡ some l
      → is_id l.locked_by_user_id actor.id ≡ true
      → (release_lock locks user_name id actor t).1 ≡ locks.erase t id
  unfolding release_lock
  release_lock_owner id actor l t e own = ground arith

  pub release_lock-Changes :
      (id : ℕ) (actor : ActorInfo) (now : ℕ) (t : locks.Rows)
      → Changes locks actor.id now t (release_lock locks user_name id actor t).1
  unfolding release_lock
  release_lock-Changes id actor now t = elim (Option-cases (locks.find t id)) [
    | inl e ↦ rw (e, release_lock) done
    | inr (l, e) ↦ elim (Bool-cases (is_id l.locked_by_user_id actor.id)) [
      | inl own ↦ rw (release_lock_owner id actor l t e own) (next done (drop id l e (inl own)))
      | inr other ↦ rw (e, other, release_lock) done
    ]
  ]

  pub force_release_lem :
      (id : ℕ) (t : locks.Rows)
      → ((force_release locks user_name id t).1 ≡ t)
        ⊎ ((l : EditLock) × (locks.find t id ≡ some l)
            × ((force_release locks user_name id t).1 ≡ locks.erase t id))
  unfolding force_release
  force_release_lem id t = elim (Option-cases (locks.find t id)) [
    | inl e ↦ inl (ground (arith, e))
    | inr (l, e) ↦ inr (l, e, ground (arith, e))
  ]

  pub run_call-WellFormed :
      (c : Call) (t : locks.Rows) → WellFormed locks t → WellFormed locks (run_call c t)
  unfolding run_call process_expired_locks
  run_call-WellFormed (acquires ty target actor now stamp fresh) t w =
      Changes-WellFormed locks (acquire_lock-Changes ty target actor now stamp fresh t w) w
  run_call-WellFormed (beats id actor stamp) t w =
      Changes-WellFormed locks (update_heartbeat-Changes id actor stamp stamp t) w
  run_call-WellFormed (releases id actor now) t w =
      Changes-WellFormed locks (release_lock-Changes id actor now t) w
  run_call-WellFormed (expires now) t w = Change-WellFormed locks {actor = 0} {now = now} purge w
  run_call-WellFormed (forces id) t w = elim (force_release_lem id t) [
    | inl e ↦ rw e w
    | inr (l, f, e) ↦ rw e (
        Change-WellFormed locks {actor = 0} {now = l.expires_at} (drop id l f (inr (omega arith)))
          w)
  ]

  pub run_calls-WellFormed :
      (cs : List Call) (t : locks.Rows) → WellFormed locks t → WellFormed locks (run_calls cs t)
  unfolding run_calls
  run_calls-WellFormed [] t w = w
  run_calls-WellFormed (c ∷ cs) t w =
      run_calls-WellFormed cs (run_call c t) (run_call-WellFormed c t w)
