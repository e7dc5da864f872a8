-- ===== src/EditLock/Exclusion.antt =====
-- A user who holds a lock, and the attempts of others to acquire it.
use agentest.Shared.{
  ℕ, ◌≡◌, ◌≢◌, ◌≤◌, ◌<◌, sym, ap, ◌∙◌, inl, inr, true, Option, some, arith, List, All, is_id,
  is_id-eq, is_id_ne, lt→ltb, Option-cases, ok, err, lock_conflict,
}
use Prim.Native.String.{String}
use agentest.EditLock.{
  LockTargetType, EditLock, ActorInfo, LockInfo, Locks, on_target, expiry, holder, acquire_lock,
}
use agentest.EditLock.Changes.{WellFormed, Changes-WellFormed}
use agentest.EditLock.Methods.{
  Call, run_calls, run_calls-WellFormed, acquire_lock-Changes, acquire_existing_other,
}
use agentest.EditLock.Held.{Held, Harmless, run_calls-Held, acquire_lock-Held}

module _ (locks : Locks) (user_name : ℕ → Option String) where
  same_target :
      (ty : LockTargetType) (target : ℕ) (l m : EditLock)
      → on_target ty target l ≡ true
      → on_target ty target m ≡ true
      → on_target l.target_type l.target_id m ≡ true
  same_target ty target l m p q = ground arith

  -- While a lock is held, the search for the target's lock finds it.
  find_first-Held :
      {u : ℕ} {ty : LockTargetType} {target until key : ℕ} (t : locks.Rows)
      → WellFormed locks t
      → (h : Held locks u ty target until key t)
      → locks.find_first t (on_target ty target) ≡ some h.lock
  find_first-Held {ty} {target} {key} t w h =
      elim (Option-cases (locks.find_first t (on_target ty target))) [
        | inl e ↦ cc (locks.find_first-none t (on_target ty target) key h.lock e h.stored, h.on)
        | inr (l, e) ↦
            let (on, k, f) = locks.find_first-some t (on_target ty target) l e in
            let same : key ≡ k =
              w.unique key k h.lock l h.stored f (same_target ty target h.lock l h.on on) in
            e ∙ sym f ∙ ap (locks.find t) (sym same) ∙ h.stored
      ]

  Held-conflict :
      {u : ℕ} {ty : LockTargetType} {target until key : ℕ} (actor : ActorInfo) (now stamp fresh : ℕ)
      (t : locks.Rows)
      → WellFormed locks t
      → (h : Held locks u ty target until key t) → actor.id ≢ u
      → now < until
      → acquire_lock locks user_name ty target actor now stamp fresh t
        ≡ (err (lock_conflict (holder locks user_name (some u)) h.lock.expires_at), t)
  unfolding acquire_lock
  Held-conflict {u} {ty} {target} actor now stamp fresh t w h ne lt =
      let mine = is_id-eq h.lock.locked_by_user_id u h.owned in
      rw (find_first-Held t w h, acquire_lock)
        (acquire_existing_other locks user_name ty target actor now stamp fresh h.lock t
            (omega (arith, lt→ltb now h.lock.expires_at, h.live))
            (ap (λ o. is_id o actor.id) mine ∙ is_id_ne u actor.id (λ e. ne (sym e)))
          ∙ ap (λ o. (err (lock_conflict (holder locks user_name o) h.lock.expires_at), t)) mine)

  -- After a user was granted the lock of a target with the new expiry stamp + 90000, and any
  -- further calls before that expiry by other users or by the cleanup timer, and any forced
  -- releases of other locks, an attempt of another user to acquire the target before that
  -- expiry is refused with a lock conflict that names the holder and an expiry not before that
  -- one, and changes nothing.
  pub acquire_lock-excludes :
      (ty : LockTargetType) (target : ℕ) (actor other : ActorInfo)
      (now stamp fresh later stamp' fresh' : ℕ) (t : locks.Rows) (cs : List Call) {info : LockInfo}
      → WellFormed locks t
      → (acquire_lock locks user_name ty target actor now stamp fresh t).0 ≡ ok info
      → All (Harmless actor.id (expiry stamp) info.id) cs
      → other.id ≢ actor.id
      → later < expiry stamp
      → let u =
          run_calls locks user_name cs
            (acquire_lock locks user_name ty target actor now stamp fresh t).1 in
        (e : ℕ) × (acquire_lock locks user_name ty target other later stamp' fresh' u
          ≡ (err (lock_conflict (holder locks user_name (some actor.id)) e), u))
        × (expiry stamp ≤ e)
  acquire_lock-excludes ty target actor other now stamp fresh later stamp' fresh' t cs w got o ne
        lt =
      let fst = acquire_lock-Held locks user_name ty target actor now stamp fresh t w got in
      let w' =
        Changes-WellFormed locks
          (acquire_lock-Changes locks user_name ty target actor now stamp fresh t w) w in
      let h = run_calls-Held locks user_name cs _ w' o fst in
      (
        h.lock.expires_at,
        Held-conflict other later stamp' fresh' _ (run_calls-WellFormed locks user_name cs _ w') h
            ne lt,
        h.live,
      )
