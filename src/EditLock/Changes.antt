-- ===== src/EditLock/Changes.antt =====
-- The guarded changes of the table of edit locks, those that acquire, heartbeat, release and expiry
-- are made of, and what it means for the table to be well formed: rows stand under their own ids,
-- and a target has one lock at most.
use agentest.Shared.{ℕ, ◌≤◌, ◌≡◌, ◌⊎◌, true, none, some, arith, ltb, is_id}
use agentest.EditLock.{EditLock, Locks, on_target, expiry}

module _ (locks : Locks) where
  pub record WellFormed (t : locks.Rows) : Type 0 where
    pub keyed : (k : ℕ) (l : EditLock) → locks.find t k ≡ some l → l.id ≡ k
    pub unique :
        (i j : ℕ) (l m : EditLock)
        → locks.find t i ≡ some l
        → locks.find t j ≡ some m
        → on_target l.target_type l.target_id m ≡ true
        → i ≡ j

  -- What `actor` may do to the table at the time `now`.
  pub data Change (actor now : ℕ) (t : locks.Rows) : locks.Rows → Type 0 where
    beat :
        (k : ℕ) (l : EditLock) (stamp : ℕ)
        → locks.find t k ≡ some l
        → is_id l.locked_by_user_id actor ≡ true
        → Change actor now t
            (locks.write t k (record l { last_heartbeat = stamp; expires_at = expiry stamp }))
    drop :
        (k : ℕ) (l : EditLock)
        → locks.find t k ≡ some l
        → (is_id l.locked_by_user_id actor ≡ true) ⊎ (l.expires_at ≤ now)
        → Change actor now t (locks.erase t k)
    insert :
        (l : EditLock)
        → locks.find t l.id ≡ none
        → locks.find_first t (on_target l.target_type l.target_id) ≡ none
        → Change actor now t (locks.write t l.id l)
    purge : Change actor now t (locks.delete_many t (λ l. ltb l.expires_at now))

  pub data Changes (actor now : ℕ) (t : locks.Rows) : locks.Rows → Type 0 where
    done : Changes actor now t t
    next : {u v : locks.Rows} → Changes actor now t u → Change actor now u v → Changes actor now t v

  Change-keyed :
      {actor now : ℕ} {t u : locks.Rows}
      → Change actor now t u
      → WellFormed t
      → (k : ℕ) (l : EditLock) → locks.find u k ≡ some l
      → l.id ≡ k
  Change-keyed {t} (beat i m stamp e own) w k l h = ground (
    arith,
    w.keyed i m e,
    w.keyed k l,
    locks.find-write t i k (record m { last_heartbeat = stamp; expires_at = expiry stamp }),
  )
  Change-keyed {t} (drop i m e own) w k l h = ground (arith, w.keyed k l, locks.find-erase t i k)
  Change-keyed {t} (insert m e n) w k l h = ground (arith, w.keyed k l, locks.find-write t m.id k m)
  Change-keyed {now} {t} purge w k l h =
      ground (arith, w.keyed k l, locks.find-delete_many t (λ m. ltb m.expires_at now) k)

  Change-unique :
      {actor now : ℕ} {t u : locks.Rows}
      → Change actor now t u
      → WellFormed t
      → (i j : ℕ) (l m : EditLock) → locks.find u i ≡ some l
      → locks.find u j ≡ some m
      → on_target l.target_type l.target_id m ≡ true
      → i ≡ j
  Change-unique {t} (beat k r stamp e own) w i j l m hi hj on =
      let r' = record r { last_heartbeat = stamp; expires_at = expiry stamp } in
      ground (
        arith,
        w.unique i j l m,
        w.unique k j r m,
        w.unique i k l r,
        locks.find-write t k i r',
        locks.find-write t k j r',
      )
  Change-unique {t} (drop k r e own) w i j l m hi hj on =
      ground (arith, w.unique i j l m, locks.find-erase t k i, locks.find-erase t k j)
  Change-unique {t} (insert r e n) w i j l m hi hj on = ground (
    arith,
    w.unique i j l m,
    locks.find-write t r.id i r,
    locks.find-write t r.id j r,
    locks.find_first-none t (on_target r.target_type r.target_id) j m n,
    locks.find_first-none t (on_target r.target_type r.target_id) i l n,
  )
  Change-unique {now} {t} purge w i j l m hi hj on = ground (
    arith,
    w.unique i j l m,
    locks.find-delete_many t (λ r. ltb r.expires_at now) i,
    locks.find-delete_many t (λ r. ltb r.expires_at now) j,
  )

  pub Change-WellFormed :
      {actor now : ℕ} {t u : locks.Rows} → Change actor now t u → WellFormed t → WellFormed u
  Change-WellFormed c w = record { keyed = Change-keyed c w; unique = Change-unique c w }

  pub Changes-WellFormed :
      {actor now : ℕ} {t u : locks.Rows} → Changes actor now t u → WellFormed t → WellFormed u
  Changes-WellFormed done w = w
  Changes-WellFormed (next cs c) w = Change-WellFormed c (Changes-WellFormed cs w)
