-- ===== src/Password/Lockout.antt =====
-- Failed logins and the lock of the account.
use agentest.Shared.{
  ℕ, ◌+◌, ◌≡◌, ◌<◌, Bool, refl, sym, subst, false, none, some, List, [], ◌∷◌, All, length, arith,
  err, authentication, account_locked,
}
use agentest.Password.{Auth, Db, User, login, lock_duration, max_failed_attempts}
use agentest.Password.Kept.{WellKept, WellKept-write, find_first-has_email}

-- A login with a password, the clock at its start and when a lock is set, the random token and the
-- answer of the store of two-factor tokens.
pub record Attempt : Type 0 where
  pub password : ℕ
  pub now : ℕ
  pub stamp : ℕ
  pub token : ℕ
  pub stored : Bool

module _ (a : Auth) where
  open a use {users as U}

  unfoldable pub try_all : ℕ → List Attempt → Db a → Db a
  try_all email [] s = s
  try_all email (x ∷ xs) s =
      try_all email xs (login a email x.password x.now x.stamp x.token x.stored s).1

  -- The user's row, in tables that are in order.
  pub record Stands (u : User) (s : Db a) : Type 0 where
    pub kept : WellKept a s.users
    pub stored : U.find s.users u.id ≡ some u
    pub live : u.deleted_at ≡ none

  abbrev pub failed : User → User
  failed u = record u { failed_attempts = u.failed_attempts + 1 }

  abbrev pub barred : User → ℕ → User
  barred u stamp = record u {
    failed_attempts = u.failed_attempts + 1;
    locked_until = some (stamp + lock_duration);
  }

  wrong_password_state :
      (u : User) (h : ℕ) (x : Attempt) (s : Db a)
      → Stands u s
      → u.locked_until ≡ none
      → u.password_hash ≡ some h
      → a.compare x.password h ≡ false
      → u.failed_attempts + 1 < max_failed_attempts
      → (login a u.email x.password x.now x.stamp x.token x.stored s).1
        ≡ record s { users = U.write s.users u.id (failed u) }
  unfolding login
  wrong_password_state u h x s st unlocked hash wrong few = ground (
    arith,
    st.stored,
    unlocked,
    hash,
    wrong,
    few,
    find_first-has_email a s.users u st.kept st.stored st.live,
  )

  fifth_failure_state :
      (u : User) (h : ℕ) (x : Attempt) (s : Db a)
      → Stands u s
      → u.locked_until ≡ none
      → u.password_hash ≡ some h
      → a.compare x.password h ≡ false
      → u.failed_attempts + 1 ≡ max_failed_attempts
      → (login a u.email x.password x.now x.stamp x.token x.stored s).1
        ≡ record s { users = U.write (U.write s.users u.id (failed u)) u.id (barred u x.stamp) }
  unfolding login
  fifth_failure_state u h x s st unlocked hash wrong few = ground (
    arith,
    st.stored,
    unlocked,
    hash,
    wrong,
    few,
    find_first-has_email a s.users u st.kept st.stored st.live,
    U.find-write s.users u.id u.id (failed u),
  )

  Stands-write :
      (u v : User) (s : Db a)
      → Stands u s
      → v.id ≡ u.id
      → v.email ≡ u.email
      → v.deleted_at ≡ none
      → Stands v (record s { users = U.write s.users u.id v })
  Stands-write u v s st same_id same_email live = record {
    kept = WellKept-write a s.users u v st.kept st.stored same_id same_email;
    stored = ground (arith, same_id, U.find-write s.users u.id v.id v);
    live = live;
  }

  barred_lem :
      (u : User) (stamp : ℕ) (later : Attempt) (s : Db a)
      → Stands u s
      → later.now < stamp + lock_duration
      → let t = record s {
        users = U.write (U.write s.users u.id (failed u)) u.id (barred u stamp);
      } in
        login a u.email later.password later.now later.stamp later.token later.stored t
        ≡ (err (authentication account_locked), t)
  unfolding login
  barred_lem u stamp later s st soon =
      let once = Stands-write u (failed u) s st refl refl st.live in
      let twice =
        Stands-write (failed u) (barred u stamp)
          (record s { users = U.write s.users u.id (failed u) }) once refl refl st.live in
      ground (
        arith,
        soon,
        find_first-has_email a (U.write (U.write s.users u.id (failed u)) u.id (barred u stamp))
            (barred u stamp) twice.kept twice.stored st.live,
      )

  -- Every attempt is with a wrong password.
  abbrev pub AllWrong : ℕ → List Attempt → Type 0
  AllWrong h xs = All (λ x. a.compare x.password h ≡ false) xs

  try_all-Stands :
      (u : User) (h : ℕ) (xs : List Attempt) (s : Db a) (n : ℕ)
      → Stands u s
      → u.locked_until ≡ none
      → u.password_hash ≡ some h
      → AllWrong h xs
      → n ≡ length xs + u.failed_attempts
      → n < max_failed_attempts
      → Stands (record u { failed_attempts = n }) (try_all u.email xs s)
  unfolding try_all
  try_all-Stands u h [] s n st unlocked hash wrong count few =
      let same : n ≡ u.failed_attempts = omega arith in
      subst (λ k. Stands (record u { failed_attempts = k }) s) (sym same) st
  try_all-Stands u h (x ∷ xs) s n st unlocked hash (wrong, rest) count few =
      rw (wrong_password_state u h x s st unlocked hash wrong (omega arith)) (
        try_all-Stands (failed u) h xs (record s { users = U.write s.users u.id (failed u) }) n
          (Stands-write u (failed u) s st refl refl st.live) unlocked hash rest (omega arith) few)

  -- From an unlocked account with a password, after logins with wrong passwords that bring the
  -- count of failures to four and one more with a wrong password, every login by its email
  -- before the lock ends, half an hour after the fifth failure was recorded, is refused as
  -- locked and changes nothing, with the right password too; ids and emails of users are
  -- unique.
  pub login-locked :
      (u : User) (h : ℕ) (xs : List Attempt) (x later : Attempt) (s : Db a)
      → Stands u s
      → u.locked_until ≡ none
      → u.password_hash ≡ some h
      → AllWrong h xs
      → a.compare x.password h ≡ false
      → length xs + u.failed_attempts ≡ 4
      → later.now < x.stamp + lock_duration
      → let t = try_all u.email (x ∷ []) (try_all u.email xs s) in
        login a u.email later.password later.now later.stamp later.token later.stored t
        ≡ (err (authentication account_locked), t)
  unfolding try_all
  login-locked u h xs x later s st unlocked hash wrong last count soon =
      let v = record u { failed_attempts = 4 } in
      let r = try_all u.email xs s in
      let sr = try_all-Stands u h xs s 4 st unlocked hash wrong (sym count) (omega arith) in
      rw (fifth_failure_state v h x r sr unlocked hash last refl)
        (barred_lem v x.stamp later r sr soon)
