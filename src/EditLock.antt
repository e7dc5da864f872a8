-- ===== src/EditLock.antt =====
-- apps/api/src/services/edit-lock.service.ts over apps/api/src/repositories/edit-lock.repository.ts.
-- Ids are numbers; times are milliseconds. `now` is the reading of the
-- clock for the test of the expiry, `stamp` stands for those that write the new times; `fresh` is the
-- id that the database gives a new row.
pub mod Changes
pub mod Methods
pub mod Held
pub mod Exclusion
mod Tests
use agentest.Shared.{
  ℕ, ◌+◌, ◌*◌, Bool, true, false, ◌&&◌, Option, none, some, if◌then◌else◌, leb, ltb, ◌==◌, is_id,
  Delegate, Exec, pure, throw, guard, or_throw, ◌>>=◌, ◌>>◌, find_unique, find_where, create,
  update, delete, delete_all, authorization, not_found, lock_conflict, not_lock_owner, edit_lock,
  LockHolder,
}
use Prim.Native.String.{String}

pub data LockTargetType : Type 0 where
  suite case : LockTargetType

abbrev pub same_type : LockTargetType → LockTargetType → Bool
same_type suite suite = true
same_type case case = true
same_type suite case = false
same_type case suite = false

pub record EditLock : Type 0 where
  pub id : ℕ
  pub target_type : LockTargetType
  pub target_id : ℕ
  pub locked_by_user_id : Option ℕ
  pub locked_at : ℕ
  pub last_heartbeat : ℕ
  pub expires_at : ℕ

pub record ActorInfo : Type 0 where
  pub id : ℕ
  pub name : String

pub record LockInfo : Type 0 where
  pub id : ℕ
  pub target_type : LockTargetType
  pub target_id : ℕ
  pub locked_by : LockHolder
  pub expires_at : ℕ

abbrev pub lock_duration_seconds : ℕ
lock_duration_seconds = 90

abbrev pub heartbeat_interval_seconds : ℕ
heartbeat_interval_seconds = 30

abbrev pub expiry : ℕ → ℕ
expiry stamp = stamp + lock_duration_seconds * 1000

abbrev pub on_target : LockTargetType → ℕ → EditLock → Bool
on_target ty target l = same_type l.target_type ty && l.target_id == target

abbrev pub Locks : Type 1
Locks = Delegate ℕ EditLock ◌==◌

-- `user_name` is the `lockedBy` relation: the name of a user.
module _ (locks : Locks) (user_name : ℕ → Option String) where
  abbrev pub Db : Type 0
  Db = locks.Rows

  abbrev at : Db → Db
  at s = s

  abbrev to : Db → Db → Db
  to s t = t

  -- The repository.
  find_by_target : LockTargetType → ℕ → Exec Db (Option EditLock)
  find_by_target ty target = find_where locks at to (on_target ty target)

  find_by_id : ℕ → Exec Db (Option EditLock)
  find_by_id id = find_unique locks at to id

  create_lock : EditLock → Exec Db EditLock
  create_lock l = create locks at to l.id (on_target l.target_type l.target_id) l

  repo_heartbeat : ℕ → ℕ → ℕ → Exec Db EditLock
  repo_heartbeat id beat expires =
      update locks at to id (λ l. record l { last_heartbeat = beat; expires_at = expires })

  repo_delete : ℕ → Exec Db EditLock
  repo_delete id = delete locks at to id

  repo_delete_expired : ℕ → Exec Db (Unit {0})
  repo_delete_expired now = delete_all locks at to (λ l. ltb l.expires_at now)

  -- `lock.lockedBy?.name ?? 'Unknown'`
  holder_name : Option ℕ → String
  holder_name none = "Unknown"
  holder_name (some u) = elim (user_name u) [ none ↦ "Unknown" | some n ↦ n ]

  -- `lockedByUserId!`: the column is nullable, and the service creates no row without it.
  pub holder : Option ℕ → LockHolder
  unfolding holder_name
  holder none = record { id = 0; name = holder_name none }
  holder (some u) = record { id = u; name = holder_name (some u) }

  to_lock_info : EditLock → LockInfo
  unfolding holder
  to_lock_info l = record {
    id = l.id;
    target_type = l.target_type;
    target_id = l.target_id;
    locked_by = holder l.locked_by_user_id;
    expires_at = l.expires_at;
  }

  -- `stamp` is read for `lastHeartbeat` and for the new expiry.
  pub update_heartbeat : ℕ → ActorInfo → ℕ → Exec Db LockInfo
  unfolding find_by_id repo_heartbeat to_lock_info
  update_heartbeat id actor stamp = do
    found ← find_by_id id
    l ← or_throw found (not_found edit_lock)
    guard (is_id l.locked_by_user_id actor.id) (authorization not_lock_owner)
    updated ← repo_heartbeat id stamp (expiry stamp)
    pure (to_lock_info updated)

  pub new_lock : LockTargetType → ℕ → ActorInfo → ℕ → ℕ → EditLock
  new_lock ty target actor stamp fresh = record {
    id = fresh;
    target_type = ty;
    target_id = target;
    locked_by_user_id = some actor.id;
    locked_at = stamp;
    last_heartbeat = stamp;
    expires_at = expiry stamp;
  }

  pub insert_lock : LockTargetType → ℕ → ActorInfo → ℕ → ℕ → Exec Db LockInfo
  unfolding create_lock new_lock to_lock_info
  insert_lock ty target actor stamp fresh = do
    l ← create_lock (new_lock ty target actor stamp fresh)
    pure (to_lock_info l)

  -- The branch of `acquireLock` for a row that is there.
  pub acquire_existing : LockTargetType → ℕ → ActorInfo → ℕ → ℕ → ℕ → EditLock → Exec Db LockInfo
  unfolding insert_lock repo_delete holder update_heartbeat
  acquire_existing ty target actor now stamp fresh l =
      if ltb now l.expires_at
      then if is_id l.locked_by_user_id actor.id
        then update_heartbeat l.id actor stamp
        else throw (lock_conflict (holder l.locked_by_user_id) l.expires_at)
      else repo_delete l.id >>= λ _. insert_lock ty target actor stamp fresh

  acquire_found : LockTargetType → ℕ → ActorInfo → ℕ → ℕ → ℕ → Option EditLock → Exec Db LockInfo
  unfolding acquire_existing insert_lock
  acquire_found ty target actor now stamp fresh none = insert_lock ty target actor stamp fresh
  acquire_found ty target actor now stamp fresh (some l) =
      acquire_existing ty target actor now stamp fresh l

  pub acquire_lock : LockTargetType → ℕ → ActorInfo → ℕ → ℕ → ℕ → Exec Db LockInfo
  unfolding find_by_target acquire_found
  acquire_lock ty target actor now stamp fresh = do
    existing ← find_by_target ty target
    acquire_found ty target actor now stamp fresh existing

  lock_status : ℕ → Option EditLock → Option LockInfo
  unfolding to_lock_info
  lock_status now none = none
  lock_status now (some l) = if leb l.expires_at now then none else some (to_lock_info l)

  -- `none` is `{ isLocked: false, lock: null }`.
  pub get_lock_status : LockTargetType → ℕ → ℕ → Exec Db (Option LockInfo)
  unfolding find_by_target lock_status
  get_lock_status ty target now = do found ← find_by_target ty target; pure (lock_status now found)

  release_found : ℕ → ActorInfo → Option EditLock → Exec Db (Unit {0})
  unfolding repo_delete
  release_found id actor none = pure tt
  release_found id actor (some l) = do
    guard (is_id l.locked_by_user_id actor.id) (authorization not_lock_owner)
    _ ← repo_delete id
    pure tt

  pub release_lock : ℕ → ActorInfo → Exec Db (Unit {0})
  unfolding find_by_id release_found
  release_lock id actor = do found ← find_by_id id; release_found id actor found

  force_found : ℕ → Option EditLock → Exec Db (Option EditLock)
  unfolding repo_delete
  force_found id none = pure none
  force_found id (some l) = do _ ← repo_delete id; pure (some l)

  pub force_release : ℕ → Exec Db (Option EditLock)
  unfolding find_by_id force_found
  force_release id = do found ← find_by_id id; force_found id found

  -- The deletion; the list of locks that the method also returns only feeds the notifications.
  pub process_expired_locks : ℕ → Exec Db (Unit {0})
  unfolding repo_delete_expired
  process_expired_locks now = repo_delete_expired now
