-- ===== src/EditLock/Tests.antt =====
-- Runs of the lock service on a table in memory, and its theorems at those inputs.
use Prim.Native.String.{String}
use agentest.Shared.{
  ℕ, ◌≡◌, ◌≤◌, refl, List, [], ◌∷◌, Option, none, some, arith, err, lock_conflict, id_rows,
}
use agentest.EditLock.{suite, EditLock, ActorInfo, Locks, acquire_lock, holder}
use agentest.EditLock.Changes.{WellFormed}
use agentest.EditLock.Methods.{Call, acquires, beats, releases, expires, forces, run_calls}
use agentest.EditLock.Exclusion.{acquire_lock-excludes}

abbrev table : Locks
unfolding id_rows
table = id_rows EditLock

abbrev nobody : table.Rows
unfolding id_rows
nobody = record { keys = []; cell = λ k. none }

abbrev names : ℕ → Option String
names u = some "user"

abbrev ann : ActorInfo
ann = record { id = 1; name = "ann" }

abbrev bob : ActorInfo
bob = record { id = 2; name = "bob" }

nobody-WellFormed : WellFormed table nobody
unfolding id_rows
nobody-WellFormed = record { keyed = λ k l h. cc; unique = λ i j l m p q r. cc }

abbrev meddling : List Call
meddling =
    acquires suite 7 bob 5000 5000 11
    ∷ releases 10 bob 6000
    ∷ beats 10 bob 7000
    ∷ expires 8000
    ∷ forces 99
    ∷ []

acquire_lock-excludes_example :
    let u =
      run_calls table names meddling (acquire_lock table names suite 7 ann 1000 1001 10 nobody).1 in
    (e : ℕ) × (acquire_lock table names suite 7 bob 9000 9001 12 u
      ≡ (err (lock_conflict (holder table names (some 1)) e), u))
    × (91001 ≤ e)
unfolding acquire_lock id_rows
acquire_lock-excludes_example =
    acquire_lock-excludes table names suite 7 ann bob 1000 1001 10 9000 9001 12 nobody meddling
      nobody-WellFormed refl (omega arith) (λ e. omega arith) (omega arith)
