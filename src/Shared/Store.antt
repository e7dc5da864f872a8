-- ===== src/Shared/Store.antt =====
-- The interface to the database client: what the services rely on of one Prisma delegate. The
-- client is no code of the repository, so every service is generic in it; Shared/Memory has
-- an instance.
use mathlib.Core.Path.{◌≡◌}
use mathlib.Core.Bool.{Bool, true, false, ◌||◌}
use mathlib.Core.Option
use mathlib.Core.Option.{Option, none, some}
use agentest.Shared.Tests.{if◌then◌else◌, is_some}
use agentest.Shared.Errors.{unique_violation, record_missing}
use agentest.Shared.Monad.{Exec, ok, err}

abbrev pub keep_if {ℓ} : {R : Type ℓ} → (R → Bool) → Option R → Option R
keep_if p none = none
keep_if p (some r) = if p r then some r else none

abbrev pub not_that {ℓ} : {R : Type ℓ} → (R → Bool) → R → Bool
not_that p r = if p r then false else true

-- `Rows` is the content of a table whose rows have a unique key in `K`; `same` compares keys.
-- `find` is `findUnique`; `write` and `erase` are what `create`, `update` and `delete` do once
-- the row was seen to be absent or present; `find_first` is `findFirst`; `update_many` and
-- `delete_many` are named alike.
pub record Delegate (K R : Type 0) (same : K → K → Bool) : Type 1 where
  pub Rows : Type 0
  pub find : Rows → K → Option R
  pub write : Rows → K → R → Rows
  pub erase : Rows → K → Rows
  pub find_first : Rows → (R → Bool) → Option R
  pub update_many : Rows → (R → Bool) → (R → R) → Rows
  pub delete_many : Rows → (R → Bool) → Rows
  pub find-write :
      (t : Rows) (k j : K) (r : R) → find (write t k r) j ≡ (if same k j then some r else find t j)
  pub find-erase : (t : Rows) (k j : K) → find (erase t k) j ≡ (if same k j then none else find t j)
  pub find_first-some :
      (t : Rows) (p : R → Bool) (r : R)
      → find_first t p ≡ some r
      → (p r ≡ true) × (k : K) × (find t k ≡ some r)
  pub find_first-none :
      (t : Rows) (p : R → Bool) (k : K) (r : R)
      → find_first t p ≡ none
      → find t k ≡ some r
      → p r ≡ false
  pub find-update_many :
      (t : Rows) (p : R → Bool) (f : R → R) (k : K)
      → find (update_many t p f) k ≡ Option.map (λ r. if p r then f r else r) (find t k)
  pub find-delete_many :
      (t : Rows) (p : R → Bool) (k : K) → find (delete_many t p) k ≡ keep_if (not_that p) (find t k)

-- The operations of a delegate on the table that `get` and `put` reach in the state `S`.
module _ {K R S : Type 0} {same : K → K → Bool} (d : Delegate K R same) (get : S → d.Rows)
    (put : S → d.Rows → S) where
  abbrev pub find_unique : K → Exec S (Option R)
  find_unique k s = (ok (d.find (get s) k), s)

  abbrev pub find_where : (R → Bool) → Exec S (Option R)
  find_where p s = (ok (d.find_first (get s) p), s)

  -- A unique index is violated if the key is taken or if a row satisfies `clashes`.
  abbrev pub create : K → (R → Bool) → R → Exec S R
  create k clashes r s =
      if is_some (d.find (get s) k) || is_some (d.find_first (get s) clashes)
      then (err unique_violation, s)
      else (ok r, put s (d.write (get s) k r))

  abbrev pub update : K → (R → R) → Exec S R
  update k f s = elim (d.find (get s) k) [
    | none ↦ (err record_missing, s)
    | some r ↦ (ok (f r), put s (d.write (get s) k (f r)))
  ]

  abbrev pub delete : K → Exec S R
  delete k s = elim (d.find (get s) k) [
    | none ↦ (err record_missing, s)
    | some r ↦ (ok r, put s (d.erase (get s) k))
  ]

  abbrev pub update_all : (R → Bool) → (R → R) → Exec S (Unit {0})
  update_all p f s = (ok tt, put s (d.update_many (get s) p f))

  abbrev pub delete_all : (R → Bool) → Exec S (Unit {0})
  delete_all p s = (ok tt, put s (d.delete_many (get s) p))
