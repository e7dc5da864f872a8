-- ===== src/Password/Kept.antt =====
-- The users' table, whose ids and emails are unique.
use agentest.Shared.{ℕ, ◌≡◌, inl, inr, none, some, arith, Option-cases}
use agentest.Password.{Auth, User, has_email}

module _ (a : Auth) where
  open a use {users as U}

  -- `id` is the key, and `email` is unique, as the schema says.
  pub record WellKept (t : U.Rows) : Type 0 where
    pub keyed : (k : ℕ) (u : User) → U.find t k ≡ some u → u.id ≡ k
    pub emails :
        (i j : ℕ) (u v : User)
        → U.find t i ≡ some u
        → U.find t j ≡ some v
        → u.email ≡ v.email
        → i ≡ j

  pub WellKept-write :
      (t : U.Rows) (u v : User)
      → WellKept t
      → U.find t u.id ≡ some u
      → v.id ≡ u.id
      → v.email ≡ u.email
      → WellKept (U.write t u.id v)
  WellKept-write t u v w e same_id same_email = record {
    keyed = λ k x h. ground (arith, w.keyed k x, same_id, U.find-write t u.id k v, h);
    emails = λ i j x y h k eq. ground (
      arith,
      w.emails i j x y,
      w.emails u.id j u y,
      w.emails i u.id x u,
      e,
      same_email,
      U.find-write t u.id i v,
      U.find-write t u.id j v,
      h,
      k,
      eq,
    );
  }

  pub find_first-has_email :
      (t : U.Rows) (u : User)
      → WellKept t
      → U.find t u.id ≡ some u
      → u.deleted_at ≡ none
      → U.find_first t (has_email u.email) ≡ some u
  find_first-has_email t u w e live = elim (Option-cases (U.find_first t (has_email u.email))) [
    | inl missing ↦
        absurd (ground (arith, live, U.find_first-none t (has_email u.email) u.id u missing e))
    | inr (v, f) ↦
        let (on, k, g) = U.find_first-some t (has_email u.email) v f in
        let same : k ≡ u.id = w.emails k u.id v u g e (ground (arith, on)) in
        ground (arith, f, g, e, same)
  ]
