-- ===== src/Oauth/Changes.antt =====
-- What the methods may do to the tables of codes and tokens, and predicates on these tables.
use agentest.Shared.{ℕ, ◌≡◌, subst, sym, true, Bool, none, some, is_some, every, includes}
use agentest.Oauth.{Provider, Db, AuthorizationCode, RefreshToken, AccessToken}

module _ (p : Provider) where
  open p use {codes as C, refreshes as R, accesses as T}

  -- The refresh token that the access token names.
  pub record Descends (s : Db p) (t : AccessToken) : Type 0 where
    pub key : ℕ
    pub token : RefreshToken
    pub named : t.refresh_token ≡ some key
    pub stored : R.find s.refreshes key ≡ some token
    pub client : t.client_id ≡ token.client_id
    pub user : t.user_id ≡ token.user_id
    pub audience : t.audience ≡ token.audience
    pub within : every (includes token.scopes) t.scopes ≡ true

  pub data Change (s : Db p) : Db p → Type 0 where
    new_code :
        (k : ℕ) (c : AuthorizationCode)
        → C.find s.codes k ≡ none
        → Change s (record s { codes = C.write s.codes k c })
    use_code :
        (k stamp : ℕ) (c : AuthorizationCode)
        → C.find s.codes k ≡ some c
        → Change s (record s { codes = C.write s.codes k (record c { used_at = some stamp }) })
    new_refresh :
        (k : ℕ) (r : RefreshToken)
        → R.find s.refreshes k ≡ none
        → Change s (record s { refreshes = R.write s.refreshes k r })
    new_access :
        (k : ℕ) (t : AccessToken)
        → T.find s.accesses k ≡ none
        → Descends s t
        → Change s (record s { accesses = T.write s.accesses k t })
    mark_access :
        (k stamp : ℕ) (t : AccessToken)
        → T.find s.accesses k ≡ some t
        → Change s
            (record s { accesses = T.write s.accesses k (record t { revoked_at = some stamp }) })
    mark_refresh :
        (k stamp : ℕ) (r : RefreshToken)
        → R.find s.refreshes k ≡ some r
        → Change s
            (record s { refreshes = R.write s.refreshes k (record r { revoked_at = some stamp }) })
    mark_accesses :
        (q : AccessToken → Bool) (stamp : ℕ)
        → Change s (record s {
          accesses = T.update_many s.accesses q (λ t. record t { revoked_at = some stamp });
        })
    mark_refreshes :
        (q : RefreshToken → Bool) (stamp : ℕ)
        → Change s (record s {
          refreshes = R.update_many s.refreshes q (λ t. record t { revoked_at = some stamp });
        })

  pub data Changes (s : Db p) : Db p → Type 0 where
    done : Changes s s
    next : {t u : Db p} → Changes s t → Change t u → Changes s u

  pub append : {s t u : Db p} → Changes s t → Changes t u → Changes s u
  append cs done = cs
  append cs (next ds d) = next (append cs ds) d

  -- Carries a history over to the state that the code computes.
  pub lands : {s t u : Db p} → Changes s t → u ≡ t → Changes s u
  lands {s} cs e = subst (λ x. Changes s x) (sym e) cs

  pub record IsUsed (s : Db p) (k : ℕ) : Type 0 where
    pub code : AuthorizationCode
    pub stored : C.find s.codes k ≡ some code
    pub used : is_some code.used_at ≡ true

  pub record IsRevoked (s : Db p) (k : ℕ) : Type 0 where
    pub token : AccessToken
    pub stored : T.find s.accesses k ≡ some token
    pub revoked : is_some token.revoked_at ≡ true

  abbrev pub WellLinked : Db p → Type 0
  WellLinked s = (k : ℕ) (t : AccessToken) → T.find s.accesses k ≡ some t → Descends s t
