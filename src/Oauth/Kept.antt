-- ===== src/Oauth/Kept.antt =====
-- What stays true of the tables of codes and tokens.
use agentest.Shared.{
  ℕ, ◌≡◌, subst, sym, Option, some, arith, Bool-cases, Option-cases, inl, inr, refl, ◌==◌,
}
use agentest.Oauth.{Provider, Db, AccessToken}
use agentest.Oauth.Changes.{
  Descends, Change, new_code, use_code, new_refresh, new_access, mark_access, mark_refresh,
  mark_accesses, mark_refreshes, Changes, done, next, IsUsed, IsRevoked, WellLinked,
}

module _ (p : Provider) where
  open p use {codes as C, refreshes as R, accesses as T}

  Change-IsUsed : {s t : Db p} {k : ℕ} → Change p s t → IsUsed p s k → IsUsed p t k
  Change-IsUsed {s} {k} (new_code j c e) u = record {
    code = u.code;
    stored = ground (arith, e, u.stored, C.find-write s.codes j k c);
    used = u.used;
  }
  Change-IsUsed {s} {k} (use_code j stamp c e) u = elim (Bool-cases (j == k)) [
    | inl same ↦ record {
      code = record c { used_at = some stamp };
      stored = ground (arith, same, C.find-write s.codes j k (record c { used_at = some stamp }));
      used = refl;
    }
    | inr other ↦ record {
      code = u.code;
      stored =
          ground
            (arith, other, u.stored, C.find-write s.codes j k (record c { used_at = some stamp }));
      used = u.used;
    }
  ]
  Change-IsUsed _ u = record { code = u.code; stored = u.stored; used = u.used }

  Change-IsRevoked : {s t : Db p} {k : ℕ} → Change p s t → IsRevoked p s k → IsRevoked p t k
  Change-IsRevoked {s} {k} (new_access j t e d) u = record {
    token = u.token;
    stored = ground (arith, e, u.stored, T.find-write s.accesses j k t);
    revoked = u.revoked;
  }
  Change-IsRevoked {s} {k} (mark_access j stamp t e) u = elim (Bool-cases (j == k)) [
    | inl same ↦ record {
      token = record t { revoked_at = some stamp };
      stored =
          ground (arith, same, T.find-write s.accesses j k (record t { revoked_at = some stamp }));
      revoked = refl;
    }
    | inr other ↦ record {
      token = u.token;
      stored = ground (
        arith,
        other,
        u.stored,
        T.find-write s.accesses j k (record t { revoked_at = some stamp }),
      );
      revoked = u.revoked;
    }
  ]
  Change-IsRevoked {s} {k} (mark_accesses q stamp) u = elim (Bool-cases (q u.token)) [
    | inl hit ↦ record {
      token = record u.token { revoked_at = some stamp };
      stored = ground (
        arith,
        hit,
        u.stored,
        T.find-update_many s.accesses q (λ t. record t { revoked_at = some stamp }) k,
      );
      revoked = refl;
    }
    | inr miss ↦ record {
      token = u.token;
      stored = ground (
        arith,
        miss,
        u.stored,
        T.find-update_many s.accesses q (λ t. record t { revoked_at = some stamp }) k,
      );
      revoked = u.revoked;
    }
  ]
  Change-IsRevoked _ u = record { token = u.token; stored = u.stored; revoked = u.revoked }

  -- The descent stands as long as the refresh token changes in nothing but its revocation.
  Descends-remark :
      {s t : Db p} {a : AccessToken} (d : Descends p s a) (x : Option ℕ)
      → R.find t.refreshes d.key ≡ some (record d.token { revoked_at = x })
      → Descends p t a
  Descends-remark d x e = record {
    key = d.key;
    token = record d.token { revoked_at = x };
    named = d.named;
    stored = e;
    client = d.client;
    user = d.user;
    audience = d.audience;
    within = d.within;
  }

  Change-Descends : {s t : Db p} {a : AccessToken} → Change p s t → Descends p s a → Descends p t a
  Change-Descends {s} (new_refresh j r e) d =
      Descends-remark d d.token.revoked_at
        (ground (arith, e, d.stored, R.find-write s.refreshes j d.key r))
  Change-Descends {s} (mark_refresh j stamp r e) d = elim (Bool-cases (j == d.key)) [
    | inl same ↦ Descends-remark d (some stamp) (
        ground (
          arith,
          same,
          e,
          d.stored,
          R.find-write s.refreshes j d.key (record r { revoked_at = some stamp }),
        ))
    | inr other ↦ Descends-remark d d.token.revoked_at (
        ground (
          arith,
          other,
          e,
          d.stored,
          R.find-write s.refreshes j d.key (record r { revoked_at = some stamp }),
        ))
  ]
  Change-Descends {s} (mark_refreshes q stamp) d = elim (Bool-cases (q d.token)) [
    | inl hit ↦ Descends-remark d (some stamp) (
        ground (
          arith,
          hit,
          d.stored,
          R.find-update_many s.refreshes q (λ r. record r { revoked_at = some stamp }) d.key,
        ))
    | inr miss ↦ Descends-remark d d.token.revoked_at (
        ground (
          arith,
          miss,
          d.stored,
          R.find-update_many s.refreshes q (λ r. record r { revoked_at = some stamp }) d.key,
        ))
  ]
  Change-Descends _ d = Descends-remark d d.token.revoked_at d.stored

  Descends-reissue :
      {s : Db p} {a b : AccessToken} (x : Option ℕ)
      → b ≡ record a { revoked_at = x }
      → Descends p s a
      → Descends p s b
  Descends-reissue {s} x e d =
      subst (λ b. Descends p s b) (sym e)
        (record {
          key = d.key;
          token = d.token;
          named = d.named;
          stored = d.stored;
          client = d.client;
          user = d.user;
          audience = d.audience;
          within = d.within;
        })

  -- An access token of the tables after a change descends from a refresh token before it.
  Change-source :
      {s t : Db p}
      → Change p s t
      → WellLinked p s
      → (k : ℕ) (a : AccessToken) → T.find t.accesses k ≡ some a
      → Descends p s a
  Change-source {s} (new_access j b e d) w k a h = elim (Bool-cases (j == k)) [
    | inl same ↦
        Descends-reissue b.revoked_at (ground (arith, same, h, T.find-write s.accesses j k b)) d
    | inr other ↦ w k a (ground (arith, other, h, T.find-write s.accesses j k b))
  ]
  Change-source {s} (mark_access j stamp b e) w k a h =
      let f = T.find-write s.accesses j k (record b { revoked_at = some stamp }) in
      elim (Bool-cases (j == k)) [
        | inl same ↦ Descends-reissue (some stamp) (ground (arith, same, h, f)) (w j b e)
        | inr other ↦ w k a (ground (arith, other, h, f))
      ]
  Change-source {s} (mark_accesses q stamp) w k a h =
      let f = T.find-update_many s.accesses q (λ t. record t { revoked_at = some stamp }) k in
      elim (Option-cases (T.find s.accesses k)) [
        | inl none_ ↦ absurd (ground (arith, none_, h, f))
        | inr (b, e) ↦ elim (Bool-cases (q b)) [
          | inl hit ↦ Descends-reissue (some stamp) (ground (arith, hit, e, h, f)) (w k b e)
          | inr miss ↦ Descends-reissue b.revoked_at (ground (arith, miss, e, h, f)) (w k b e)
        ]
      ]
  Change-source c w k a h = w k a h

  Change-WellLinked : {s t : Db p} → Change p s t → WellLinked p s → WellLinked p t
  Change-WellLinked c w k a h = Change-Descends c (Change-source c w k a h)

  pub Changes-WellLinked : {s t : Db p} → Changes p s t → WellLinked p s → WellLinked p t
  Changes-WellLinked done w = w
  Changes-WellLinked (next cs c) w = Change-WellLinked c (Changes-WellLinked cs w)

  pub Changes-IsUsed : {s t : Db p} {k : ℕ} → Changes p s t → IsUsed p s k → IsUsed p t k
  Changes-IsUsed done u = u
  Changes-IsUsed (next cs c) u = Change-IsUsed c (Changes-IsUsed cs u)

  pub Changes-IsRevoked : {s t : Db p} {k : ℕ} → Changes p s t → IsRevoked p s k → IsRevoked p t k
  Changes-IsRevoked done u = u
  Changes-IsRevoked (next cs c) u = Change-IsRevoked c (Changes-IsRevoked cs u)
