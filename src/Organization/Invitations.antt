-- ===== src/Organization/Invitations.antt =====
-- Histories of one invitation.
use agentest.Shared.{
  ℕ, ◌≡◌, inl, inr, true, false, some, List, [], ◌∷◌, arith, is_ok, err, ◌==◌, Option-cases,
  conflict, already_processed,
}
use agentest.Organization.{Invitation, Client, Db, is_open, accept_invitation, decline_invitation}
use agentest.Organization.Changes.{
  Change, post, answer, withdraw, Changes, done, next, WellOwned, Changes-WellOwned,
}
use agentest.Organization.Methods.{stored_of_token, accept_invitation-Changes}
use agentest.Organization.Ownership.{
  Call, run_call, run_calls, run_call-Changes, run_calls-WellOwned,
}

module _ (c : Client) where
  open c use {organizations as O, members as M, invitations as I}

  -- The invitation with the token was accepted or declined.
  pub record Processed (token : ℕ) (s : Db c) : Type 0 where
    pub row : Invitation
    pub stored : I.find s.invitations row.id ≡ some row
    pub on : row.token ≡ token
    pub closed : is_open row ≡ false

  Change-stored :
      {token : ℕ} {s t : Db c}
      → Change c s t
      → (p : Processed token s) → I.find t.invitations p.row.id ≡ some p.row
  Change-stored {s} (post i e n f low o) p =
      ground (arith, p.stored, I.find-write s.invitations i.id p.row.id i)
  Change-stored {s} (answer i a d e o x) p = ground (
    arith,
    p.stored,
    p.closed,
    I.find-write s.invitations i.id p.row.id (record i { accepted_at = a; declined_at = d }),
  )
  Change-stored {s} (withdraw j i e o) p =
      ground (arith, p.stored, p.closed, I.find-erase s.invitations j p.row.id)
  Change-stored _ p = p.stored

  Changes-Processed :
      {token : ℕ} {s t : Db c} → Changes c s t → Processed token s → Processed token t
  Changes-Processed done p = p
  Changes-Processed (next cs ch) p =
      let q = Changes-Processed cs p in
      record { row = q.row; stored = Change-stored ch q; on = q.on; closed = q.closed }

  run_calls-Processed :
      {token : ℕ} (xs : List Call) (s : Db c)
      → WellOwned c s
      → Processed token s
      → Processed token (run_calls c xs s)
  unfolding run_calls
  run_calls-Processed [] s w p = p
  run_calls-Processed (x ∷ xs) s w p =
      let ch = run_call-Changes c x s w in
      run_calls-Processed xs (run_call c x s) (Changes-WellOwned c ch w) (Changes-Processed ch p)

  find_first-Processed :
      {token : ℕ} (s : Db c)
      → WellOwned c s
      → (p : Processed token s) → I.find_first s.invitations (λ i. i.token == token) ≡ some p.row
  find_first-Processed {token} s w p =
      elim (Option-cases (I.find_first s.invitations (λ i. i.token == token))) [
        | inl e ↦ ground (
          arith,
          I.find_first-none s.invitations (λ i. i.token == token) p.row.id p.row e,
          p.stored,
          p.on,
        )
        | inr (i, e) ↦ ground (
          arith,
          e,
          I.find_first-some s.invitations (λ v. v.token == token) i e,
          p.stored,
          p.on,
          stored_of_token c token s w i e,
          w.tokens i.id p.row.id i p.row,
        )
      ]

  accept-Processed :
      (token user now stamp : ℕ) (s : Db c)
      → WellOwned c s
      → is_ok (accept_invitation c token user now stamp s).0 ≡ true
      → Processed token (accept_invitation c token user now stamp s).1
  unfolding accept_invitation
  accept-Processed token user now stamp s w good =
      elim (Option-cases (I.find_first s.invitations (λ i. i.token == token))) [
        | inl e ↦ absurd (ground (arith, e, good))
        | inr (i, e) ↦
            let f = stored_of_token c token s w i e in
            let j = record i { accepted_at = some stamp } in
            record {
              row = j;
              stored = ground (arith, e, f, good, I.find-write s.invitations i.id i.id j);
              on = ground (arith, I.find_first-some s.invitations (λ v. v.token == token) i e);
              closed = ground arith;
            }
      ]

  refused :
      (token user now stamp : ℕ) (s : Db c) {i : Invitation}
      → I.find_first s.invitations (λ v. v.token == token) ≡ some i
      → is_open i ≡ false
      → (accept_invitation c token user now stamp s ≡ (err (conflict already_processed), s))
        × (decline_invitation c token user now stamp s ≡ (err (conflict already_processed), s))
  unfolding accept_invitation decline_invitation
  refused token user now stamp s e shut = (ground (arith, e, shut), ground (arith, e, shut))

  -- From well-owned tables, after an invitation was accepted and after any further calls,
  -- accepting or declining it again, by any user at any time, is refused as already processed
  -- and changes nothing.
  pub accept_invitation-once :
      (token user now stamp : ℕ) (s : Db c) (xs : List Call) (other later stamp' : ℕ)
      → WellOwned c s
      → is_ok (accept_invitation c token user now stamp s).0 ≡ true
      → let t = run_calls c xs (accept_invitation c token user now stamp s).1 in
        (accept_invitation c token other later stamp' t ≡ (err (conflict already_processed), t))
        × (decline_invitation c token other later stamp' t ≡ (err (conflict already_processed), t))
  accept_invitation-once token user now stamp s xs other later stamp' w good =
      let w' = Changes-WellOwned c (accept_invitation-Changes c token user now stamp s w) w in
      let p = run_calls-Processed xs _ w' (accept-Processed token user now stamp s w good) in
      refused token other later stamp' _ (find_first-Processed _ (run_calls-WellOwned c xs _ w') p)
        p.closed
