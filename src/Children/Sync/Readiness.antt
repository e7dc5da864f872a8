-- ===== src/Children/Sync/Readiness.antt =====
-- The entries and the outline that they ask for, and when a table is ready for them.
use agentest.Shared.{
  ℕ, suc, ◌≡◌, refl, sym, subst, ap, ◌∙◌, inl, inr, true, false, Option, none, some, List, [], ◌∷◌,
  map, arith, ◌==◌, ==_iff, ==_self, includes, every, In, if◌then◌else◌, Bool-cases, Option-cases,
}
use agentest.Children.{Child, Client, child_id}
use agentest.Children.Outline.{Item, numbered}
use agentest.Children.Frames.{Mine}
use agentest.Children.Operations.{has_item}
use agentest.Children.Sync.{Entry, request_ids, child_of}
use agentest.Children.Sync.Writing.{id_or, requested, There, ReadyEntry, Ready}

-- A request needs its ids to be in the outline.
abbrev pub sync_outline : (ℕ → ℕ) → List Entry → List Item → Option (List Item)
sync_outline fresh es xs =
    if every (has_item xs) (request_ids es) then some (requested fresh 0 es) else none

pub child_of-has :
    (rows : List Child) (id : ℕ)
    → includes (map child_id rows) id ≡ true
    → (x : Child) × (child_of rows id ≡ some x)
child_of-has [] id h = absurd (cc h)
child_of-has (r ∷ rs) id h = elim (Bool-cases (r.id == id)) [
  | inl here ↦ (r, rw here refl)
  | inr there ↦ let (x, e) = child_of-has rs id (ground (arith, h, there)) in (x, rw there e)
]

pub child_of-none :
    (rows : List Child) (id : ℕ) → includes (map child_id rows) id ≡ false → child_of rows id ≡ none
child_of-none [] id h = refl
child_of-none (r ∷ rs) id h =
    let rest = child_of-none rs id (ground (arith, h)) in ground (arith, h, rest)

pub every-includes :
    (xs : List Item) (ids : List ℕ) (k : ℕ)
    → every (has_item xs) ids ≡ true
    → includes ids k ≡ true
    → has_item xs k ≡ true
every-includes xs [] k h m = absurd (cc m)
every-includes xs (id ∷ ids) k h m = elim (Bool-cases (id == k)) [
  | inl here ↦ ap (has_item xs) (sym ((==_iff id k).0 here)) ∙ ground (arith, h)
  | inr there ↦ every-includes xs ids k (ground (arith, h)) (ground (arith, m, there))
]

-- The requested ids are ids of the outline that is asked for.
pub request_ids-requested :
    (fresh : ℕ → ℕ) (index : ℕ) (es : List Entry) (k : ℕ)
    → includes (request_ids es) k ≡ true
    → has_item (requested fresh index es) k ≡ true
request_ids-requested fresh index [] k h = absurd (cc h)
request_ids-requested fresh index (e ∷ es) k h = elim (Option-cases e.id) [
  | inl new ↦
      let rest = request_ids-requested fresh (suc index) es k (rw new at h) in ground (arith, rest)
  | inr (id, old) ↦ elim (Bool-cases (id == k)) [
    | inl here ↦ rw (old, here) refl
    | inr there ↦
        let rest = request_ids-requested fresh (suc index) es k (
          let h' : includes (id ∷ request_ids es) k ≡ true = rw old at h in
          ground (arith, h', there)) in
        ground (arith, rest)
  ]
]

module _ (c : Client) where
  open c use {items as I, listing as L}

  -- The table after the deletions is ready for the entries.
  pub Ready-all :
      (t : I.Rows) (case : ℕ) (rows : List Child) (fresh : ℕ → ℕ) (index : ℕ) (es : List Entry)
      → ((id : ℕ) → includes (request_ids es) id ≡ true → There c t case rows id)
      → ((i : ℕ) → I.find t (fresh i) ≡ none)
      → Ready c t case rows fresh index es
  Ready-all t case rows fresh index [] there free = tt
  Ready-all t case rows fresh index (e ∷ es) there free =
      let tail : (id : ℕ) → includes (request_ids es) id ≡ true → There c t case rows id = λ id m.
        there id (elim (Option-cases e.id) [
          | inl new ↦ rw new m
          | inr (j, old) ↦ rw old (ground (arith, m))
        ]) in
      let rest = Ready-all t case rows fresh (suc index) es tail free in
      elim (Option-cases e.id) [
        | inl new ↦ (rw new (free index), rest)
        | inr (id, old) ↦ (rw old (there id (rw old (ground (arith, ==_self id)))), rest)
      ]

  ReadyEntry-Mine :
      (t : I.Rows) (case : ℕ) (rows : List Child) (new : ℕ) (o : Option ℕ)
      → ReadyEntry c t case rows new o
      → Mine c t case (id_or o new)
  ReadyEntry-Mine t case rows new none free r e = absurd (cc (free, e))
  ReadyEntry-Mine t case rows new (some id) there r e =
      let same : there.row ≡ r = cc (there.stored, e) in
      ap (λ y. y.test_case_id) (sym same) ∙ there.case_of

  pub Ready-Mine :
      (t : I.Rows) (case : ℕ) (rows : List Child) (fresh : ℕ → ℕ) (index : ℕ) (es : List Entry)
      → Ready c t case rows fresh index es
      → (r : Child) → In r (numbered case index (requested fresh index es))
      → Mine c t case r.id
  Ready-Mine t case rows fresh index [] ready r m = absurd m
  Ready-Mine t case rows fresh index (e ∷ es) (h, hs) r (inl same) =
      subst (λ k. Mine c t case k) (sym (ap child_id same))
        (ReadyEntry-Mine t case rows (fresh index) e.id h)
  Ready-Mine t case rows fresh index (e ∷ es) (h, hs) r (inr n) =
      Ready-Mine t case rows fresh (suc index) es hs r n
