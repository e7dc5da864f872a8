-- ===== src/Children/Sync/Writing.antt =====
-- The updates and creations for the entries: each writes the row of its place.
use agentest.Shared.{
  ℕ, suc, ◌≡◌, refl, ◌∙◌, inl, inr, true, false, Option, none, some, List, [], ◌∷◌, map, arith,
  ◌==◌, ==_self, includes, In,
}
use agentest.Children.{Child, Client, child_id, all_different}
use agentest.Children.Outline.{Item, item_id}
use agentest.Children.Frames.{Frame, Frame-refl, Frame-trans, write-Frame, Mine, Mine-Frame}
use agentest.Children.Sync.{Entry, child_of}

-- The outline that a list of entries asks for.
abbrev pub id_or : Option ℕ → ℕ → ℕ
id_or none n = n
id_or (some id) n = id

abbrev pub requested : (ℕ → ℕ) → ℕ → List Entry → List Item
requested fresh index [] = []
requested fresh index (e ∷ es) =
    record { id = id_or e.id (fresh index); content = e.content } ∷ requested fresh (suc index) es

module _ (c : Client) where
  open c use {items as I, listing as L}

  abbrev pub put_rows : I.Rows → List Child → I.Rows
  put_rows t [] = t
  put_rows t (r ∷ rs) = put_rows (I.write t r.id r) rs

  pub put_rows-other :
      (t : I.Rows) (rs : List Child) (k : ℕ)
      → includes (map child_id rs) k ≡ false
      → I.find (put_rows t rs) k ≡ I.find t k
  put_rows-other t [] k h = refl
  put_rows-other t (r ∷ rs) k h =
      put_rows-other (I.write t r.id r) rs k (ground (arith, h))
      ∙ ground (arith, h, I.find-write t r.id k r)

  pub put_rows-stored :
      (t : I.Rows) (rs : List Child)
      → all_different (map child_id rs) ≡ true
      → (r : Child) → In r rs
      → I.find (put_rows t rs) r.id ≡ some r
  put_rows-stored t [] d r m = absurd m
  put_rows-stored t (q ∷ rs) d r (inl e) =
      let other = put_rows-other (I.write t q.id q) rs q.id (ground (arith, d)) in
      let here : I.find (I.write t q.id q) q.id ≡ some q =
        ground (arith, ==_self q.id, I.find-write t q.id q.id q) in
      rw e (other ∙ here)
  put_rows-stored t (q ∷ rs) d r (inr n) =
      put_rows-stored (I.write t q.id q) rs (ground (arith, d)) r n

  pub put_rows-Frame :
      (t : I.Rows) (case : ℕ) (rs : List Child)
      → ((r : Child) → In r rs → Mine c t case r.id)
      → ((r : Child) → In r rs → r.test_case_id ≡ case)
      → Frame c case t (put_rows t rs)
  put_rows-Frame t case [] mine on = Frame-refl c case t
  put_rows-Frame t case (r ∷ rs) mine on =
      let f = write-Frame c t case r.id r (mine r (inl refl)) refl (on r (inl refl)) in
      Frame-trans c case t (I.write t r.id r) _ f (
        put_rows-Frame (I.write t r.id r) case rs
          (λ q m. Mine-Frame c t (I.write t r.id r) case q.id f (mine q (inr m)))
          (λ q m. on q (inr m)))

  -- What an entry needs: its child is one of the test case, or its new id is free.
  pub record There (t : I.Rows) (case : ℕ) (existing : List Child) (id : ℕ) : Type 0 where
    pub known : Child
    pub known_at : child_of existing id ≡ some known
    pub row : Child
    pub stored : I.find t id ≡ some row
    pub id_of : row.id ≡ id
    pub case_of : row.test_case_id ≡ case

  abbrev pub ReadyEntry : I.Rows → ℕ → List Child → ℕ → Option ℕ → Type 0
  ReadyEntry t case existing new none = I.find t new ≡ none
  ReadyEntry t case existing new (some id) = There t case existing id

  abbrev pub Ready : I.Rows → ℕ → List Child → (ℕ → ℕ) → ℕ → List Entry → Type 0
  Ready t case existing fresh index [] = Unit
  Ready t case existing fresh index (e ∷ es) =
      ReadyEntry t case existing (fresh index) e.id × Ready t case existing fresh (suc index) es

  ReadyEntry-write :
      (t : I.Rows) (case : ℕ) (existing : List Child) (new : ℕ) (o : Option ℕ) (r : Child)
      → (r.id == id_or o new) ≡ false
      → ReadyEntry t case existing new o
      → ReadyEntry (I.write t r.id r) case existing new o
  ReadyEntry-write t case existing new none r off h =
      ground (arith, off, h, I.find-write t r.id new r)
  ReadyEntry-write t case existing new (some id) r off h = record {
    known = h.known;
    known_at = h.known_at;
    row = h.row;
    stored = ground (arith, off, h.stored, I.find-write t r.id id r);
    id_of = h.id_of;
    case_of = h.case_of;
  }

  pub Ready-write :
      (t : I.Rows) (case : ℕ) (existing : List Child) (fresh : ℕ → ℕ) (index : ℕ) (es : List Entry)
      (r : Child)
      → includes (map item_id (requested fresh index es)) r.id ≡ false
      → Ready t case existing fresh index es
      → Ready (I.write t r.id r) case existing fresh index es
  Ready-write t case existing fresh index [] r off h = tt
  Ready-write t case existing fresh index (e ∷ es) r off (h, hs) =
      let apart : (r.id == id_or e.id (fresh index)) ≡ false = ground (arith, off) in
      (
        ReadyEntry-write t case existing (fresh index) e.id r apart h,
        Ready-write t case existing fresh (suc index) es r (ground (arith, off)) hs,
      )
