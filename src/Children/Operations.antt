-- ===== src/Children/Operations.antt =====
-- The operations of the services on the abstract view: an outline is appended to, edited, cut and
-- arranged; what an operation refuses has no outline. `Answers` says that a method does this.
use agentest.Shared.{
  ℕ, ◌≡◌, Bool, true, false, ◌&&◌, Option, none, some, List, [], ◌∷◌, ◌++◌, map, ◌==◌, length,
  every, includes, if◌then◌else◌, Result, is_ok,
}
use agentest.Children.{Client, Db, all_different}
use agentest.Children.Outline.{Item, item_id, Represents}
use agentest.Children.Frames.{Frame}

abbrev pub has_item : List Item → ℕ → Bool
has_item xs id = includes (map item_id xs) id

abbrev pub append : ℕ → ℕ → List Item → List Item
append id content xs = xs ++ record { id = id; content = content } ∷ []

abbrev pub set_content : ℕ → ℕ → Item → Item
set_content id content x = if x.id == id then record x { content = content } else x

abbrev pub edit : ℕ → ℕ → List Item → Option (List Item)
edit id content xs = if has_item xs id then some (map (set_content id content) xs) else none

abbrev pub without : ℕ → List Item → List Item
without id [] = []
without id (x ∷ xs) = let rest = without id xs in if x.id == id then rest else x ∷ rest

abbrev pub cut : ℕ → List Item → Option (List Item)
cut id xs = if has_item xs id then some (without id xs) else none

-- The item with an id.
abbrev pub pick : List Item → ℕ → Item
pick [] id = record { id = id; content = 0 }
pick (x ∷ xs) id = let rest = pick xs id in if x.id == id then x else rest

abbrev pub permutes : List Item → List ℕ → Bool
permutes xs ids =
    all_different ids && (length ids == length xs) && every (includes (map item_id xs)) ids

abbrev pub arrange : List ℕ → List Item → Option (List Item)
arrange ids xs = if permutes xs ids then some (map (pick xs) ids) else none

module _ (c : Client) where
  pub record Change (case : ℕ) (ys : List Item) (s s' : Db c) : Type 0 where
    pub represents : Represents c s'.items case ys
    pub frame : Frame c case s.items s'.items
    pub cases : s'.cases ≡ s.cases

  -- A refused operation throws and leaves the database as it was; another one succeeds and leaves
  -- the new outline.
  abbrev pub Answers : {A : Type 0} → ℕ → Option (List Item) → Db c → Result A × Db c → Type 0
  Answers case none s (r, s') = (is_ok r ≡ false) × (s' ≡ s)
  Answers case (some ys) s (r, s') = (is_ok r ≡ true) × Change case ys s s'
