-- ===== src/OrderKey/Texts.antt =====
-- Laws of the order of texts.
use agentest.Shared.{ℕ, ◌≡◌, refl, true, false, List, [], ◌∷◌, arith}
use agentest.OrderKey.{text_lt}

pub text_lt_irrefl : (x : List ℕ) → text_lt x x ≡ false
unfolding text_lt
text_lt_irrefl [] = refl
text_lt_irrefl (x ∷ xs) = ground (arith, text_lt_irrefl xs)

pub text_lt_asym : (x y : List ℕ) → text_lt x y ≡ true → text_lt y x ≡ false
unfolding text_lt
text_lt_asym [] [] h = refl
text_lt_asym [] (y ∷ ys) h = refl
text_lt_asym (x ∷ xs) [] h = cc
text_lt_asym (x ∷ xs) (y ∷ ys) h = let rest = text_lt_asym xs ys in ground (arith, h, rest)

pub text_lt_negative :
    (x y z : List ℕ) → text_lt x y ≡ false → text_lt y z ≡ false → text_lt x z ≡ false
unfolding text_lt
text_lt_negative [] [] z h k = k
text_lt_negative [] (y ∷ ys) z h k = cc
text_lt_negative (x ∷ xs) y [] h k = refl
text_lt_negative (x ∷ xs) [] (z ∷ zs) h k = cc
text_lt_negative (x ∷ xs) (y ∷ ys) (z ∷ zs) h k =
    let rest = text_lt_negative xs ys zs in ground (arith, h, k, rest)
