-- ===== src/OrderKey/RoundTrip.antt =====
-- Reading the number of a key back, and the key after a key.
use agentest.Shared.{
  ℕ, zero, suc, ◌+◌, ◌-◌, ◌/◌, ◌%◌, ◌≡◌, ◌<◌, refl, inl, inr, Bool, true, false, none, some, List,
  [], ◌∷◌, ◌++◌, ltb, length, arith, Bool-cases, ◌∙◌, ap,
}
use agentest.OrderKey.{
  is_digit, digits, decimal, zeros, pad_start, parse_digits, parse_int, parse_signed, pos,
  get_next_order_key, index_to_order_key, order_key_pad_length,
}

pub parse_digits-digits :
    (fuel n : ℕ) (rest : List ℕ)
    → n < fuel
    → parse_digits 0 (digits fuel n rest) ≡ parse_digits n rest
unfolding digits parse_digits
parse_digits-digits zero n rest enough = absurd (omega arith)
parse_digits-digits (suc fuel) n rest enough = elim (Bool-cases (ltb n 10)) [
  | inl small ↦ ground (arith, small)
  | inr big ↦
      let more = parse_digits-digits fuel (n / 10) ((48 + n % 10) ∷ rest) in
      ground (arith, big, more)
]

pub parse_digits-zeros :
    (k : ℕ) (text : List ℕ) → parse_digits 0 (zeros k ++ text) ≡ parse_digits 0 text
unfolding parse_digits
parse_digits-zeros zero text = refl
parse_digits-zeros (suc k) text = parse_digits-zeros k text

-- The text starts with a digit.
abbrev leads : List ℕ → Bool
leads [] = false
leads (c ∷ cs) = is_digit c

leads-digits : (fuel n : ℕ) (rest : List ℕ) → n < fuel → leads (digits fuel n rest) ≡ true
unfolding digits
leads-digits zero n rest enough = absurd (omega arith)
leads-digits (suc fuel) n rest enough =
    let more = leads-digits fuel (n / 10) ((48 + n % 10) ∷ rest) in ground (arith, more)

leads-zeros : (k : ℕ) (text : List ℕ) → leads text ≡ true → leads (zeros k ++ text) ≡ true
leads-zeros zero text h = h
leads-zeros (suc k) text h = refl

parse_int-leads : (text : List ℕ) → leads text ≡ true → parse_int text ≡ some (parse_digits 0 text)
unfolding parse_int parse_digits
parse_int-leads [] h = cc
parse_int-leads (c ∷ cs) h = ground (arith, h)

-- No space and no sign stands in front.
parse_signed-leads :
    (text : List ℕ) → leads text ≡ true → parse_signed text ≡ pos (parse_digits 0 text)
unfolding parse_signed parse_int parse_digits
parse_signed-leads [] h = cc
parse_signed-leads (c ∷ cs) h = ground (arith, h)

parse_signed-decimal : (n : ℕ) → parse_signed (pad_start (decimal n)) ≡ pos n
unfolding decimal parse_digits
parse_signed-decimal n =
    let text = digits (suc n) n [] in
    let k = order_key_pad_length - length text in
    parse_signed-leads (zeros k ++ text)
      (leads-zeros k text (leads-digits (suc n) n [] (omega arith)))
    ∙ ap pos (parse_digits-zeros k text ∙ parse_digits-digits (suc n) n [] (omega arith))

parse_int-decimal : (n : ℕ) → parse_int (pad_start (decimal n)) ≡ some n
unfolding decimal parse_digits
parse_int-decimal n =
    let text = digits (suc n) n [] in
    let k = order_key_pad_length - length text in
    parse_int-leads (zeros k ++ text) (leads-zeros k text (leads-digits (suc n) n [] (omega arith)))
    ∙ ap some (parse_digits-zeros k text ∙ parse_digits-digits (suc n) n [] (omega arith))

-- parseInt reads the position, one more than the index, back from the key of any index, and the
-- next key after the key of an index is the key of the next index.
pub get_next_order_key-index_to_order_key :
    (index : ℕ)
    → (parse_int (index_to_order_key index) ≡ some (index + 1))
      × (get_next_order_key (some (index_to_order_key index)) ≡ index_to_order_key (index + 1))
unfolding get_next_order_key index_to_order_key
get_next_order_key-index_to_order_key index =
    (parse_int-decimal (index + 1), rw (parse_signed-decimal (index + 1)) refl)

-- The first key of all.
pub get_next_order_key-none : get_next_order_key none ≡ index_to_order_key 0
unfolding get_next_order_key index_to_order_key decimal digits
get_next_order_key-none = refl
