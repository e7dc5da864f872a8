-- ===== src/OrderKey/Order.antt =====
-- The order of the keys as texts.
use agentest.Shared.{
  ℕ, zero, suc, ◌+◌, ◌-◌, ◌*◌, ◌/◌, ◌%◌, ◌≡◌, ◌≤◌, ◌<◌, refl, sym, inl, inr, true, List, [], ◌∷◌,
  ◌++◌, ltb, length, All, arith, Bool-cases, ◌∙◌,
}
use agentest.OrderKey.{
  is_digit, digits, decimal, zeros, pad_start, parse_digits, index_to_order_key,
  order_key_pad_length, text_lt,
}
use agentest.OrderKey.RoundTrip.{parse_digits-digits, parse_digits-zeros}

abbrev IsNumeral : List ℕ → Type 0
IsNumeral text = All (λ c. is_digit c ≡ true) text

-- Of two numerals of one length the one with the greater prefix is greater.
parse_digits_mono :
    (a b : ℕ) (xs ys : List ℕ)
    → IsNumeral xs
    → IsNumeral ys
    → length xs ≡ length ys
    → a < b
    → parse_digits a xs < parse_digits b ys
unfolding parse_digits
parse_digits_mono a b [] [] p q e lt = lt
parse_digits_mono a b [] (y ∷ ys) p q e lt = absurd (omega arith)
parse_digits_mono a b (x ∷ xs) [] p q e lt = absurd (omega arith)
parse_digits_mono a b (x ∷ xs) (y ∷ ys) (d, p) (d', q) e lt =
    let le : a * 10 + (x - 48) < b * 10 + (y - 48) = ground (arith, d, d', lt) in
    let rest =
      parse_digits_mono (a * 10 + (x - 48)) (b * 10 + (y - 48)) xs ys p q (omega arith) le in
    ground (arith, d, d', rest)

text_lt-parse_digits :
    (a : ℕ) (xs ys : List ℕ)
    → IsNumeral xs
    → IsNumeral ys
    → length xs ≡ length ys
    → parse_digits a xs < parse_digits a ys
    → text_lt xs ys ≡ true
unfolding parse_digits text_lt
text_lt-parse_digits a [] [] p q e lt = absurd (omega arith)
text_lt-parse_digits a [] (y ∷ ys) p q e lt = refl
text_lt-parse_digits a (x ∷ xs) [] p q e lt = absurd (omega arith)
text_lt-parse_digits a (x ∷ xs) (y ∷ ys) (d, p) (d', q) e lt = elim (Bool-cases (ltb x y)) [
  | inl less ↦ ground (arith, less)
  | inr more ↦ elim (Bool-cases (ltb y x)) [
    | inl greater ↦
        let above : a * 10 + (y - 48) < a * 10 + (x - 48) = ground (arith, d, d', greater) in
        let back =
          parse_digits_mono (a * 10 + (y - 48)) (a * 10 + (x - 48)) ys xs q p (omega arith) above in
        absurd (ground (arith, d, d', lt, back))
    | inr less ↦
        let same : x ≡ y = ground (arith, more, less) in
        let rest = text_lt-parse_digits (a * 10 + (x - 48)) xs ys p q (omega arith) in
        ground (arith, d, d', lt, same, rest)
  ]
]

digits-IsNumeral : (fuel n : ℕ) (rest : List ℕ) → IsNumeral rest → IsNumeral (digits fuel n rest)
unfolding digits
digits-IsNumeral zero n rest h = h
digits-IsNumeral (suc fuel) n rest h = elim (Bool-cases (ltb n 10)) [
  | inl small ↦ rw small (ground (arith, small), h)
  | inr big ↦ rw big (digits-IsNumeral fuel (n / 10) ((48 + n % 10) ∷ rest) (ground (arith), h))
]

zeros-IsNumeral : (k : ℕ) (text : List ℕ) → IsNumeral text → IsNumeral (zeros k ++ text)
zeros-IsNumeral zero text h = h
zeros-IsNumeral (suc k) text h = (refl, zeros-IsNumeral k text h)

-- 10 ^ k
abbrev ten_to : ℕ → ℕ
ten_to zero = 1
ten_to (suc k) = 10 * ten_to k

length-digits :
    (fuel n k : ℕ) (rest : List ℕ)
    → n < ten_to (suc k)
    → length (digits fuel n rest) ≤ suc k + length rest
unfolding digits
length-digits zero n k rest h = omega arith
length-digits (suc fuel) n zero rest h = ground (arith, h)
length-digits (suc fuel) n (suc k) rest h =
    let more = length-digits fuel (n / 10) k ((48 + n % 10) ∷ rest) in ground (arith, h, more)

length-zeros : (k : ℕ) (text : List ℕ) → length (zeros k ++ text) ≡ k + length text
length-zeros zero text = omega arith
length-zeros (suc k) text = let more = length-zeros k text in omega arith

-- A number of at most five digits is padded to five.
record IsPadded (n : ℕ) (text : List ℕ) : Type 0 where
  numeral : IsNumeral text
  five : length text ≡ 5
  value : parse_digits 0 text ≡ n

pad_start-IsPadded : (n : ℕ) → n < 100000 → IsPadded n (pad_start (decimal n))
unfolding decimal parse_digits
pad_start-IsPadded n few =
    let text = digits (suc n) n [] in
    let k = order_key_pad_length - length text in
    let short = length-digits (suc n) n 4 [] few in
    record {
      numeral = zeros-IsNumeral k text (digits-IsNumeral (suc n) n [] tt);
      five = length-zeros k text ∙ omega arith;
      value = parse_digits-zeros k text ∙ parse_digits-digits (suc n) n [] (omega arith);
    }

-- For two indices below 99999 the key of the smaller index is the smaller text.
pub text_lt-index_to_order_key :
    (i j : ℕ) → i < j → j < 99999 → text_lt (index_to_order_key i) (index_to_order_key j) ≡ true
unfolding index_to_order_key
text_lt-index_to_order_key i j lt few =
    let x = pad_start-IsPadded (i + 1) (omega arith) in
    let y = pad_start-IsPadded (j + 1) (omega arith) in
    text_lt-parse_digits 0 (index_to_order_key i) (index_to_order_key j) x.numeral y.numeral
      (x.five ∙ sym y.five) (rw (x.value, y.value) (omega arith))
