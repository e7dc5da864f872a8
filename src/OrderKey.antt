-- ===== src/OrderKey.antt =====
-- apps/api/src/services/test-case-children-base.service.ts: the keys that order the steps,
-- preconditions and expected results of a test case. A text is the list of its character codes.
pub mod RoundTrip
pub mod Order
pub mod Texts
mod Tests
use agentest.Shared.{
  ℕ, zero, suc, ◌+◌, ◌-◌, ◌*◌, ◌/◌, ◌%◌, Bool, true, false, ◌&&◌, Option, none, some, List, [], ◌∷◌,
  ◌++◌, if◌then◌else◌, ltb, leb, length, ◌==◌, ◌||◌,
}

abbrev pub order_key_pad_length : ℕ
order_key_pad_length = 5

-- The text '00001'.
abbrev pub order_key_initial : List ℕ
order_key_initial = 48 ∷ 48 ∷ 48 ∷ 48 ∷ 49 ∷ []

abbrev pub is_digit : ℕ → Bool
is_digit c = leb 48 c && leb c 57

-- The decimal digits of a number before `rest`; `fuel` bounds their count.
pub digits : ℕ → ℕ → List ℕ → List ℕ
digits zero n rest = rest
digits (suc fuel) n rest =
    let more = digits fuel (n / 10) ((48 + n % 10) ∷ rest) in
    if ltb n 10 then (48 + n) ∷ rest else more

-- `${n}`
pub decimal : ℕ → List ℕ
unfolding digits
decimal n = digits (suc n) n []

abbrev pub zeros : ℕ → List ℕ
zeros zero = []
zeros (suc k) = 48 ∷ zeros k

-- `padStart(ORDER_KEY_PAD_LENGTH, '0')`
abbrev pub pad_start : List ℕ → List ℕ
pad_start text = zeros (order_key_pad_length - length text) ++ text

-- `parseInt(text, 10)` behind the spaces and the sign: the number that its leading
-- digits have, or no number.
unfoldable pub parse_digits : ℕ → List ℕ → ℕ
parse_digits value [] = value
parse_digits value (c ∷ cs) =
    let more = parse_digits (value * 10 + (c - 48)) cs in if is_digit c then more else value

unfoldable pub parse_int : List ℕ → Option ℕ
unfolding parse_digits
parse_int [] = none
parse_int (c ∷ cs) = if is_digit c then some (parse_digits (c - 48) cs) else none

-- What `parseInt(text, 10)` reads: no number, or one with a sign.
pub data Parsed : Type 0 where
  nan : Parsed
  neg pos : ℕ → Parsed

abbrev pub signed : (ℕ → Parsed) → Option ℕ → Parsed
signed sign none = nan
signed sign (some n) = sign n

-- `parseInt(text, 10)`: ASCII spaces are skipped, then a sign, then the digits are read.
unfoldable pub parse_signed : List ℕ → Parsed
unfolding parse_int
parse_signed [] = nan
parse_signed (x ∷ xs) =
    let rest = parse_signed xs in
    if x == 32 || (leb 9 x && leb x 13)
    then rest
    else if x == 45
    then signed neg (parse_int xs)
    else if x == 43
    then signed pos (parse_int xs)
    else signed pos (parse_int (x ∷ xs))

-- The text of `num + 1`; the sign 45 is padded like a digit.
next_of : Parsed → List ℕ
unfolding decimal
next_of nan = order_key_initial
next_of (pos n) = pad_start (decimal (n + 1))
next_of (neg zero) = pad_start (decimal 1)
next_of (neg (suc zero)) = pad_start (decimal 0)
next_of (neg (suc (suc n))) = pad_start (45 ∷ decimal (suc n))

pub get_next_order_key : Option (List ℕ) → List ℕ
unfolding next_of parse_signed
get_next_order_key none = order_key_initial
get_next_order_key (some text) = next_of (parse_signed text)

pub index_to_order_key : ℕ → List ℕ
unfolding decimal
index_to_order_key index = pad_start (decimal (index + 1))

-- The order of texts, by which the database sorts the keys.
pub text_lt : List ℕ → List ℕ → Bool
text_lt [] [] = false
text_lt [] (y ∷ ys) = true
text_lt (x ∷ xs) [] = false
text_lt (x ∷ xs) (y ∷ ys) =
    let rest = text_lt xs ys in if ltb x y then true else if ltb y x then false else rest
