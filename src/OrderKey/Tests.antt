-- ===== src/OrderKey/Tests.antt =====
-- Keys of single indices.
use agentest.Shared.{◌≡◌, refl, true, some, arith}
use agentest.OrderKey.{
  index_to_order_key, get_next_order_key, parse_int, text_lt, order_key_initial,
}
use agentest.OrderKey.RoundTrip.{get_next_order_key-index_to_order_key}
use agentest.OrderKey.Order.{text_lt-index_to_order_key}

get_next_order_key-index_to_order_key_example :
    (parse_int (index_to_order_key 41) ≡ some 42)
    × (get_next_order_key (some (index_to_order_key 41)) ≡ index_to_order_key 42)
get_next_order_key-index_to_order_key_example = get_next_order_key-index_to_order_key 41

text_lt-index_to_order_key_example : text_lt (index_to_order_key 8) (index_to_order_key 9) ≡ true
text_lt-index_to_order_key_example = text_lt-index_to_order_key 8 9 (ground arith) (ground arith)

first_key : index_to_order_key 0 ≡ order_key_initial
unfolding index_to_order_key
first_key = refl

-- The bound on the indices is the best: "100000" is a smaller text than "99999".
key_of_100000 : text_lt (index_to_order_key 99999) (index_to_order_key 99998) ≡ true
unfolding index_to_order_key text_lt
key_of_100000 = refl
