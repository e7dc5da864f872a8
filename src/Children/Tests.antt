-- ===== src/Children/Tests.antt =====
-- Two children of a test case added, swapped and one of them deleted, on tables in memory.
use agentest.Shared.{
  ℕ, Bool, ◌≡◌, refl, true, false, none, some, List, [], ◌∷◌, arith, ◌==◌, id_rows, id_listing,
  step, ok,
}
use agentest.OrderKey.Texts.{text_lt_irrefl, text_lt_asym, text_lt_negative}
use agentest.Children.{TestCase, Child, Client, Db, child_id, by_key, get_children}
use agentest.Children.Outline.{numbered}
use agentest.Children.Refinement.{
  Call, add_call, update_call, delete_call, reorder_call, Outlines, spec_calls, Fit, Models,
  perform_all, perform_all-spec_calls, get_children-outline,
}

abbrev pub client : Client
unfolding id_rows id_listing
client = record {
  cases = id_rows TestCase;
  items = id_rows Child;
  listing =
      id_listing by_key child_id (λ x. text_lt_irrefl x.order_key)
        (λ x y. text_lt_asym x.order_key y.order_key)
        (λ x y z. text_lt_negative x.order_key y.order_key z.order_key);
}

abbrev pub sign_in : TestCase
sign_in = record {
  id = 1;
  test_suite_id = 2;
  title = 3;
  description = none;
  priority = 1;
  status = 0;
  deleted_at = none;
}

-- One test case, no children.
abbrev pub start : Db client
unfolding id_rows id_listing
start = record {
  cases = record { keys = 1 ∷ []; cell = λ k. some sign_in };
  items = record { keys = []; cell = λ k. none };
  history = [];
}

abbrev pub live : ℕ → Bool
live k = 1 == k

abbrev pub no_children : Outlines
no_children k = []

pub start-Models : Models client live start no_children
unfolding id_rows id_listing
start-Models = record {
  keyed = λ k r e. cc;
  represents = λ case. record {
    distinct = refl;
    stored = λ r m. absurd m;
    complete = λ k r e on. absurd (cc e);
  };
  live_at = λ k. ground arith;
}

-- User 7 works on test case 1; a call on test case 5, which is not there, is refused.
abbrev calls : List Call
calls =
    add_call 1 7 50 100 10
    ∷ add_call 1 7 60 101 11
    ∷ add_call 5 7 70 102 12
    ∷ reorder_call 1 (11 ∷ 10 ∷ []) 7 103
    ∷ update_call 1 10 7 55 104
    ∷ delete_call 1 11 7 105
    ∷ []

calls-Fit : Fit live calls no_children
calls-Fit = (
  omega arith,
  (λ k. refl),
  (
    omega arith,
    (λ k. ground arith),
    (omega arith, (λ k. ground arith), (omega arith, tt, (omega arith, tt, (omega arith, tt, tt)))),
  ),
)

perform_all-spec_calls_example :
    ((perform_all client step calls start).0 ≡ (spec_calls live calls no_children).0)
    × Models client live
        (perform_all client step calls start).1
        (spec_calls live calls no_children).1
perform_all-spec_calls_example =
    perform_all-spec_calls client step live calls start no_children start-Models calls-Fit

-- What the specification says of these calls.
calls_answers :
    (perform_all client step calls start).0 ≡ true ∷ true ∷ false ∷ true ∷ true ∷ true ∷ []
calls_answers =
    (perform_all-spec_calls client step live calls start no_children start-Models calls-Fit).0

calls_outline : (spec_calls live calls no_children).1 1 ≡ record { id = 10; content = 55 } ∷ []
calls_outline = refl

get_children-outline_example :
    let s = (perform_all client step calls start).1 in
    get_children client 1 s ≡ (ok (numbered 1 0 (record { id = 10; content = 55 } ∷ [])), s)
get_children-outline_example =
    let s = (perform_all client step calls start).1 in
    let m =
      (perform_all-spec_calls client step live calls start no_children start-Models calls-Fit).1 in
    get_children-outline client live s (spec_calls live calls no_children).1 1 m (omega arith)
