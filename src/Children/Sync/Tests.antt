-- ===== src/Children/Sync/Tests.antt =====
-- Two children, of which one is kept with another content, one goes, and a new one comes.
use agentest.Shared.{◌+◌, ◌≡◌, refl, none, some, List, [], ◌∷◌, arith, transaction, step}
use agentest.Children.Tests.{client, sign_in, start, live, no_children, start-Models}
use agentest.Children.{Db}
use agentest.Children.Outline.{Item, numbered}
use agentest.Children.Operations.{Answers}
use agentest.Children.Refinement.{
  Call, add_call, Fit, Models, spec_calls, perform_all, perform_all-spec_calls, fresh_free,
}
use agentest.Children.Sync.{Entry, sync_children}
use agentest.Children.Sync.Readiness.{sync_outline}
use agentest.Children.Sync.Request.{sync_children-Answers}

abbrev calls : List Call
calls = add_call 1 7 50 100 10 ∷ add_call 1 7 60 101 11 ∷ []

calls-Fit : Fit live calls no_children
calls-Fit = (omega arith, (λ k. refl), (omega arith, (λ k. ground arith), tt))

abbrev two : Db client
two = (perform_all client step calls start).1

two-Models : Models client live two (spec_calls live calls no_children).1
two-Models =
    (perform_all-spec_calls client step live calls start no_children start-Models calls-Fit).1

abbrev before : List Item
before = record { id = 10; content = 50 } ∷ record { id = 11; content = 60 } ∷ []

abbrev wanted : List Entry
wanted = record { id = some 11; content = 61 } ∷ record { id = none; content = 70 } ∷ []

wanted_outline :
    sync_outline (λ i. 20 + i) wanted before
    ≡ some (record { id = 11; content = 61 } ∷ record { id = 21; content = 70 } ∷ [])
wanted_outline = refl

-- An id of another test case.
foreign_outline :
    sync_outline (λ i. 20 + i) (record { id = some 12; content = 61 } ∷ []) before ≡ none
foreign_outline = refl

sync_children-Answers_example :
    Answers client 1
      (some (record { id = 11; content = 61 } ∷ record { id = 21; content = 70 } ∷ []))
      two
      (transaction
        (sync_children client sign_in 1 7 103 (λ i. 20 + i) wanted (numbered 1 0 before))
        two)
sync_children-Answers_example =
    sync_children-Answers client sign_in 1 7 103 (λ i. 20 + i) wanted two before two-Models.keyed
      (two-Models.represents 1) refl
      (λ i.
        fresh_free client live two (spec_calls live calls no_children).1 (20 + i) two-Models
          (λ k. ground arith))
