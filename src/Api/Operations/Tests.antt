-- ===== src/Api/Operations/Tests.antt =====
-- The store of operations on concrete calls.
use ankiced.Base.{◌≡◌, refl, none, some, List, [], ◌∷◌}
use ankiced.Text.{Text, codes, eq_text}
use ankiced.Text.Equal.{ne_of_eq_text}
use ankiced.Domain.{no_summary}
use ankiced.Api.Operations.{Store, started, new_store, create, get, succeed, fail, progress}
use ankiced.Api.Operations.Invariant.{IsValid, new_store-IsValid}
use ankiced.Api.Operations.Contract.{
  Request, creates, succeeds, run, run-IsValid, run-IsValid_from, get-run_running,
}

tests : Unit {0}
unfolding create succeed fail progress get run new_store
tests = tt

abbrev a : Text
a = codes "req-1"

abbrev b : Text
b = codes "req-2"

abbrev c : Text
c = codes "req-3"

abbrev t : Text
t = codes "now"

-- A store with room for one operation.
abbrev tiny : Store
tiny = record { items = []; order = []; capacity = 1 }

abbrev calls : List Request
calls = creates b c t ∷ succeeds b [] no_summary t ∷ creates c a t ∷ []

-- The finished operation is evicted, the running one stays although the store is over its capacity.
evicts_finished :
    (get a (run (creates a a t ∷ calls) tiny) ≡ some (started a a t))
    × (get b (run (creates a a t ∷ calls) tiny) ≡ none)
    × (get c (run (creates a a t ∷ calls) tiny) ≡ some (started c a t))
unfolding tests
evicts_finished = (refl, refl, refl)

run-IsValid_example : IsValid (run (creates a a t ∷ calls) new_store)
run-IsValid_example = run-IsValid (creates a a t ∷ calls)

abbrev one : Store
one = run (creates a b t ∷ []) new_store

one-IsValid : IsValid one
one-IsValid = run-IsValid_from (creates a b t ∷ []) new_store new_store-IsValid

get-one : get a one ≡ some (started a b t)
unfolding tests
get-one = refl

get-run_running_example : get a (run calls one) ≡ some (started a b t)
unfolding eq_text
get-run_running_example =
    get-run_running calls one a (started a b t) one-IsValid get-one refl
      (ne_of_eq_text b a refl, (ne_of_eq_text b a refl, (ne_of_eq_text c a refl, tt)))
