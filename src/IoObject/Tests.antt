-- ===== src/IoObject/Tests.antt =====
-- Objects whose implementation cannot be closed a second time.
use cxx_util.Prelude.{ℕ, ◌≡◌, ◌+◌, refl, arith, List, [], ◌∷◌, none, some, length}
use cxx_util.Tuple.{make_index_sequence}
use cxx_util.Handler.{user_token, handler_of, works, impls}
use cxx_util.IoObject.{
  Objects, Action, constructing, moving, closing, destroying, thrown, initial, construct,
  move_construct, close_or_throw, destroy, step, run, Call, method, method_impl,
}
use cxx_util.IoObject.Owned.{HasOwned, count_owners, objects-IsOwned}
use cxx_util.IoObject.Pending.{destroy-method}
use cxx_util.Prelude.Count.{count}

abbrev fails_again : List ℕ → ℕ → ℕ
fails_again closes m = length closes

-- An object is moved, the new one closed, and both are destroyed.
abbrev moved : List Action
moved = constructing ∷ moving 0 ∷ closing 1 ∷ destroying 0 ∷ destroying 1 ∷ []

abbrev left : Objects
left = record { implementations = none ∷ none ∷ []; next = 1; closes = 0 ∷ 0 ∷ []; resets = 0 ∷ [] }

moved-run : run fails_again moved initial ≡ some left
unfolding run step construct move_construct close_or_throw destroy
moved-run = refl

-- The second `close()` throws what the implementation gives.
throws :
    close_or_throw fails_again 0
      (record { implementations = some 0 ∷ []; next = 1; closes = 0 ∷ []; resets = [] })
    ≡ some (
      record { implementations = some 0 ∷ []; next = 1; closes = 0 ∷ 0 ∷ []; resets = [] },
      thrown 1,
    )
unfolding close_or_throw
throws = refl

-- A method of an object that was moved from follows a null pointer.
moved_from : method 3 5 none (user_token 1 ∷ user_token 2 ∷ []) ≡ none
unfolding method method_impl make_index_sequence
moved_from = refl

objects-IsOwned_example : HasOwned (run fails_again moved initial)
objects-IsOwned_example = objects-IsOwned fails_again moved

-- An object that was made and moved.
abbrev in_use : Objects
in_use = record { implementations = none ∷ some 0 ∷ []; next = 1; closes = []; resets = [] }

in_use-run : run fails_again (constructing ∷ moving 0 ∷ []) initial ≡ some in_use
unfolding run step construct move_construct
in_use-run = refl

destroy-method_example :
    (call : Call) × (method 3 5 (some 0) (user_token 1 ∷ user_token 2 ∷ []) ≡ some call)
    × (call.implementation ≡ 0)
    × (call.args ≡ user_token 1 ∷ [])
    × (count 5 (works (handler_of call.token)) ≡ count 5 (works (handler_of (user_token 2))) + 1)
    × (o' : Objects) × (destroy fails_again 1 in_use ≡ some o')
    × (count_owners 0 o'.implementations ≡ 0)
    × (count 0 (impls (handler_of call.token)) ≡ 0)
unfolding handler_of impls count
destroy-method_example =
    destroy-method fails_again (constructing ∷ moving 0 ∷ []) in_use 1 0 5 3 (user_token 1 ∷ [])
      (user_token 2) in_use-run refl (omega arith) refl
