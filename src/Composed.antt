-- ===== src/Composed.antt =====
-- `op`, `op_continuation` and `start_op` of include/composed/op.hpp. A task is a state, and its call
-- operator what it does to the `op` it is given, with the state that it leaves. The pointer to the
-- task, of the library beast, owns it with its handler; moves of it leave a null pointer, and its
-- `invoke` frees the task before the handler is called. The continuations are moved, and not copied.
-- `none` is an assertion that fails, or a call of a continuation that there is none of.
pub mod Spec
pub mod Runs
pub mod Stdlib
pub mod AsyncRun
pub mod HandlerPtr
mod Tests
use cxx_util.Prelude.{ℕ, Bool, true, false, List, [], ◌∷◌, ◌++◌, Option, none, some, if◌then◌else◌}

-- `op()` with the places for the results of type `A`, as their assignment; and `op.complete()`.
pub data Use (S A R : Type 0) : Type 0 where
  continuing : (S → A → S) → Use S A R
  completing : R → Use S A R

pub data Effect (R : Type 0) : Type 0 where
  made : Effect R
  invoked : R → Effect R

-- `op_continuation`, which holds the pointer to the task.
pub record OpContinuation (S A : Type 0) : Type 0 where
  pub results : S → A → S
  pub cont : Bool

-- The operation: its task while it lives, whether the `op` object holds the pointer to it, the
-- continuation that else holds it, and the effects so far. The flag of the `op` is an argument.
pub record Flight (S A R : Type 0) : Type 0 where
  pub task : Option S
  pub op_task : Bool
  pub waiting : Option (OpContinuation S A)
  pub effects : List (Effect R)

-- What the call operator did to a task that still lives.
abbrev updated : {S : Type 0} → S → Option S → Option S
updated s none = none
updated s (some task) = some s

module _ {S A R : Type 0} where
  -- `operator()`: the pointer moves to a continuation.
  unfoldable pub continue_task : Bool → (S → A → S) → Flight S A R → Option (Flight S A R)
  continue_task cont results f =
      if f.op_task
      then some
          (record f { op_task = false; waiting = some (record { results = results; cont = cont }) })
      else none

  -- `complete`, with `invoke` of the pointer.
  unfoldable pub complete : R → Flight S A R → Option (Flight S A R)
  complete result f =
      if f.op_task
      then some
          (record f { op_task = false; task = none; effects = f.effects ++ (invoked result ∷ []) })
      else none

  unfoldable pub use_op : Bool → Use S A R → Flight S A R → Option (Flight S A R)
  use_op cont (continuing results) f = continue_task cont results f
  use_op cont (completing result) f = complete result f

  unfoldable pub use_all : Bool → List (Use S A R) → Flight S A R → Option (Flight S A R)
  use_all cont [] f = some f
  use_all cont (u ∷ uses) f = elim (use_op cont u f) [
    | none ↦ none
    | some f' ↦ use_all cont uses f'
  ]

  -- The assertion at the end of the constructor of `op`.
  abbrev asserted : Option (Flight S A R) → Option (Flight S A R)
  asserted none = none
  asserted (some f) = if f.op_task then none else some f

  module _ (body : S → List (Use S A R) × S) where
    -- The constructor of `op`: it runs the task at once.
    unfoldable pub op : Bool → S → List (Effect R) → Option (Flight S A R)
    op cont task effects =
        elim (asserted (
          use_all cont (body task).0
            (record { task = some task; op_task = true; waiting = none; effects = effects }))) [
              | none ↦ none
              | some f ↦ some (record f { task = updated (body task).1 f.task })
            ]

    -- `start_op`, where the handler tells whether it is a continuation.
    unfoldable pub start_op : Bool → S → Option (Flight S A R)
    start_op is_continuation task = op is_continuation task (made ∷ [])

    -- The call operator of `op_continuation`.
    unfoldable pub resume : A → Flight S A R → Option (Flight S A R)
    resume args f = elim f.waiting [
      | none ↦ none
      | some c ↦ elim f.task [ none ↦ none | some task ↦ op true (c.results task args) f.effects ]
    ]

    unfoldable pub run : List A → Flight S A R → Option (Flight S A R)
    run [] f = some f
    run (args ∷ calls) f = elim (resume args f) [ none ↦ none | some f' ↦ run calls f' ]
