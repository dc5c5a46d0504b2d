-- ===== src/Operation/Tests.antt =====
-- A coroutine that waits once and then completes: its call moves the `Operation` into the pending
-- wait, from which the second call resumes.
use cxx_util.Prelude.{ℕ, ◌≡◌, refl, true, false, List, [], ◌∷◌, ◌++◌, some, none, arith}
use cxx_util.Operation.{
  Operations, Action, entering, moving, destroying, completing, call, make_operation, run, copying,
  step, enter, move, reset, complete, release, add_ref,
}
use cxx_util.Operation.Spec
use cxx_util.Operation.Invariant.{operations, concrete}
use cxx_util.Operation.Results.{operations_refine}
use cxx_util.Operation.Once.{CalledOnce, called_once}

abbrev waits_once : List (Action ℕ)
waits_once =
    call 0 (moving 0 ∷ []) false
    ++ (destroying 0 ∷ [])
    ++ call 1 (completing 1 7 ∷ []) true
    ++ (destroying 1 ∷ [])

abbrev finished : Operations ℕ
finished = record {
  state = record { m_result = 7; m_refs = 0; released = true; called = 7 ∷ [] };
  handles = false ∷ false ∷ [];
}

waits_once-run : run waits_once (make_operation 125) ≡ some finished
unfolding run step enter move reset complete release make_operation add_ref
waits_once-run = refl

-- A coroutine that is dropped at its first wait: the handler gets the default result.
dropped :
    run {R = ℕ}
      (call 0 (moving 0 ∷ []) false ++ (destroying 0 ∷ destroying 1 ∷ []))
      (make_operation 125)
    ≡ some (record {
      state = record { m_result = 125; m_refs = 0; released = true; called = 125 ∷ [] };
      handles = false ∷ false ∷ [];
    })
unfolding run step enter move reset complete release make_operation add_ref
dropped = refl

-- The call of an `Operation` that was moved from fails its assertion.
moved_from : run {R = ℕ} (moving 0 ∷ entering 0 ∷ []) (make_operation 125) ≡ none
unfolding run step enter move make_operation add_ref
moved_from = refl

called_once_example : CalledOnce 7 finished
called_once_example = called_once waits_once 125 (omega arith) waits_once-run

operations_refine_example :
    run {R = ℕ} (copying 0 ∷ destroying 0 ∷ []) (operations 3 (true ∷ []))
    ≡ concrete (Spec.run (copying 0 ∷ destroying 0 ∷ []) 3 (true ∷ []))
operations_refine_example =
    operations_refine (copying 0 ∷ destroying 0 ∷ []) 3 (true ∷ []) (omega arith)
