-- ===== src/Composed/Tests.antt =====
-- A composed operation that sums what it reads until a zero, a task with a fault, and a `handler_ptr`.
use cxx_util.Prelude.{ℕ, ◌+◌, ◌≡◌, refl, Bool, false, true, List, [], ◌∷◌, none, some, ◌==◌, length}
use cxx_util.Composed.{
  Use, continuing, completing, op, start_op, resume, run, use_all, use_op, continue_task, complete,
}
use cxx_util.Composed.Spec
use cxx_util.Composed.Runs.{flight, flight_or_none, op_refines}
use cxx_util.Composed.AsyncRun.{async_run}
use cxx_util.Composed.HandlerPtr

-- The sum so far, with whether the end was read.
abbrev sums : ℕ × Bool → List (Use (ℕ × Bool) ℕ ℕ) × (ℕ × Bool)
sums (sum, false) = (continuing (λ s n. (s.0 + n, n == 0)) ∷ [], (sum, false))
sums (sum, true) = (completing sum ∷ [], (sum, true))

-- A task that goes on after it has completed.
abbrev runs_on : ℕ → List (Use ℕ ℕ ℕ) × ℕ
runs_on n = (completing n ∷ continuing (λ s a. a) ∷ [], n)

op_refines_example :
    elim (start_op sums false (0, false)) [ none ↦ none | some f ↦ run sums (3 ∷ 4 ∷ 0 ∷ []) f ]
    ≡ flight_or_none (elim (Spec.start sums false (0, false)) [
      | none ↦ none
      | some o ↦ Spec.run sums (3 ∷ 4 ∷ 0 ∷ []) o
    ])
op_refines_example = op_refines sums false (0, false) (3 ∷ 4 ∷ 0 ∷ [])

summed :
    elim (start_op sums false (0, false)) [ none ↦ none | some f ↦ run sums (3 ∷ 4 ∷ 0 ∷ []) f ]
    ≡ some (flight (Spec.completed 7))
unfolding start_op op run resume use_all use_op continue_task complete
summed = refl

faulty : start_op runs_on false 5 ≡ none
unfolding start_op op use_all use_op continue_task complete
faulty = refl

abbrev wrapped : ℕ → List ℕ → ℕ
wrapped token ts = token + length ts

abbrev same : ℕ → ℕ
same n = n

-- A call with no token is refused.
no_token : async_run same wrapped same same 5 [] [] ≡ none
unfolding async_run
no_token = refl

-- The pointer is moved and the new one invoked.
abbrev invoked : List (HandlerPtr.Action ℕ)
invoked =
    HandlerPtr.moving 0
    ∷ HandlerPtr.invoking 1 6
    ∷ HandlerPtr.destroying 1
    ∷ HandlerPtr.destroying 0
    ∷ []
