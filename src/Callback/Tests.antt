-- ===== src/Callback/Tests.antt =====
-- A signal of numbers, whose callbacks add what is emitted to an object.
use cxx_util.Prelude.{ℕ, ◌+◌, ◌≡◌, refl, true, List, [], ◌∷◌, none, some}
use cxx_util.Callback.{null_callback, call, bind_member, assign_null, is_null}
use cxx_util.Callback.Signal.{
  Step, nothing, method, connecting, emitting, initial, run, run_direct, run-run_direct,
}

abbrev add : ℕ → ℕ → Unit {0} × ℕ
add x p = (tt, x + p)

abbrev added : List (Step ℕ ℕ)
added = emitting 9 ∷ connecting (method add 1) ∷ emitting 5 ∷ connecting nothing ∷ emitting 6 ∷ []

-- Nothing is called before the first connection, nor after the null callback is connected.
added-run : run_direct added nothing (10 ∷ 20 ∷ []) ≡ some (10 ∷ 25 ∷ [])
unfolding run_direct
added-run = refl

-- The call of a null callback, that is not through a signal.
null_call : call {T = ℕ} {P = ℕ} {R = ℕ} null_callback 3 [] ≡ none
unfolding call
null_call = refl

-- A reset callback is null.
reset : is_null (assign_null (bind_member {T = ℕ} {P = ℕ} {R = Unit {0}} add 1)) ≡ true
unfolding is_null assign_null bind_member
reset = refl

run-run_direct_example : run added initial (10 ∷ 20 ∷ []) ≡ run_direct added nothing (10 ∷ 20 ∷ [])
run-run_direct_example = run-run_direct added (10 ∷ 20 ∷ [])
