-- ===== src/Composed/AsyncRun.antt =====
-- `async_run` of include/composed/op.hpp, and its transformation of the task's type. A type argument
-- of a task is a signature `void(T...)` or another type; types, and the values that are passed, are
-- numbers. What Boost.Asio makes of a token, its `handler_type`, the handler itself and its
-- `async_result`, is a parameter.
use mathlib.Core.List.{append_assoc, append-nil}
use cxx_util.Prelude.{
  ℕ, ◌-◌, ◌<◌, ◌≡◌, refl, sym, ◌∙◌, List, [], ◌∷◌, ◌++◌, map, Option, none, some, length, get_elem?,
}
use cxx_util.Tuple.{expand}
use cxx_util.Tuple.Indices.{range, expand-range, get-last, indices_before}
use cxx_util.Composed.Stdlib.{make_integer_sequence_impl, sequences_same}

pub data TypeArgument : Type 0 where
  signature : List ℕ → TypeArgument
  plain : ℕ → TypeArgument

-- What `start_op` is called with.
pub record Start : Type 0 where
  pub task_type : List TypeArgument
  pub handler : ℕ
  pub args : List ℕ

module _ (token_type : ℕ → ℕ) (handler_type : ℕ → List ℕ → ℕ)
    (handler_of async_result : ℕ → ℕ) where
  abbrev pub rewrite_type : ℕ → TypeArgument → TypeArgument
  rewrite_type token (signature ts) = plain (handler_type token ts)
  rewrite_type token (plain t) = plain t

  unfoldable pub transform_task_impl : ℕ → List TypeArgument → List TypeArgument → List TypeArgument
  transform_task_impl token [] to = to
  transform_task_impl token (from0 ∷ from) to =
      transform_task_impl token from (to ++ (rewrite_type token from0 ∷ []))

  abbrev pub transform_task : List TypeArgument → ℕ → List TypeArgument
  transform_task ts token = transform_task_impl token ts []

  -- The call of `start_op`, and the value that is returned.
  unfoldable pub async_run_impl : List TypeArgument → List ℕ → List ℕ → Option (Start × ℕ)
  async_run_impl task t indices = elim (get_elem? t (length t - 1)) [
    | none ↦ none
    | some token ↦ elim (expand t indices) [
      | none ↦ none
      | some args ↦ some (
        record {
          task_type = transform_task task (token_type token);
          handler = handler_of token;
          args = args;
        },
        async_result (handler_of token),
      )
    ]
  ]

  -- The static assertion; the value of the call is not returned.
  unfoldable pub async_run : ℕ → List TypeArgument → List ℕ → Option Start
  async_run fuel task [] = none
  async_run fuel task (a ∷ args) = elim (make_integer_sequence_impl fuel (length (a ∷ args) - 1)) [
    | none ↦ none
    | some indices ↦ elim (async_run_impl task (a ∷ args) indices) [
      | none ↦ none
      | some r ↦ some r.0
    ]
  ]

  transform_task_impl-map :
      (token : ℕ) (from to : List TypeArgument)
      → transform_task_impl token from to ≡ to ++ map (rewrite_type token) from
  unfolding transform_task_impl
  transform_task_impl-map token [] to = sym (append-nil to)
  transform_task_impl-map token (from0 ∷ from) to =
      transform_task_impl-map token from (to ++ (rewrite_type token from0 ∷ []))
      ∙ append_assoc to (rewrite_type token from0 ∷ []) (map (rewrite_type token) from)

  run-last :
      (task : List TypeArgument) (args t : List ℕ) (token : ℕ)
      → t ≡ args ++ (token ∷ [])
      → async_run_impl task t (range 0 (length args))
        ≡ some (
          record {
            task_type = map (rewrite_type (token_type token)) task;
            handler = handler_of token;
            args = args;
          },
          async_result (handler_of token),
        )
  unfolding async_run_impl
  run-last task args t token e =
      rw
        (
          get-last args t token e,
          expand-range [] args (token ∷ []) t e,
          transform_task_impl-map (token_type token) task [],
          async_run_impl,
        )
        refl

  run-args :
      (fuel : ℕ) (task : List TypeArgument) (a : ℕ) (rest args : List ℕ) (token : ℕ)
      → length args < fuel
      → a ∷ rest ≡ args ++ (token ∷ [])
      → async_run fuel task (a ∷ rest)
        ≡ some (record {
          task_type = map (rewrite_type (token_type token)) task;
          handler = handler_of token;
          args = args;
        })
  unfolding async_run
  run-args fuel task a rest args token h e =
      rw (sequence, run-last task args (a ∷ rest) token e, async_run) refl
    where
      sequence :
          make_integer_sequence_impl fuel (length (a ∷ rest) - 1) ≡ some (range 0 (length args))
      sequence =
          sequences_same fuel (length (a ∷ rest) - 1)
          ∙ indices_before fuel args (a ∷ rest) token h e

  -- With more fuel than arguments, `async_run` starts the task whose signatures are replaced by the
  -- handler types of its last argument, with that argument's handler and all the arguments before it.
  pub async_run_lem :
      (fuel : ℕ) (task : List TypeArgument) (args : List ℕ) (token : ℕ)
      → length args < fuel
      → async_run fuel task (args ++ (token ∷ []))
        ≡ some (record {
          task_type = map (rewrite_type (token_type token)) task;
          handler = handler_of token;
          args = args;
        })
  unfolding async_run
  async_run_lem fuel task [] token h = run-args fuel task token [] [] token h refl
  async_run_lem fuel task (a ∷ args) token h =
      run-args fuel task a (args ++ (token ∷ [])) (a ∷ args) token h refl
