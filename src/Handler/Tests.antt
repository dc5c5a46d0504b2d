-- ===== src/Handler/Tests.antt =====
-- A transparent service's handler with a logger inside, and one that has lost its implementation.
use cxx_util.Prelude.{ℕ, ◌+◌, ◌*◌, ◌≡◌, refl, arith, false, [], ◌∷◌, none, some, ◌==◌}
use cxx_util.Handler.{
  Handler, op_continuation, Token, user_token, logger_token, transparent_completion_token,
  add_associated_logger, handler_of, works, impls, called, deliver, async_completion, Hooks, hooks,
  get_associated_logger, operation, operation_v1,
}
use cxx_util.Handler.Forwarding.{forwarded, hooks-forwarded}
use cxx_util.Handler.Delivery.{deliver-handler_of}
use cxx_util.Handler.Loggers.{in_transparent, in_operation, wrapped, get_associated_logger-wrapped}

abbrev token : Token
token = transparent_completion_token 3 8 (logger_token (user_token 5) 9)

-- The work of the context is kept, and the implementation 8 is not.
kept_work : works (handler_of token) ≡ 3 ∷ []
unfolding works handler_of
kept_work = refl

lost_implementation : impls (handler_of token) ≡ []
unfolding impls handler_of
lost_implementation = refl

-- Version 1 of `Operation` hides the logger.
hidden_logger : get_associated_logger (λ _. none) 0 (operation_v1 (handler_of token)) ≡ 0
unfolding get_associated_logger handler_of
hidden_logger = refl

abbrev user_hooks : ℕ → Hooks (ℕ × ℕ × ℕ)
user_hooks h = record {
  allocates = λ size. h * 100 + size;
  deallocates = λ pointer size. (h, pointer, size);
  invokes = λ f. (h, f, 0);
  continues = h == 5;
}

abbrev layered : Handler
layered = op_continuation (operation (handler_of token)) false

hooks-forwarded_example : hooks user_hooks layered ≡ forwarded user_hooks layered
hooks-forwarded_example = hooks-forwarded user_hooks layered

deliver-handler_of_example :
    (deliver 2 (handler_of token) (7 ∷ []) ≡ some (works (handler_of token), called 5 (7 ∷ [])))
    × (async_completion (λ h. some h) token ≡ (handler_of token, some 5))
deliver-handler_of_example = deliver-handler_of (λ h. some h) 2 token (7 ∷ []) (omega arith)

get_associated_logger-wrapped_example :
    get_associated_logger
      (λ _. none)
      0
      (wrapped
        (in_operation ∷ in_transparent 3 none ∷ [])
        (handler_of (add_associated_logger (user_token 5) 9)))
    ≡ 9
get_associated_logger-wrapped_example =
    get_associated_logger-wrapped (λ _. none) 0 (in_operation ∷ in_transparent 3 none ∷ [])
      (user_token 5) 9
