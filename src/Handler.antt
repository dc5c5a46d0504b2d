-- ===== src/Handler.antt =====
-- The handlers of asynchronous operations, which wrap one another: `LoggerHandler` of
-- include/util/asio/associatedlogger.hpp, `TransparentHandler` of
-- include/util/asio/transparentservice.hpp, both versions of `Operation` of
-- include/util/asio/operation.hpp, and `op_continuation` of include/composed/op.hpp. A user's
-- handler, a logger, an `io_service` and an implementation are numbers. What Asio finds out about a
-- user's handler, its hooks and its result, is a parameter.
pub mod Forwarding
pub mod Delivery
pub mod Loggers
mod Tests
use cxx_util.Prelude.{ℕ, zero, suc, Bool, List, [], ◌∷◌, ◌++◌, Option, none, some}

pub data Handler : Type 0 where
  user : ℕ → Handler
  logger_handler : Handler → ℕ → Handler
  transparent_handler : ℕ → Option ℕ → Handler → Handler
  operation operation_v1 : Handler → Handler
  op_continuation : Handler → Bool → Handler

-- Completion tokens: a user's, and the two that wrap another one.
pub data Token : Type 0 where
  user_token : ℕ → Token
  logger_token : Token → ℕ → Token
  transparent_token : ℕ → Option ℕ → Token → Token

-- The constructor of `TransparentCompletionToken` takes an implementation and does not store it.
abbrev pub transparent_completion_token : ℕ → ℕ → Token → Token
transparent_completion_token context impl token = transparent_token context none token

abbrev pub add_associated_logger : Token → ℕ → Token
add_associated_logger token lg = logger_token token lg

-- `handler_type` of a token, with the constructor of the handler.
abbrev pub logger_handler_of : Handler → ℕ → Handler
logger_handler_of original lg = logger_handler original lg

abbrev pub transparent_handler_of : ℕ → Option ℕ → Handler → Handler
transparent_handler_of context impl original = transparent_handler context impl original

-- The handler that a token is converted to.
unfoldable pub handler_of : Token → Handler
handler_of (user_token h) = user h
handler_of (logger_token token lg) = logger_handler_of (handler_of token) lg
handler_of (transparent_token context impl token) =
    transparent_handler_of context impl (handler_of token)

-- What a handler keeps alive until it is destroyed: the work of a context, and implementations.
unfoldable pub works : Handler → List ℕ
works (user h) = []
works (logger_handler h lg) = works h
works (transparent_handler context impl h) = context ∷ works h
works (operation h) = works h
works (operation_v1 h) = works h
works (op_continuation h cont) = works h

abbrev kept : Option ℕ → List ℕ
kept none = []
kept (some impl) = impl ∷ []

unfoldable pub impls : Handler → List ℕ
impls (user h) = []
impls (logger_handler h lg) = impls h
impls (transparent_handler context impl h) = kept impl ++ impls h
impls (operation h) = impls h
impls (operation_v1 h) = impls h
impls (op_continuation h cont) = impls h

-- The four hooks of a handler: `E` is what freeing memory and running a function does.
pub record Hooks (E : Type 0) : Type 0 where
  pub allocates : ℕ → ℕ
  pub deallocates : ℕ → ℕ → E
  pub invokes : ℕ → E
  pub continues : Bool

module _ {E : Type 0} where
  -- The functions of include/util/asio/handler_hooks.hpp.
  abbrev pub allocate : ℕ → Hooks E → ℕ
  allocate size context = context.allocates size

  abbrev pub deallocate : ℕ → ℕ → Hooks E → E
  deallocate pointer size context = context.deallocates pointer size

  abbrev pub invoke : ℕ → Hooks E → E
  invoke f context = context.invokes f

  abbrev pub is_continuation : Hooks E → Bool
  is_continuation context = context.continues

  -- The hooks of each wrapper, over those of the handler that it wraps.
  unfoldable pub logger_handler_hooks : Hooks E → Hooks E
  logger_handler_hooks original = record {
    allocates = λ size. allocate size original;
    deallocates = λ pointer size. deallocate pointer size original;
    invokes = λ f. invoke f original;
    continues = is_continuation original;
  }

  unfoldable pub transparent_handler_hooks : Hooks E → Hooks E
  transparent_handler_hooks original = record {
    allocates = λ size. allocate size original;
    deallocates = λ pointer size. deallocate pointer size original;
    invokes = λ f. invoke f original;
    continues = is_continuation original;
  }

  unfoldable pub operation_hooks : Hooks E → Hooks E
  operation_hooks handler = record {
    allocates = λ size. allocate size handler;
    deallocates = λ pointer size. deallocate pointer size handler;
    invokes = λ f. invoke f handler;
    continues = is_continuation handler;
  }

  unfoldable pub operation_v1_hooks : Hooks E → Hooks E
  operation_v1_hooks handler = record {
    allocates = λ size. allocate size handler;
    deallocates = λ pointer size. deallocate pointer size handler;
    invokes = λ f. invoke f handler;
    continues = is_continuation handler;
  }

  unfoldable pub op_continuation_hooks : Hooks E → Bool → Hooks E
  op_continuation_hooks handler cont = record {
    allocates = λ size. allocate size handler;
    deallocates = λ pointer size. deallocate pointer size handler;
    invokes = λ f. invoke f handler;
    continues = cont;
  }

  unfoldable pub hooks : (ℕ → Hooks E) → Handler → Hooks E
  hooks user_hooks (user h) = user_hooks h
  hooks user_hooks (logger_handler h lg) = logger_handler_hooks (hooks user_hooks h)
  hooks user_hooks (transparent_handler context impl h) =
      transparent_handler_hooks (hooks user_hooks h)
  hooks user_hooks (operation h) = operation_hooks (hooks user_hooks h)
  hooks user_hooks (operation_v1 h) = operation_v1_hooks (hooks user_hooks h)
  hooks user_hooks (op_continuation h cont) = op_continuation_hooks (hooks user_hooks h) cont

-- `async_result` of the wrappers, over that of the handler inside. `none` is Asio's primary template,
-- which gives nothing: it is the one for handlers that no token is converted to.
abbrev pub logger_async_result : Option ℕ → Option ℕ
logger_async_result wrapped_result = wrapped_result

abbrev pub transparent_async_result : Option ℕ → Option ℕ
transparent_async_result wrapped_result = wrapped_result

unfoldable pub async_result : (ℕ → Option ℕ) → Handler → Option ℕ
async_result user_result (user h) = user_result h
async_result user_result (logger_handler h lg) = logger_async_result (async_result user_result h)
async_result user_result (transparent_handler context impl h) =
    transparent_async_result (async_result user_result h)
async_result user_result (operation h) = none
async_result user_result (operation_v1 h) = none
async_result user_result (op_continuation h cont) = none

-- `AsyncCompletion`: the handler of a token, and its result.
unfoldable pub async_completion : (ℕ → Option ℕ) → Token → Handler × Option ℕ
async_completion user_result token = (handler_of token, async_result user_result (handler_of token))

-- The overloads of `getAssociatedLogger`.
abbrev pub logger_handler_logger : ℕ → ℕ
logger_handler_logger lg = lg

abbrev pub transparent_handler_logger : ℕ → ℕ
transparent_handler_logger original_logger = original_logger

abbrev pub operation_logger : ℕ → ℕ
operation_logger handler_logger = handler_logger

-- `getAssociatedLogger`, where a user's handler may have an overload of its own. Version 1 of
-- `Operation` and `op_continuation` have none, and get the default logger.
unfoldable pub get_associated_logger : (ℕ → Option ℕ) → ℕ → Handler → ℕ
get_associated_logger user_logger default_logger (user h) = elim (user_logger h) [
  | none ↦ default_logger
  | some lg ↦ lg
]
get_associated_logger user_logger default_logger (logger_handler h lg) = logger_handler_logger lg
get_associated_logger user_logger default_logger (transparent_handler context impl h) =
    transparent_handler_logger (get_associated_logger user_logger default_logger h)
get_associated_logger user_logger default_logger (operation h) =
    operation_logger (get_associated_logger user_logger default_logger h)
get_associated_logger user_logger default_logger (operation_v1 h) = default_logger
get_associated_logger user_logger default_logger (op_continuation h cont) = default_logger

-- What a call operator does: the call of a user's handler, a dispatch to a context, or the
-- resumption of a coroutine.
pub data Effect : Type 0 where
  called : ℕ → List ℕ → Effect
  dispatched : ℕ → Handler → List ℕ → Effect
  resumed : Handler → List ℕ → Effect

-- The call operators, over that of the handler inside, or on the handler inside.
abbrev pub logger_handler_call : Effect → Effect
logger_handler_call original_call = original_call

abbrev pub transparent_handler_call : ℕ → Handler → List ℕ → Effect
transparent_handler_call context original args = dispatched context original args

unfoldable pub call : Handler → List ℕ → Effect
call (user h) args = called h args
call (logger_handler h lg) args = logger_handler_call (call h args)
call (transparent_handler context impl h) args = transparent_handler_call context h args
call (operation h) args = resumed (operation h) args
call (operation_v1 h) args = resumed (operation_v1 h) args
call (op_continuation h cont) args = resumed (op_continuation h cont) args

abbrev through : ℕ → Option (List ℕ × Effect) → Option (List ℕ × Effect)
through context none = none
through context (some (contexts, e)) = some (context ∷ contexts, e)

-- A call, and the dispatched calls that it leads to: the contexts that they pass, and the last
-- effect. The fuel is the number of dispatches.
unfoldable pub deliver : ℕ → Handler → List ℕ → Option (List ℕ × Effect)
deliver zero h args = none
deliver (suc fuel) h args = elim (call h args) [
  | called u args' ↦ some ([], called u args')
  | resumed h' args' ↦ some ([], resumed h' args')
  | dispatched context h' args' ↦ through context (deliver fuel h' args')
]
