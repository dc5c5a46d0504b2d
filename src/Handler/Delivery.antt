-- ===== src/Handler/Delivery.antt =====
-- The call of a handler that tokens have made.
use cxx_util.Prelude.{ℕ, zero, suc, ◌<◌, ◌≡◌, refl, ap, arith, List, Option, some}
use cxx_util.Handler.{
  Token, user_token, logger_token, transparent_token, handler_of, works, called, through, call,
  deliver, async_result, async_completion,
}

abbrev pub dispatches : Token → ℕ
dispatches (user_token h) = 0
dispatches (logger_token t lg) = dispatches t
dispatches (transparent_token context impl t) = suc (dispatches t)

abbrev pub user_of : Token → ℕ
user_of (user_token h) = h
user_of (logger_token t lg) = user_of t
user_of (transparent_token context impl t) = user_of t

-- With more fuel than it has dispatches: the call of a handler that a token is converted to calls
-- the user's handler, once, with the same arguments, after it has passed the contexts whose work
-- the handler keeps, from the outermost on; and the completion's result is that of the user's
-- handler.
pub deliver-handler_of :
    (user_result : ℕ → Option ℕ) (fuel : ℕ) (t : Token) (args : List ℕ)
    → dispatches t < fuel
    → (deliver fuel (handler_of t) args ≡ some (works (handler_of t), called (user_of t) args))
      × (async_completion user_result t ≡ (handler_of t, user_result (user_of t)))
unfolding deliver call handler_of works async_result async_completion
deliver-handler_of user_result zero t args h = elim h [ ]
deliver-handler_of user_result (suc fuel) (user_token u) args h = (refl, refl)
deliver-handler_of user_result (suc fuel) (logger_token t lg) args h =
    let (d, r) = deliver-handler_of user_result (suc fuel) t args h in
    (d, ap (λ p. (handler_of (logger_token t lg), p.1)) r)
deliver-handler_of user_result (suc fuel) (transparent_token context impl t) args h =
    let (d, r) = deliver-handler_of user_result fuel t args (omega arith) in
    (ap (through context) d, ap (λ p. (handler_of (transparent_token context impl t), p.1)) r)
