-- ===== src/Handler/Loggers.antt =====
-- The logger that is associated with a wrapped handler.
use cxx_util.Prelude.{ℕ, ◌≡◌, refl, List, [], ◌∷◌, Option}
use cxx_util.Handler.{
  Handler, transparent_handler, operation, Token, add_associated_logger, handler_of,
  get_associated_logger,
}

-- What an operation of a transparent service puts around its handler.
pub data Wrapper : Type 0 where
  in_transparent : ℕ → Option ℕ → Wrapper
  in_operation : Wrapper

abbrev pub wrapped : List Wrapper → Handler → Handler
wrapped [] h = h
wrapped (in_transparent context impl ∷ ws) h = transparent_handler context impl (wrapped ws h)
wrapped (in_operation ∷ ws) h = operation (wrapped ws h)

-- A logger that is added to a token is found from every handler that `TransparentHandler`s and
-- `Operation`s (version 2) make around the token's, whatever the token has inside.
pub get_associated_logger-wrapped :
    (user_logger : ℕ → Option ℕ) (default_logger : ℕ) (ws : List Wrapper) (t : Token) (lg : ℕ)
    → get_associated_logger user_logger default_logger
        (wrapped ws (handler_of (add_associated_logger t lg)))
      ≡ lg
unfolding get_associated_logger handler_of
get_associated_logger-wrapped user_logger default_logger [] t lg = refl
get_associated_logger-wrapped user_logger default_logger (in_transparent context impl ∷ ws) t lg =
    get_associated_logger-wrapped user_logger default_logger ws t lg
get_associated_logger-wrapped user_logger default_logger (in_operation ∷ ws) t lg =
    get_associated_logger-wrapped user_logger default_logger ws t lg
