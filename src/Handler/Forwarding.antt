-- ===== src/Handler/Forwarding.antt =====
-- The hooks of wrapped handlers against those of the handler inside.
use cxx_util.Prelude.{ℕ, ◌≡◌, refl, ap, Bool, Option, none, some}
use cxx_util.Handler.{
  Handler, user, logger_handler, transparent_handler, operation, operation_v1, op_continuation,
  Hooks, hooks, logger_handler_hooks, transparent_handler_hooks, operation_hooks,
  operation_v1_hooks, op_continuation_hooks,
}

-- The user's handler inside, and the flag of the outermost `op_continuation`.
abbrev pub innermost : Handler → ℕ
innermost (user h) = h
innermost (logger_handler h lg) = innermost h
innermost (transparent_handler context impl h) = innermost h
innermost (operation h) = innermost h
innermost (operation_v1 h) = innermost h
innermost (op_continuation h cont) = innermost h

abbrev pub continuation_flag : Handler → Option Bool
continuation_flag (user h) = none
continuation_flag (logger_handler h lg) = continuation_flag h
continuation_flag (transparent_handler context impl h) = continuation_flag h
continuation_flag (operation h) = continuation_flag h
continuation_flag (operation_v1 h) = continuation_flag h
continuation_flag (op_continuation h cont) = some cont

module _ {E : Type 0} (user_hooks : ℕ → Hooks E) where
  -- The hooks of a user's handler, with the flag where there is one.
  abbrev pub forwarded : Handler → Hooks E
  forwarded h = record (user_hooks (innermost h)) {
    continues = elim (continuation_flag h) [
      | none ↦ (user_hooks (innermost h)).continues
      | some cont ↦ cont
    ];
  }

  -- However handlers are wrapped, memory is allocated and freed, with the same size, and functions
  -- are run by the hooks of the user's handler inside, and whether it is a continuation is told by
  -- the outermost `op_continuation`, or by the user's handler where there is none.
  pub hooks-forwarded : (h : Handler) → hooks user_hooks h ≡ forwarded h
  unfolding hooks logger_handler_hooks transparent_handler_hooks operation_hooks operation_v1_hooks
      op_continuation_hooks
  hooks-forwarded (user h) = refl
  hooks-forwarded (logger_handler h lg) = hooks-forwarded h
  hooks-forwarded (transparent_handler context impl h) = hooks-forwarded h
  hooks-forwarded (operation h) = hooks-forwarded h
  hooks-forwarded (operation_v1 h) = hooks-forwarded h
  hooks-forwarded (op_continuation h cont) =
      ap (λ k. op_continuation_hooks k cont) (hooks-forwarded h)
