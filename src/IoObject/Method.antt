-- ===== src/IoObject/Method.antt =====
-- The asynchronous methods of I/O objects.
use cxx_util.Prelude.{
  ℕ, ◌+◌, ◌<◌, ◌≡◌, refl, arith, ==_iff, List, [], ◌∷◌, ◌++◌, Option, none, some, length,
}
use cxx_util.Prelude.Count.{one_at, count}
use cxx_util.Tuple.Indices.{expand-range, get-last, indices_before}
use cxx_util.Handler.{Token, transparent_token, handler_of, works, impls}
use cxx_util.IoObject.{Call, method, method_impl}

pub one_at-same : (x : ℕ) → one_at x x ≡ 1
unfolding one_at
one_at-same x = rw ((==_iff x x).1 refl) refl

module _ (context impl : ℕ) (token : Token) where
  abbrev forwarded : List Token → Option Call
  forwarded args =
      some (record {
        implementation = impl;
        args = args;
        token = transparent_token context none token;
      })

  method-args :
      (fuel : ℕ) (a : Token) (rest args : List Token)
      → length args < fuel
      → a ∷ rest ≡ args ++ (token ∷ [])
      → method fuel context (some impl) (a ∷ rest) ≡ forwarded args
  unfolding method method_impl
  method-args fuel a rest args h e =
      rw
        (
          indices_before fuel args (a ∷ rest) token h e,
          expand-range [] args (token ∷ []) (a ∷ rest) e,
          get-last args (a ∷ rest) token e,
          method,
          method_impl,
        )
        refl

  -- With more fuel than arguments, a method of an object that has an implementation calls the method of
  -- that, with all arguments but the last and a token made from the last. The handler of this token has
  -- the work of the service's context, once more than the last argument's own handler; but it keeps this
  -- implementation only if that handler does, against the comments on `TransparentCompletionToken`.
  pub method-forgets :
      (fuel : ℕ) (args : List Token)
      → length args < fuel
      → count impl (impls (handler_of token)) ≡ 0
      → (call : Call) × (method fuel context (some impl) (args ++ (token ∷ [])) ≡ some call)
        × (call.implementation ≡ impl)
        × (call.args ≡ args)
        × (count context (works (handler_of call.token))
            ≡ count context (works (handler_of token)) + 1)
        × (count impl (impls (handler_of call.token)) ≡ 0)
  unfolding handler_of works impls count
  method-forgets fuel args h k =
      (called args, calls args h, refl, refl, omega (arith, one_at-same context), k)
    where
      called : List Token → Call
      called l = record {
        implementation = impl;
        args = l;
        token = transparent_token context none token;
      }

      calls :
          (l : List Token)
          → length l < fuel
          → method fuel context (some impl) (l ++ (token ∷ [])) ≡ some (called l)
      calls [] u = method-args fuel token [] [] u refl
      calls (a ∷ l) u = method-args fuel a (l ++ (token ∷ [])) (a ∷ l) u refl
