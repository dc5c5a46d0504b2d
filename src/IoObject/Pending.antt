-- ===== src/IoObject/Pending.antt =====
-- The destruction of an I/O object while one of its asynchronous operations runs.
use cxx_util.Prelude.{
  ℕ, ◌+◌, ◌<◌, ◌≤◌, ◌≡◌, refl, arith, List, [], ◌∷◌, ◌++◌, none, some, subst, get_elem?, set,
  length, ltb, if◌then◌else◌,
}
use cxx_util.Prelude.Count.{count}
use cxx_util.Handler.{Token, handler_of, works, impls}
use cxx_util.IoObject.{Objects, Action, initial, destroy, run, Call, method}
use cxx_util.IoObject.Owned.{IsOwned, HasOwned, count_owners, count_owners-set, objects-IsOwned}
use cxx_util.IoObject.Method.{one_at-same, method-forgets}

at_most_one : (m n : ℕ) → (if ltb m n then 1 else 0) ≤ 1
at_most_one m n = ground arith

module _ (impl_close : List ℕ → ℕ → ℕ) where
  -- The object gives up its pointer, and no other has one.
  destroy-count_owners :
      (o : Objects) (i m : ℕ)
      → IsOwned o
      → get_elem? o.implementations i ≡ some (some m)
      → (o' : Objects) × (destroy impl_close i o ≡ some o')
        × (count_owners m o'.implementations ≡ 0)
  unfolding destroy
  destroy-count_owners o i m k e = (
    record o {
      implementations = set o.implementations i none;
      closes = o.closes ++ (m ∷ []);
      resets = o.resets ++ (m ∷ []);
    },
    rw (e, destroy) refl,
    omega (
      arith,
      (k m).0,
      at_most_one m o.next,
      one_at-same m,
      count_owners-set m o.implementations i (some m) e,
    ),
  )

  -- After any actions without a null or missing object, and with more fuel than arguments: a method of an
  -- object that has an implementation calls the method of that, with all arguments but the last and a token
  -- whose handler has the work of the service's context, once more than the last argument's own handler.
  -- But where that handler does not keep this implementation, and the object is destroyed, then neither an
  -- I/O object nor the handler of the operation has a pointer to it, against the comments on
  -- `TransparentCompletionToken`.
  pub destroy-method :
      (actions : List Action) (o : Objects) (i impl context fuel : ℕ) (args : List Token)
      (token : Token)
      → run impl_close actions initial ≡ some o
      → get_elem? o.implementations i ≡ some (some impl)
      → length args < fuel
      → count impl (impls (handler_of token)) ≡ 0
      → (call : Call) × (method fuel context (some impl) (args ++ (token ∷ [])) ≡ some call)
        × (call.implementation ≡ impl)
        × (call.args ≡ args)
        × (count context (works (handler_of call.token))
            ≡ count context (works (handler_of token)) + 1)
        × (o' : Objects) × (destroy impl_close i o ≡ some o')
        × (count_owners impl o'.implementations ≡ 0)
        × (count impl (impls (handler_of call.token)) ≡ 0)
  destroy-method actions o i impl context fuel args token e f h k =
      let (call, called, same, rest, kept, lost) =
        method-forgets context impl token fuel args h k in
      let (o', destroyed, none_left) =
        destroy-count_owners o i impl (subst HasOwned e (objects-IsOwned impl_close actions)) f in
      (call, called, same, rest, kept, o', destroyed, none_left, lost)
