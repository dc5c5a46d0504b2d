-- ===== src/IoObject.antt =====
-- `TransparentService` and `TransparentIoObject` of include/util/asio/transparentservice.hpp, and the
-- methods that its macro declares. Implementations are numbered in the order of their making, and so
-- are the I/O objects, each with its pointer, `implementation_type`. The class of the implementation
-- is a parameter, by the code that its `close` gives after a sequence of such calls; 0 is success.
-- `none` is an object that was not made, or a null pointer that is followed.
pub mod Owned
pub mod Method
pub mod Pending
mod Tests
use cxx_util.Prelude.{
  ℕ, suc, ◌+◌, ◌-◌, Bool, true, false, List, [], ◌∷◌, ◌++◌, Option, none, some, get_elem?, set,
  length, ◌==◌, if◌then◌else◌,
}
use cxx_util.Tuple.{make_index_sequence, expand}
use cxx_util.Handler.{Token, transparent_completion_token}

pub record Objects : Type 0 where
  pub implementations : List (Option ℕ)
  pub next : ℕ
  pub closes : List ℕ
  pub resets : List ℕ

-- The construction of an object, the move construction from one, `close()` and the destructor.
pub data Action : Type 0 where
  constructing : Action
  moving closing destroying : ℕ → Action

-- How a call of `close()` ends.
pub data Closed : Type 0 where
  returned : Closed
  thrown : ℕ → Closed

abbrev pub initial : Objects
initial = record { implementations = []; next = 0; closes = []; resets = [] }

unfoldable pub construct : Objects → Objects
construct o = record o {
  implementations = o.implementations ++ (some o.next ∷ []);
  next = o.next + 1;
}

unfoldable pub move_construct : ℕ → Objects → Option Objects
move_construct i o = elim (get_elem? o.implementations i) [
  | none ↦ none
  | some impl ↦ some (record o { implementations = set o.implementations i none ++ (impl ∷ []) })
]

module _ (impl_close : List ℕ → ℕ → ℕ) where
  -- `TransparentService::close`, which is that of the object with an error code.
  abbrev pub close : Option ℕ → Objects → Objects × ℕ
  close none o = (o, 0)
  close (some m) o = (record o { closes = o.closes ++ (m ∷ []) }, impl_close o.closes m)

  -- `TransparentIoObject::close()`.
  unfoldable pub close_or_throw : ℕ → Objects → Option (Objects × Closed)
  close_or_throw i o = elim (get_elem? o.implementations i) [
    | none ↦ none
    | some impl ↦
        some
          ((close impl o).0, (if (close impl o).1 == 0 then returned else thrown (close impl o).1))
  ]

  -- `impl.reset()` gives up the object's share of the implementation. What else shares it, a handler or a
  -- lambda of the implementation, is not modelled, and so neither is when it is freed.
  abbrev reset : ℕ → Option ℕ → Objects → Objects
  reset i none o = o
  reset i (some m) o = record o {
    implementations = set o.implementations i none;
    resets = o.resets ++ (m ∷ []);
  }

  -- The destructor: the service's `destroy`.
  unfoldable pub destroy : ℕ → Objects → Option Objects
  destroy i o = elim (get_elem? o.implementations i) [
    | none ↦ none
    | some impl ↦ some (reset i impl (close impl o).0)
  ]

  unfoldable pub step : Action → Objects → Option Objects
  step constructing o = some (construct o)
  step (moving i) o = move_construct i o
  step (closing i) o = elim (close_or_throw i o) [ none ↦ none | some r ↦ some r.0 ]
  step (destroying i) o = destroy i o

  unfoldable pub run : List Action → Objects → Option Objects
  run [] o = some o
  run (a ∷ actions) o = elim (step a o) [ none ↦ none | some o' ↦ run actions o' ]

-- What an asynchronous method calls: that of the implementation, with its arguments and token.
pub record Call : Type 0 where
  pub implementation : ℕ
  pub args : List Token
  pub token : Token

abbrev pub transform_completion_token : ℕ → ℕ → Token → Token
transform_completion_token context impl token = transparent_completion_token context impl token

-- The two functions that the macro declares, for the context of the service. An argument is a value
-- that is moved on, like the token.
unfoldable pub method_impl : ℕ → Option ℕ → List Token → List ℕ → Option Call
method_impl context none t indices = none
method_impl context (some impl) t indices = elim (expand t indices) [
  | none ↦ none
  | some args ↦ elim (get_elem? t (length t - 1)) [
    | none ↦ none
    | some token ↦ some (record {
      implementation = impl;
      args = args;
      token = transform_completion_token context impl token;
    })
  ]
]

unfoldable pub method : ℕ → ℕ → Option ℕ → List Token → Option Call
method fuel context impl [] = none
method fuel context impl (a ∷ args) = elim (make_index_sequence fuel (length (a ∷ args) - 1)) [
  | none ↦ none
  | some indices ↦ method_impl context impl (a ∷ args) indices
]
