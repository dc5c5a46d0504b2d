-- ===== src/Operation/Version1.antt =====
-- `OperationState` and `Operation` of namespace v1 of include/util/asio/operation.hpp. The base class
-- is a type of states with its function `result`, and its call operator a sequence of changes of the
-- state (`working`) and of what else it does with the `Operation`s.
pub mod Steps
use cxx_util.Prelude.{
  ℕ, Bool, true, false, List, [], ◌∷◌, ◌++◌, Option, none, some, get_elem?, set, ◌==◌,
  if◌then◌else◌,
}
use cxx_util.Prelude.Word.{add_size, sub_size}

pub record OperationState (B R : Type 0) : Type 0 where
  pub base : B
  pub refs : ℕ
  pub released : Bool
  pub called : List R

pub record Operations (B R : Type 0) : Type 0 where
  pub state : OperationState B R
  pub handles : List Bool

pub data Action (B : Type 0) : Type 0 where
  entering copying moving destroying : ℕ → Action B
  working : ℕ → (B → B) → Action B
  leaving : ℕ → Bool → Action B

module _ {B R : Type 0} (result : B → R) where
  abbrev pub construct : B → OperationState B R
  construct b = record { base = b; refs = 0; released = false; called = [] }

  unfoldable pub add_ref : OperationState B R → OperationState B R
  add_ref s = record s { refs = add_size s.refs 1 }

  -- The last release frees the state, and then calls the handler with the result.
  unfoldable pub release : OperationState B R → Option (OperationState B R)
  release s =
      let refs = sub_size s.refs 1 in
      if s.released
      then none
      else if refs == 0
      then some
          (record s { refs = refs; released = true; called = s.called ++ (result s.base ∷ []) })
      else some (record s { refs = refs })

  -- `makeOperationState`: the pointer that it returns.
  unfoldable pub make_operation_state : B → OperationState B R
  make_operation_state b = add_ref (construct b)

  abbrev pub with_state : List Bool → Option (OperationState B R) → Option (Operations B R)
  with_state hs none = none
  with_state hs (some s) = some (record { state = s; handles = hs })

  -- `makeOperation`: the constructor of `Operation` copies the pointer, which is then destroyed.
  unfoldable pub make_operation : B → Option (Operations B R)
  make_operation b = with_state (true ∷ []) (release (add_ref (make_operation_state b)))

  abbrev pub held : Operations B R → ℕ → Option Bool
  held o i = get_elem? o.handles i

  unfoldable pub reset : ℕ → Operations B R → Option (Operations B R)
  reset i o = elim (held o i) [
    | none ↦ none
    | some false ↦ some o
    | some true ↦ with_state (set o.handles i false) (release o.state)
  ]

  unfoldable pub copy : ℕ → Operations B R → Option (Operations B R)
  copy i o = elim (held o i) [
    | none ↦ none
    | some false ↦ some (record o { handles = o.handles ++ (false ∷ []) })
    | some true ↦
        if o.state.released
        then none
        else some (record { state = add_ref o.state; handles = o.handles ++ (true ∷ []) })
  ]

  unfoldable pub move : ℕ → Operations B R → Option (Operations B R)
  move i o = elim (held o i) [
    | none ↦ none
    | some b ↦ some (record o { handles = set o.handles i false ++ (b ∷ []) })
  ]

  -- The assertion of the call operator, which then runs that of the base class.
  unfoldable pub enter : ℕ → Operations B R → Option (Operations B R)
  enter i o = elim (held o i) [
    | none ↦ none
    | some false ↦ none
    | some true ↦ if o.state.released then none else some o
  ]

  -- A change of the base class's state, by code that holds the pointer.
  unfoldable pub work : ℕ → (B → B) → Operations B R → Option (Operations B R)
  work i f o = elim (held o i) [
    | none ↦ none
    | some false ↦ none
    | some true ↦
        if o.state.released
        then none
        else some (record o { state = record o.state { base = f o.state.base } })
  ]

  abbrev pub leave : ℕ → Bool → Operations B R → Option (Operations B R)
  leave i is_complete o = if is_complete then reset i o else some o

  unfoldable pub step : Action B → Operations B R → Option (Operations B R)
  step (entering i) o = enter i o
  step (copying i) o = copy i o
  step (moving i) o = move i o
  step (destroying i) o = reset i o
  step (working i f) o = work i f o
  step (leaving i is_complete) o = leave i is_complete o

  unfoldable pub run : List (Action B) → Operations B R → Option (Operations B R)
  run [] o = some o
  run (a ∷ actions) o = elim (step a o) [ none ↦ none | some o' ↦ run actions o' ]
