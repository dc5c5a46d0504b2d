-- ===== src/Operation.antt =====
-- `OperationState` and `Operation` (version 2) of include/util/asio/operation.hpp: a coroutine's
-- state, which its `Operation`s share by a count of references, and the completion handler, which
-- is called when the last of them lets go. The `Operation` objects are numbered in the order of
-- their making; one that was moved from or reset holds a null pointer. `none` is an assertion that
-- fails, a null pointer that is followed, or a state that is used after its release.
pub mod Handles
pub mod Spec
pub mod Invariant
pub mod Results
pub mod Once
pub mod Version1
pub mod Versions
mod Tests
mod VersionTests
use cxx_util.Prelude.{
  ℕ, zero, suc, ◌+◌, ◌-◌, ◌%◌, ◌^◌, Bool, true, false, List, [], ◌∷◌, ◌++◌, Option, none, some,
  get_elem?, set, ◌==◌, if◌then◌else◌, not,
}
use cxx_util.Prelude.Word.{add_size, sub_size}

-- `called` records the results that the completion handler was called with.
pub record OperationState (R : Type 0) : Type 0 where
  pub m_result : R
  pub m_refs : ℕ
  pub released : Bool
  pub called : List R

-- The state, and for each `Operation` made so far whether it holds the pointer to it.
pub record Operations (R : Type 0) : Type 0 where
  pub state : OperationState R
  pub handles : List Bool

-- What the code does with an `Operation`, by its number: the entry of its call operator, its copy
-- and its move to a new one, `complete`, the exit of its call operator (with whether the coroutine
-- is complete), and its destruction.
pub data Action (R : Type 0) : Type 0 where
  entering copying moving destroying : ℕ → Action R
  completing : ℕ → R → Action R
  leaving : ℕ → Bool → Action R

module _ {R : Type 0} where
  abbrev pub construct : R → OperationState R
  construct default_result = record {
    m_result = default_result;
    m_refs = 0;
    released = false;
    called = [];
  }

  unfoldable pub add_ref : OperationState R → OperationState R
  add_ref s = record s { m_refs = add_size s.m_refs 1 }

  -- The last release frees the state, and then calls the handler with the result.
  pub release : OperationState R → Option (OperationState R)
  release s =
      let refs = sub_size s.m_refs 1 in
      if s.released
      then none
      else if refs == 0
      then some
          (record s { m_refs = refs; released = true; called = s.called ++ (s.m_result ∷ []) })
      else some (record s { m_refs = refs })

  abbrev pub state_complete : OperationState R → R → Option (OperationState R)
  state_complete s result = if s.released then none else some (record s { m_result = result })

  -- `makeOperation`: the state, and one `Operation` of it.
  unfoldable pub make_operation : R → Operations R
  make_operation default_result = record {
    state = add_ref (construct default_result);
    handles = true ∷ [];
  }

  abbrev with_state : List Bool → Option (OperationState R) → Option (Operations R)
  with_state hs none = none
  with_state hs (some s) = some (record { state = s; handles = hs })

  -- Whether the `Operation` of this number holds the pointer; none of it was made: `none`.
  abbrev pub held : Operations R → ℕ → Option Bool
  held o i = get_elem? o.handles i

  -- The pointer is let go: `m.reset()`, and the member's destructor.
  pub reset : ℕ → Operations R → Option (Operations R)
  reset i o = elim (held o i) [
    | none ↦ none
    | some false ↦ some o
    | some true ↦ with_state (set o.handles i false) (release o.state)
  ]

  pub copy : ℕ → Operations R → Option (Operations R)
  copy i o = elim (held o i) [
    | none ↦ none
    | some false ↦ some (record o { handles = o.handles ++ (false ∷ []) })
    | some true ↦
        if o.state.released
        then none
        else some (record { state = add_ref o.state; handles = o.handles ++ (true ∷ []) })
  ]

  pub move : ℕ → Operations R → Option (Operations R)
  move i o = elim (held o i) [
    | none ↦ none
    | some b ↦ some (record o { handles = set o.handles i false ++ (b ∷ []) })
  ]

  pub complete : ℕ → R → Operations R → Option (Operations R)
  complete i result o = elim (held o i) [
    | none ↦ none
    | some false ↦ none
    | some true ↦ with_state o.handles (state_complete o.state result)
  ]

  -- The assertion of the call operator, which then runs the coroutine of the state.
  pub enter : ℕ → Operations R → Option (Operations R)
  enter i o = elim (held o i) [
    | none ↦ none
    | some false ↦ none
    | some true ↦ if o.state.released then none else some o
  ]

  abbrev pub leave : ℕ → Bool → Operations R → Option (Operations R)
  leave i is_complete o = if is_complete then reset i o else some o

  pub step : Action R → Operations R → Option (Operations R)
  step (entering i) o = enter i o
  step (copying i) o = copy i o
  step (moving i) o = move i o
  step (destroying i) o = reset i o
  step (completing i result) o = complete i result o
  step (leaving i is_complete) o = leave i is_complete o

  pub run : List (Action R) → Operations R → Option (Operations R)
  run [] o = some o
  run (a ∷ actions) o = elim (step a o) [ none ↦ none | some o' ↦ run actions o' ]

  -- The call operator of `Operation`, over what its coroutine does.
  abbrev pub call : ℕ → List (Action R) → Bool → List (Action R)
  call i body is_complete = entering i ∷ (body ++ (leaving i is_complete ∷ []))

  -- `runChild`, by an `Operation` while `n` were made: a copy is called at once and destroyed.
  abbrev pub run_child : ℕ → ℕ → List (Action R) → Bool → List (Action R)
  run_child i n body is_complete = copying i ∷ (call n body is_complete ++ (destroying n ∷ []))

  -- `asyncDispatch`: what the context does with the `Operation` it is given, and the end of the local one.
  abbrev pub async_dispatch : (ℕ → List (Action R)) → List (Action R)
  async_dispatch dispatch = dispatch 0 ++ (destroying 0 ∷ [])
