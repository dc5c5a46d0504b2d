-- ===== src/Operation/Spec.antt =====
-- The promise of `Operation`: what is left when the count is forgotten, which is the latest result
-- and the `Operation`s that hold the pointer.
use cxx_util.Prelude.{
  ℕ, Bool, true, false, List, [], ◌∷◌, ◌++◌, Option, none, some, get_elem?, set, if◌then◌else◌,
}
use cxx_util.Operation.{Action, entering, copying, moving, destroying, completing, leaving}

module _ {R : Type 0} where
  abbrev pub held : List Bool → ℕ → R → Option (R × List Bool)
  held hs i result = elim (get_elem? hs i) [
    | none ↦ none
    | some false ↦ none
    | some true ↦ some (result, hs)
  ]

  abbrev pub let_go : List Bool → ℕ → R → Option (R × List Bool)
  let_go hs i result = elim (get_elem? hs i) [
    | none ↦ none
    | some b ↦ some (result, set hs i false)
  ]

  unfoldable pub step : Action R → R → List Bool → Option (R × List Bool)
  step (entering i) result hs = held hs i result
  step (completing i r) result hs = held hs i r
  step (copying i) result hs = elim (get_elem? hs i) [
    | none ↦ none
    | some b ↦ some (result, hs ++ (b ∷ []))
  ]
  step (moving i) result hs = elim (get_elem? hs i) [
    | none ↦ none
    | some b ↦ some (result, set hs i false ++ (b ∷ []))
  ]
  step (destroying i) result hs = let_go hs i result
  step (leaving i is_complete) result hs =
      if is_complete then let_go hs i result else some (result, hs)

  unfoldable pub run : List (Action R) → R → List Bool → Option (R × List Bool)
  run [] result hs = some (result, hs)
  run (a ∷ actions) result hs = elim (step a result hs) [
    | none ↦ none
    | some r ↦ run actions r.0 r.1
  ]
