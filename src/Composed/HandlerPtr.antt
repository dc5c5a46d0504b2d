-- ===== src/Composed/HandlerPtr.antt =====
-- include/composed/handler_ptr.hpp. The `handler_ptr` objects are numbered in the order of their
-- making, and of each it is said whether its `unique_ptr` holds the pointer to the one `data`. The
-- effects are those on the memory, the `data`, the object in it and the handler. `none` is a null
-- pointer that is followed, or an object that was not made.
pub mod Lifetime
use cxx_util.Prelude.{
  ℕ, zero, suc, ◌+◌, ◌≤◌, ◌≡◌, refl, sym, ap, ◌∙◌, subst, arith, Bool, true, false, List, [], ◌∷◌,
  ◌++◌, Option, none, some, get_elem?, set, if◌then◌else◌,
}
use cxx_util.Operation.Handles.{one_if, count, count-append, count-set}

pub data Effect (R : Type 0) : Type 0 where
  allocated data_made object_made object_destroyed data_destroyed deallocated : Effect R
  called : R → Effect R

pub record Pointers (R : Type 0) : Type 0 where
  pub dps : List Bool
  pub effects : List (Effect R)

-- The move construction of a new one, the move assignment (to the first, from the second), `invoke`
-- and the destructor.
pub data Action (R : Type 0) : Type 0 where
  moving destroying : ℕ → Action R
  assigning : ℕ → ℕ → Action R
  invoking : ℕ → R → Action R

module _ {R : Type 0} where
  -- The two deleters.
  abbrev pub half_deleter : List (Effect R) → List (Effect R)
  half_deleter es = es ++ (data_destroyed ∷ deallocated ∷ [])

  abbrev pub deleter : List (Effect R) → List (Effect R)
  deleter es = half_deleter (es ++ (object_destroyed ∷ []))

  -- The constructor, where the allocation or the construction of the object may throw.
  unfoldable pub handler_ptr : Bool → Bool → Pointers R
  handler_ptr allocates constructs =
      if allocates
      then if constructs
        then record { dps = true ∷ []; effects = allocated ∷ data_made ∷ object_made ∷ [] }
        else record { dps = []; effects = half_deleter (allocated ∷ data_made ∷ []) }
      else record { dps = []; effects = [] }

  unfoldable pub destroy : ℕ → Pointers R → Option (Pointers R)
  destroy i p = elim (get_elem? p.dps i) [
    | none ↦ none
    | some false ↦ some p
    | some true ↦ some (record { dps = set p.dps i false; effects = deleter p.effects })
  ]

  unfoldable pub invoke : ℕ → R → Pointers R → Option (Pointers R)
  invoke i args p = elim (get_elem? p.dps i) [
    | none ↦ none
    | some false ↦ none
    | some true ↦
        some (record { dps = set p.dps i false; effects = deleter p.effects ++ (called args ∷ []) })
  ]

  unfoldable pub move : ℕ → Pointers R → Option (Pointers R)
  move i p = elim (get_elem? p.dps i) [
    | none ↦ none
    | some b ↦ some (record p { dps = set p.dps i false ++ (b ∷ []) })
  ]

  -- The source lets go first, and then what the target held is deleted.
  unfoldable pub take : ℕ → ℕ → Pointers R → Option (Pointers R)
  take i j p = elim (get_elem? p.dps j) [
    | none ↦ none
    | some false ↦ destroy i p
    | some true ↦ elim (destroy i (record p { dps = set p.dps j false })) [
      | none ↦ none
      | some p' ↦ some (record p' { dps = set p'.dps i true })
    ]
  ]

  unfoldable pub step : Action R → Pointers R → Option (Pointers R)
  step (moving i) p = move i p
  step (destroying i) p = destroy i p
  step (assigning i j) p = take i j p
  step (invoking i args) p = invoke i args p

  unfoldable pub run : List (Action R) → Pointers R → Option (Pointers R)
  run [] p = some p
  run (a ∷ actions) p = elim (step a p) [ none ↦ none | some p' ↦ run actions p' ]
