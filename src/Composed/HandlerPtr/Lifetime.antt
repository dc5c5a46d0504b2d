-- ===== src/Composed/HandlerPtr/Lifetime.antt =====
-- The lifetime of the object that a `handler_ptr` owns.
use cxx_util.Prelude.{ℕ, ◌≡◌, List, [], ◌∷◌, Option, none, some}
use cxx_util.Operation.Handles.{count}
use cxx_util.Composed.HandlerPtr.{
  Effect, allocated, data_made, object_made, object_destroyed, data_destroyed, deallocated, called,
  Pointers,
}

pub data Life (R : Type 0) : Type 0 where
  not_allocated not_constructed alive deleted : Life R
  invoked : R → Life R

module _ {R : Type 0} where
  abbrev pub effects_of : Life R → List (Effect R)
  effects_of not_allocated = []
  effects_of not_constructed = allocated ∷ data_made ∷ data_destroyed ∷ deallocated ∷ []
  effects_of alive = allocated ∷ data_made ∷ object_made ∷ []
  effects_of deleted =
      allocated ∷ data_made ∷ object_made ∷ object_destroyed ∷ data_destroyed ∷ deallocated ∷ []
  effects_of (invoked args) =
      allocated
      ∷ data_made
      ∷ object_made
      ∷ object_destroyed
      ∷ data_destroyed
      ∷ deallocated
      ∷ called args
      ∷ []

  abbrev pub owners : Life R → ℕ
  owners not_allocated = 0
  owners not_constructed = 0
  owners alive = 1
  owners deleted = 0
  owners (invoked args) = 0

  abbrev pub IsLife : Life R → Pointers R → Type 0
  IsLife l p = (p.effects ≡ effects_of l) × (count p.dps ≡ owners l)

  -- What a run leaves, if it does not fault.
  abbrev pub HasLife : Option (Pointers R) → Type 0
  HasLife none = Unit {0}
  HasLife (some p) = (l : Life R) × IsLife l p
