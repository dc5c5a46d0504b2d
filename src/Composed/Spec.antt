-- ===== src/Composed/Spec.antt =====
-- The promise of a composed operation, of its task alone: a call of the task ends in a wait for a
-- result or in its completion, and any other call of it is a fault.
use cxx_util.Prelude.{Bool, true, List, [], ◌∷◌, Option, none, some}
use cxx_util.Composed.{Use, continuing, completing}

pub data Outcome (S A R : Type 0) : Type 0 where
  waits : S → (S → A → S) → Bool → Outcome S A R
  completed : R → Outcome S A R

module _ {S A R : Type 0} where
  -- By the one use that the task made of its `op`.
  abbrev pub outcome : Bool → List (Use S A R) → S → Option (Outcome S A R)
  outcome cont [] s = none
  outcome cont (continuing results ∷ []) s = some (waits s results cont)
  outcome cont (completing result ∷ []) s = some (completed result)
  outcome cont (u ∷ u' ∷ uses) s = none

  module _ (body : S → List (Use S A R) × S) where
    unfoldable pub start : Bool → S → Option (Outcome S A R)
    start cont task = outcome cont (body task).0 (body task).1

    unfoldable pub resume : A → Outcome S A R → Option (Outcome S A R)
    resume args (waits task results cont) = start true (results task args)
    resume args (completed result) = none

    unfoldable pub run : List A → Outcome S A R → Option (Outcome S A R)
    run [] o = some o
    run (args ∷ calls) o = elim (resume args o) [ none ↦ none | some o' ↦ run calls o' ]
