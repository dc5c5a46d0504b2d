-- ===== src/Global/Tests.antt =====
-- A second object, after the first has no owner.
use cxx_util.Prelude.{ℕ, ◌+◌, ◌≡◌, refl, Bool, true, false, List, [], ◌∷◌, none, some, get_elem?}
use cxx_util.Global.{initial, hold, global, release, Action, access, let_go, step, run}
use cxx_util.Global.Single.{global-after_run}

abbrev actions : List Action
actions = access true ∷ let_go 0 ∷ access false ∷ access true ∷ access false ∷ []

actions-run : run actions initial ≡ record { made = 2; observed = some 1; held = 1 ∷ 1 ∷ [] }
unfolding run step global release
actions-run = refl

global-after_run_example :
    ((i p : ℕ) (b : Bool)
      → get_elem? (run actions initial).held i ≡ some p
      → global b (run actions initial) ≡ (some p, hold p (run actions initial)))
    × ((run actions initial).held ≡ []
        → (global true (run actions initial) ≡ (
          some (run actions initial).made,
          record {
            made = (run actions initial).made + 1;
            observed = some (run actions initial).made;
            held = (run actions initial).made ∷ [];
          },
        ))
          × (global false (run actions initial) ≡ (none, run actions initial)))
global-after_run_example = global-after_run actions
