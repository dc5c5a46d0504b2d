-- ===== src/Version/Tests.antt =====
-- Versions that semver.org orders: 1.0.0-alpha < 1.0.0-alpha.1 < 1.0.0-beta.2 < 1.0.0.
use cxx_util.Prelude.{◌≡◌, refl, true, false, List, [], ◌∷◌, Option, none, some}
use cxx_util.Version.{equal, less, Identifier, number, text, Version, equal_to, less_than}
use cxx_util.Version.Order.{StrictOrder}
use cxx_util.Version.Classes.{Class, less_class, equal_class, classes-StrictOrder}
use cxx_util.Version.Identifiers.{less_documented, equal_documented, documented-OptionalOrder}

abbrev one : Option (List Identifier) → Version
one p = record { numbers = 1 ∷ 0 ∷ 0 ∷ []; pre_release = p; build_metadata = none }

abbrev alpha : Identifier
alpha = text (97 ∷ 108 ∷ [])

abbrev beta : Identifier
beta = text (98 ∷ 101 ∷ [])

alpha_first :
    less_than less_documented equal_documented
      (one (some (alpha ∷ [])))
      (one (some (alpha ∷ number 1 ∷ [])))
    ≡ true
unfolding less_than less equal
alpha_first = refl

beta_later :
    less_than less_documented equal_documented
      (one (some (alpha ∷ number 1 ∷ [])))
      (one (some (beta ∷ number 2 ∷ [])))
    ≡ true
unfolding less_than less equal
beta_later = refl

release_last :
    less_than less_documented equal_documented (one (some (beta ∷ number 2 ∷ []))) (one none) ≡ true
unfolding less_than less equal
release_last = refl

-- Missing numbers are not zeros.
shorter :
    equal_to less_documented equal_documented
      (one none)
      (record (one none) { numbers = 1 ∷ 0 ∷ [] })
    ≡ false
unfolding equal_to equal
shorter = refl

classes-StrictOrder_example :
    StrictOrder
      (Class less_documented equal_documented documented-OptionalOrder)
      (less_class less_documented equal_documented documented-OptionalOrder)
      (equal_class less_documented equal_documented documented-OptionalOrder)
classes-StrictOrder_example =
    classes-StrictOrder less_documented equal_documented documented-OptionalOrder
