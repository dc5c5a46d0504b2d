-- ===== src/Version/Identifiers.antt =====
-- Comparisons of pre-releases as the documentation of `boost::variant` and `boost::optional` has them:
-- a number before a string, and none before any value.
use cxx_util.Prelude.{◌≡◌, refl, ap, Bool, true, false, List, Option, none, some, ltb, ◌==◌}
use cxx_util.Version.{equal, less, Identifier, number, text}
use cxx_util.Version.Order.{StrictOrder, number_order, string_order, list_order}
use cxx_util.Version.Laws.{OptionalOrder}

module _ {A : Type 0} where
  -- Of optional values.
  abbrev pub equal_optional : (A → A → Bool) → Option A → Option A → Bool
  equal_optional eq none none = true
  equal_optional eq none (some b) = false
  equal_optional eq (some a) none = false
  equal_optional eq (some a) (some b) = eq a b

  abbrev pub less_optional : (A → A → Bool) → Option A → Option A → Bool
  less_optional lt a none = false
  less_optional lt none (some b) = true
  less_optional lt (some a) (some b) = lt a b

abbrev pub equal_identifier : Identifier → Identifier → Bool
equal_identifier (number a) (number b) = a == b
equal_identifier (number a) (text t) = false
equal_identifier (text s) (number b) = false
equal_identifier (text s) (text t) = equal ◌==◌ s t

abbrev pub less_identifier : Identifier → Identifier → Bool
less_identifier (number a) (number b) = ltb a b
less_identifier (number a) (text t) = true
less_identifier (text s) (number b) = false
less_identifier (text s) (text t) = less ltb s t

identifier_order : StrictOrder Identifier less_identifier equal_identifier
identifier_order = record {
  irreflexive = irreflexive;
  transitive = transitive;
  total = total;
  equal_same = equal_same;
  equal_refl = equal_refl;
}
  where
    irreflexive : (a : Identifier) → less_identifier a a ≡ false
    irreflexive (number a) = number_order.irreflexive a
    irreflexive (text s) = string_order.irreflexive s

    transitive :
        (a b c : Identifier)
        → less_identifier a b ≡ true
        → less_identifier b c ≡ true
        → less_identifier a c ≡ true
    transitive (number a) (number b) (number c) p q = number_order.transitive a b c p q
    transitive (number a) (number b) (text c) p q = refl
    transitive (number a) (text b) (number c) p q = cc
    transitive (number a) (text b) (text c) p q = refl
    transitive (text a) (number b) c p q = cc
    transitive (text a) (text b) (number c) p q = cc
    transitive (text a) (text b) (text c) p q = string_order.transitive a b c p q

    total : (a b : Identifier) → less_identifier a b ≡ false → less_identifier b a ≡ false → a ≡ b
    total (number a) (number b) p q = ap number (number_order.total a b p q)
    total (number a) (text b) p q = cc
    total (text a) (number b) p q = cc
    total (text a) (text b) p q = ap text (string_order.total a b p q)

    equal_same : (a b : Identifier) → equal_identifier a b ≡ true → a ≡ b
    equal_same (number a) (number b) p = ap number (number_order.equal_same a b p)
    equal_same (number a) (text b) p = cc
    equal_same (text a) (number b) p = cc
    equal_same (text a) (text b) p = ap text (string_order.equal_same a b p)

    equal_refl : (a : Identifier) → equal_identifier a a ≡ true
    equal_refl (number a) = number_order.equal_refl a
    equal_refl (text s) = string_order.equal_refl s

abbrev pub less_documented : Option (List Identifier) → Option (List Identifier) → Bool
less_documented = less_optional (less less_identifier)

abbrev pub equal_documented : Option (List Identifier) → Option (List Identifier) → Bool
equal_documented = equal_optional (equal equal_identifier)

pub documented-OptionalOrder : OptionalOrder less_documented equal_documented
documented-OptionalOrder = record {
  none_some = λ x. refl;
  not_none = λ a. refl;
  both_none = refl;
  none_and_some = λ x. refl;
  some_and_none = λ x. refl;
  values = list_order identifier_order;
}
