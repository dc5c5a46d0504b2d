-- ===== src/Version/Classes.antt =====
-- Versions up to `operator==` of src/version.cpp, which forgets the build metadata.
use mathlib.Core.Quot
use mathlib.Core.Quot.{Quot, Quot-set}
use mathlib.Core.Bool.{Bool-set}
use cxx_util.Prelude.{◌≡◌, ◌↔◌, refl, ap, ◌∙◌, Bool, true, false, List, Option}
use cxx_util.Version.{Identifier, Version, equal_to, less_than}
use cxx_util.Version.Order.{StrictOrder}
use cxx_util.Version.Laws.{OptionalOrder}
use cxx_util.Version.Operators.{total_order}

module _
    (less_pre_release equal_pre_release : Option (List Identifier)
      → Option (List Identifier)
      → Bool)
    (documented : OptionalOrder less_pre_release equal_pre_release) where
  abbrev lt : Version → Version → Bool
  lt = less_than less_pre_release equal_pre_release

  abbrev eq : Version → Version → Bool
  eq = equal_to less_pre_release equal_pre_release

  abbrev Same : Version → Version → Type 0
  Same a b = eq a b ≡ true

  abbrev pub Class : Type 0
  Class = Quot Same

  class_set : IsSet Class
  class_set = Quot-set

  less_than-Same : (a b c : Version) → Same a b → lt a c ≡ lt b c
  unfolding less_than
  less_than-Same a b c h =
      let s = (total_order less_pre_release equal_pre_release documented a b c).0.0 h in
      ap (λ n. lt (record a { numbers = n }) c) s.0
      ∙ ap (λ p. lt (record b { pre_release = p }) c) s.1

  less_than-Same_right : (a b c : Version) → Same a b → lt c a ≡ lt c b
  unfolding less_than
  less_than-Same_right a b c h =
      let s = (total_order less_pre_release equal_pre_release documented a b c).0.0 h in
      ap (λ n. lt c (record a { numbers = n })) s.0
      ∙ ap (λ p. lt c (record b { pre_release = p })) s.1

  equal_to-same : (a b c : Version) → Same a b → eq a c ≡ eq b c
  unfolding equal_to
  equal_to-same a b c h =
      let s = (total_order less_pre_release equal_pre_release documented a b c).0.0 h in
      ap (λ n. eq (record a { numbers = n }) c) s.0
      ∙ ap (λ p. eq (record b { pre_release = p }) c) s.1

  equal_to-same_right : (a b c : Version) → Same a b → eq c a ≡ eq c b
  unfolding equal_to
  equal_to-same_right a b c h =
      let s = (total_order less_pre_release equal_pre_release documented a b c).0.0 h in
      ap (λ n. eq c (record a { numbers = n })) s.0
      ∙ ap (λ p. eq c (record b { pre_release = p })) s.1

  -- A comparison that respects the relation on both sides, of classes.
  abbrev lifted :
      (f : Version → Version → Bool)
      → ((a b c : Version) → Same a b → f a c ≡ f b c)
      → ((a b c : Version) → Same a b → f c a ≡ f c b)
      → Class
      → Class
      → Bool
  lifted f left right p q =
      Quot.lift Bool-set (λ a. Quot.lift Bool-set (f a) (λ b c h. right b c a h) q)
        (λ a b h.
          Quot.ind
            {β = λ r.
              Quot.lift Bool-set (f a) (λ x y k. right x y a k) r
              ≡ Quot.lift Bool-set (f b) (λ x y k. right x y b k) r}
            (λ r. Bool-set _ _) (λ c. left a b c h) q)
        p

  pub less_class : Class → Class → Bool
  less_class = lifted lt less_than-Same less_than-Same_right

  pub equal_class : Class → Class → Bool
  equal_class = lifted eq equal_to-same equal_to-same_right

  -- With comparisons of pre-releases as documented, `<` and `==` are well defined on the versions up to
  -- `==`, where `==` is equality and `<` is a strict total order: irreflexive, transitive, and of two
  -- different classes one is less than the other.
  pub classes-StrictOrder : StrictOrder Class less_class equal_class
  unfolding less_class equal_class
  classes-StrictOrder = record {
    irreflexive = Quot.ind (λ p. Bool-set _ _) (λ a. (laws a a a).1 (equal_refl a));
    transitive =
        Quot.ind (λ p. hlevel)
          (λ a. Quot.ind (λ q. hlevel) (λ b. Quot.ind (λ r. hlevel) (λ c. (laws a b c).2)));
    total =
        Quot.ind (λ p. hlevel (class_set))
          (λ a. Quot.ind (λ q. hlevel (class_set)) (λ b h k. Quot.sound ((laws a b a).3 h k)));
    equal_same =
        Quot.ind (λ p. hlevel (class_set))
          (λ a. Quot.ind (λ q. hlevel (class_set)) (λ b h. Quot.sound h));
    equal_refl = Quot.ind (λ p. Bool-set _ _) equal_refl;
  }
    where
      laws :
          (a b c : Version)
          → ((eq a b ≡ true) ↔ ((a.numbers ≡ b.numbers) × (a.pre_release ≡ b.pre_release)))
            × (eq a b ≡ true → lt a b ≡ false)
            × (lt a b ≡ true → lt b c ≡ true → lt a c ≡ true)
            × (lt a b ≡ false → lt b a ≡ false → eq a b ≡ true)
      laws = total_order less_pre_release equal_pre_release documented

      equal_refl : (a : Version) → eq a a ≡ true
      equal_refl a = (laws a a a).0.1 (refl, refl)
