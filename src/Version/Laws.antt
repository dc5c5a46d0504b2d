-- ===== src/Version/Laws.antt =====
-- The orders of the numbers and of the pre-release of a `Version`.
use cxx_util.Prelude.{
  ℕ, ◌≡◌, refl, sym, ap, ◌∙◌, Bool, true, false, not, ◌&&◌, false≢true, List, Option, none, some,
  ltb, ◌==◌, if◌then◌else◌,
}
use cxx_util.Version.{equal, less, to_bool, Identifier, before_release}
use cxx_util.Version.Order.{StrictOrder, number_order, list_order}

pub numbers_order : StrictOrder (List ℕ) (less ltb) (equal ◌==◌)
numbers_order = list_order number_order

-- What is documented of the comparisons of `boost::optional`, for values that are strictly ordered.
pub record OptionalOrder
    (less_pre_release equal_pre_release : Option (List Identifier)
      → Option (List Identifier)
      → Bool)
    : Type 0 where
  pub none_some : (x : List Identifier) → less_pre_release none (some x) ≡ true
  pub not_none : (a : Option (List Identifier)) → less_pre_release a none ≡ false
  pub both_none : equal_pre_release none none ≡ true
  pub none_and_some : (x : List Identifier) → equal_pre_release none (some x) ≡ false
  pub some_and_none : (x : List Identifier) → equal_pre_release (some x) none ≡ false
  pub values :
      StrictOrder
        (List Identifier)
        (λ x y. less_pre_release (some x) (some y))
        (λ x y. equal_pre_release (some x) (some y))

module _
    (less_pre_release equal_pre_release : Option (List Identifier)
      → Option (List Identifier)
      → Bool)
    (h : OptionalOrder less_pre_release equal_pre_release) where
  abbrev before : Option (List Identifier) → Option (List Identifier) → Bool
  before = before_release less_pre_release equal_pre_release

  before-some :
      (x y : List Identifier) → before (some x) (some y) ≡ less_pre_release (some x) (some y)
  before-some x y = by_test (less_pre_release (some x) (some y))
    where
      by_test : (b : Bool) → (if b then true && true else true && not true) ≡ b
      by_test true = refl
      by_test false = refl

  before-none : (a : Option (List Identifier)) → before none a ≡ false
  before-none a = by_test (less_pre_release none a)
    where
      by_test : (b : Bool) → (if b then false && to_bool a else false && not (to_bool a)) ≡ false
      by_test true = refl
      by_test false = refl

  some-before : (x : List Identifier) → before (some x) none ≡ true
  some-before x = rw (h.not_none (some x)) refl

  -- `before_release` is a strict and total order, with the comparison of optional values for equality.
  pub pre_release_order : StrictOrder (Option (List Identifier)) before equal_pre_release
  pre_release_order = record {
    irreflexive = irreflexive;
    transitive = transitive;
    total = total;
    equal_same = equal_same;
    equal_refl = equal_refl;
  }
    where
      irreflexive : (a : Option (List Identifier)) → before a a ≡ false
      irreflexive none = before-none none
      irreflexive (some a) = before-some a a ∙ h.values.irreflexive a

      transitive :
          (a b c : Option (List Identifier))
          → before a b ≡ true
          → before b c ≡ true
          → before a c ≡ true
      transitive none b c p q = absurd (false≢true (sym (before-none b) ∙ p))
      transitive (some a) none c p q = absurd (false≢true (sym (before-none c) ∙ q))
      transitive (some a) (some b) none p q = some-before a
      transitive (some a) (some b) (some c) p q =
          before-some a c
          ∙ h.values.transitive a b c (sym (before-some a b) ∙ p) (sym (before-some b c) ∙ q)

      total : (a b : Option (List Identifier)) → before a b ≡ false → before b a ≡ false → a ≡ b
      total none none p q = refl
      total none (some b) p q = absurd (false≢true (sym q ∙ some-before b))
      total (some a) none p q = absurd (false≢true (sym p ∙ some-before a))
      total (some a) (some b) p q =
          ap some (h.values.total a b (sym (before-some a b) ∙ p) (sym (before-some b a) ∙ q))

      equal_same : (a b : Option (List Identifier)) → equal_pre_release a b ≡ true → a ≡ b
      equal_same none none p = refl
      equal_same none (some b) p = absurd (false≢true (sym (h.none_and_some b) ∙ p))
      equal_same (some a) none p = absurd (false≢true (sym (h.some_and_none a) ∙ p))
      equal_same (some a) (some b) p = ap some (h.values.equal_same a b p)

      equal_refl : (a : Option (List Identifier)) → equal_pre_release a a ≡ true
      equal_refl none = h.both_none
      equal_refl (some a) = h.values.equal_refl a
