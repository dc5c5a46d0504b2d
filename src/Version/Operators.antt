-- ===== src/Version/Operators.antt =====
-- The operators of `Version`, from the orders of its numbers and of its pre-release.
use cxx_util.Prelude.{
  ℕ, ◌≡◌, ◌↔◌, refl, sym, ap, ◌∙◌, subst, Bool, true, false, not, false≢true, ◌&&◌, ◌||◌, List,
  Option, ltb, ◌==◌, if◌then◌else◌, ◌⊎◌, inl, inr, Bool-cases,
}
use cxx_util.Version.{
  equal, less, Identifier, Version, equal_to, before_release, less_than, not_equal_to, greater,
  less_equal, greater_equal,
}
use cxx_util.Version.Order.{StrictOrder, three}
use cxx_util.Version.Laws.{OptionalOrder, numbers_order, pre_release_order}

module _
    (less_pre_release equal_pre_release : Option (List Identifier)
      → Option (List Identifier)
      → Bool)
    (h : OptionalOrder less_pre_release equal_pre_release) where
  abbrev before : Option (List Identifier) → Option (List Identifier) → Bool
  before = before_release less_pre_release equal_pre_release

  order : StrictOrder (Option (List Identifier)) before equal_pre_release
  order = pre_release_order less_pre_release equal_pre_release h

  -- By the numbers, and then by the pre-release.
  abbrev both_less : List ℕ → Option (List Identifier) → List ℕ → Option (List Identifier) → Bool
  both_less m p n q = if equal ◌==◌ m n then before p q else less ltb m n

  same_numbers : (m : List ℕ) (p q : Option (List Identifier)) → both_less m p m q ≡ before p q
  same_numbers m p q = rw (numbers_order.equal_refl m) refl

  numbers_less :
      (m n : List ℕ) (p q : Option (List Identifier))
      → less ltb m n ≡ true
      → both_less m p n q ≡ true
  numbers_less m n p q h = elim (Bool-cases (equal ◌==◌ m n)) [
    | inl e ↦ absurd (
        false≢true (
          sym (numbers_order.irreflexive m) ∙ ap (less ltb m) (numbers_order.equal_same m n e) ∙ h))
    | inr e ↦ rw e h
  ]

  less-cases :
      (m n : List ℕ) (p q : Option (List Identifier))
      → both_less m p n q ≡ true
      → (less ltb m n ≡ true) ⊎ ((m ≡ n) × (before p q ≡ true))
  less-cases m n p q h = by_test (equal ◌==◌ m n) (numbers_order.equal_same m n) h
    where
      by_test :
          (b : Bool)
          → (b ≡ true → m ≡ n)
          → (if b then before p q else less ltb m n) ≡ true
          → (less ltb m n ≡ true) ⊎ ((m ≡ n) × (before p q ≡ true))
      by_test true e k = inr (e refl, k)
      by_test false e k = inl k

  both_transitive :
      (m n k : List ℕ) (p q r : Option (List Identifier))
      → both_less m p n q ≡ true
      → both_less n q k r ≡ true
      → both_less m p k r ≡ true
  both_transitive m n k p q r g h = by_cases (less-cases m n p q g) (less-cases n k q r h)
    where
      by_cases :
          (less ltb m n ≡ true) ⊎ ((m ≡ n) × (before p q ≡ true))
          → (less ltb n k ≡ true) ⊎ ((n ≡ k) × (before q r ≡ true))
          → both_less m p k r ≡ true
      by_cases (inl a) (inl b) = numbers_less m k p r (numbers_order.transitive m n k a b)
      by_cases (inl a) (inr (e, b)) = numbers_less m k p r (subst (λ x. less ltb m x ≡ true) (e) a)
      by_cases (inr (e, a)) (inl b) =
          numbers_less m k p r (subst (λ x. less ltb x k ≡ true) (sym e) b)
      by_cases (inr (e, a)) (inr (f, b)) =
          subst (λ x. both_less m p x r ≡ true) (e ∙ f)
            (same_numbers m p r ∙ order.transitive p q r a b)

  both_total :
      (m n : List ℕ) (p q : Option (List Identifier))
      → both_less m p n q ≡ false
      → both_less n q m p ≡ false
      → (m ≡ n) × (p ≡ q)
  both_total m n p q g h = elim (three numbers_order m n) [
    | inl a ↦ absurd (false≢true (sym g ∙ numbers_less m n p q a))
    | inr (inr a) ↦ absurd (false≢true (sym h ∙ numbers_less n m q p a))
    | inr (inl e) ↦ (
      e,
      order.total p q (sym (same_numbers m p q) ∙ ap (λ x. both_less m p x q) e ∙ g)
          (sym (same_numbers n q p) ∙ ap (λ x. both_less n q x p) (sym e) ∙ h),
    )
  ]

  equal-same :
      (a b : Version)
      → equal_to less_pre_release equal_pre_release a b ≡ true
      → (a.numbers ≡ b.numbers) × (a.pre_release ≡ b.pre_release)
  unfolding equal_to
  equal-same a b h =
      let (e, f) =
        both (equal ◌==◌ a.numbers b.numbers) (equal_pre_release a.pre_release b.pre_release) h in
      (
        numbers_order.equal_same a.numbers b.numbers e,
        order.equal_same a.pre_release b.pre_release f,
      )
    where
      both : (b c : Bool) → (b && c) ≡ true → (b ≡ true) × (c ≡ true)
      both true c h = (refl, h)
      both false c h = cc

  same-equal :
      (a b : Version)
      → a.numbers ≡ b.numbers
      → a.pre_release ≡ b.pre_release
      → equal_to less_pre_release equal_pre_release a b ≡ true
  unfolding equal_to
  same-equal a b e f =
      subst (λ n. (equal ◌==◌ a.numbers n && equal_pre_release a.pre_release b.pre_release) ≡ true)
        (e)
        (subst (λ p. (equal ◌==◌ a.numbers a.numbers && equal_pre_release a.pre_release p) ≡ true)
          (f) (rw (numbers_order.equal_refl a.numbers) (order.equal_refl a.pre_release)))

  less_than-irreflexive :
      (a b : Version)
      → equal_to less_pre_release equal_pre_release a b ≡ true
      → less_than less_pre_release equal_pre_release a b ≡ false
  unfolding less_than
  less_than-irreflexive a b h =
      let (e, f) = equal-same a b h in
      subst (λ n. both_less a.numbers a.pre_release n b.pre_release ≡ false) (e)
        (same_numbers a.numbers a.pre_release b.pre_release
          ∙ ap (before a.pre_release) (sym f)
          ∙ order.irreflexive a.pre_release)

  -- With comparisons of pre-releases as documented, `==` is that of the numbers and pre-releases, whatever the build metadata. No version is less than
  -- an equal one, `<` is transitive, and of two versions that are not equal one is less than the other.
  pub total_order :
      (a b c : Version)
      → ((equal_to less_pre_release equal_pre_release a b ≡ true)
          ↔ ((a.numbers ≡ b.numbers) × (a.pre_release ≡ b.pre_release)))
        × (equal_to less_pre_release equal_pre_release a b ≡ true
            → less_than less_pre_release equal_pre_release a b ≡ false)
        × (less_than less_pre_release equal_pre_release a b ≡ true
            → less_than less_pre_release equal_pre_release b c ≡ true
            → less_than less_pre_release equal_pre_release a c ≡ true)
        × (less_than less_pre_release equal_pre_release a b ≡ false
            → less_than less_pre_release equal_pre_release b a ≡ false
            → equal_to less_pre_release equal_pre_release a b ≡ true)
  unfolding less_than
  total_order a b c = (
    (equal-same a b, λ s. same-equal a b s.0 s.1),
    less_than-irreflexive a b,
    both_transitive a.numbers b.numbers c.numbers a.pre_release b.pre_release c.pre_release,
    λ g h.
        let (e, f) = both_total a.numbers b.numbers a.pre_release b.pre_release g h in
        same-equal a b e f,
  )

  -- At most one of `a < b`, `b < a` and `a == b` holds, and so one does: the values of the others.
  one_of_three :
      (x y e : Bool)
      → (e ≡ true → x ≡ false)
      → (e ≡ true → y ≡ false)
      → (x ≡ true → y ≡ false)
      → (x ≡ false → y ≡ false → e ≡ true)
      → ((x || e) ≡ not y) × ((y || e) ≡ not x) × (x ≡ (not e && not y))
  one_of_three true true e p q r s = absurd (false≢true (sym (r refl)))
  one_of_three true false true p q r s = absurd (false≢true (sym (p refl)))
  one_of_three true false false p q r s = (refl, refl, refl)
  one_of_three false true true p q r s = absurd (false≢true (sym (q refl)))
  one_of_three false true false p q r s = (refl, refl, refl)
  one_of_three false false true p q r s = (refl, refl, refl)
  one_of_three false false false p q r s = absurd (false≢true (s refl refl))

  less_than-asymmetric :
      (a b : Version)
      → less_than less_pre_release equal_pre_release a b ≡ true
      → less_than less_pre_release equal_pre_release b a ≡ false
  less_than-asymmetric a b h =
      elim (Bool-cases (less_than less_pre_release equal_pre_release b a)) [
        | inl e ↦ absurd (
            false≢true (
              sym (less_than-irreflexive a a (same-equal a a refl refl))
              ∙ (total_order a b a).2 h e))
        | inr e ↦ e
      ]

  -- With comparisons of pre-releases as documented, the other operators agree with `<`: `<=` is that not `b < a`, and `>=` that not `a < b`; a version is
  -- less than another just if it is neither equal to it nor greater.
  pub operators_agree :
      (a b : Version)
      → (less_equal less_pre_release equal_pre_release a b
          ≡ not (greater less_pre_release equal_pre_release a b))
        × (greater_equal less_pre_release equal_pre_release a b
            ≡ not (less_than less_pre_release equal_pre_release a b))
        × (less_than less_pre_release equal_pre_release a b ≡ (
            not_equal_to less_pre_release equal_pre_release a b
            && not (greater less_pre_release equal_pre_release a b)))
  unfolding less_equal greater greater_equal not_equal_to
  operators_agree a b =
      one_of_three (less_than less_pre_release equal_pre_release a b)
        (less_than less_pre_release equal_pre_release b a)
        (equal_to less_pre_release equal_pre_release a b) (less_than-irreflexive a b)
        (λ h.
          let (e, f) = equal-same a b h in
          less_than-irreflexive b a (same-equal b a (sym e) (sym f)))
        (less_than-asymmetric a b) (total_order a b a).3
