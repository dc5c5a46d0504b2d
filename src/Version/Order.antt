-- ===== src/Version/Order.antt =====
-- The orders of the containers that a version has, from those of their elements.
use cxx_util.Prelude.{
  ℕ, ◌≡◌, refl, sym, ap, ap₂, ◌∙◌, subst, arith, Bool, true, false, ◌&&◌, List, [], ◌∷◌, ltb, ◌==◌,
  ◌⊎◌, inl, inr, Bool-cases, false≢true,
}
use cxx_util.Version.{equal, less}

-- A strict and total order, as a test, and the test of equality.
pub record StrictOrder (A : Type 0) (lt eq : A → A → Bool) : Type 0 where
  pub irreflexive : (a : A) → lt a a ≡ false
  pub transitive : (a b c : A) → lt a b ≡ true → lt b c ≡ true → lt a c ≡ true
  pub total : (a b : A) → lt a b ≡ false → lt b a ≡ false → a ≡ b
  pub equal_same : (a b : A) → eq a b ≡ true → a ≡ b
  pub equal_refl : (a : A) → eq a a ≡ true

pub number_order : StrictOrder ℕ ltb ◌==◌
number_order = record {
  irreflexive = λ a. ground arith;
  transitive = λ a b c p q. ground arith;
  total = λ a b p q. ground arith;
  equal_same = λ a b p. ground arith;
  equal_refl = λ a. ground arith;
}

module _ {A : Type 0} {lt eq : A → A → Bool} (order : StrictOrder A lt eq) where
  asymmetric : (a b : A) → lt a b ≡ true → lt b a ≡ false
  asymmetric a b p = elim (Bool-cases (lt b a)) [
    | inl e ↦ absurd (false≢true (sym (order.irreflexive a) ∙ order.transitive a b a p e))
    | inr e ↦ e
  ]

  -- Elements are in order, the same, or in the other order.
  pub three : (a b : A) → (lt a b ≡ true) ⊎ ((a ≡ b) ⊎ (lt b a ≡ true))
  three a b = elim (Bool-cases (lt a b)) [
    | inl e ↦ inl e
    | inr e ↦ elim (Bool-cases (lt b a)) [
      | inl f ↦ inr (inr f)
      | inr f ↦ inr (inl (order.total a b e f))
    ]
  ]

  less-here : (x y : A) (xs ys : List A) → lt x y ≡ true → less lt (x ∷ xs) (y ∷ ys) ≡ true
  unfolding less
  less-here x y xs ys p = rw (p, less) refl

  less-above : (x y : A) (xs ys : List A) → lt y x ≡ true → less lt (x ∷ xs) (y ∷ ys) ≡ false
  unfolding less
  less-above x y xs ys p = rw (asymmetric y x p, p, less) refl

  less-same : (x : A) (xs ys : List A) → less lt (x ∷ xs) (x ∷ ys) ≡ less lt xs ys
  unfolding less
  less-same x xs ys = rw (order.irreflexive x, less) refl

  -- What puts one list before another: their first elements, or the rest after the same one.
  less-cases :
      (x y : A) (xs ys : List A)
      → less lt (x ∷ xs) (y ∷ ys) ≡ true
      → (lt x y ≡ true) ⊎ ((x ≡ y) × (less lt xs ys ≡ true))
  less-cases x y xs ys h = elim (three x y) [
    | inl p ↦ inl p
    | inr (inl e) ↦ inr (e, sym (less-same x xs ys) ∙ ap (λ z. less lt (x ∷ xs) (z ∷ ys)) e ∙ h)
    | inr (inr p) ↦ absurd (false≢true (sym (less-above x y xs ys p) ∙ h))
  ]

  less-irreflexive : (xs : List A) → less lt xs xs ≡ false
  unfolding less
  less-irreflexive [] = refl
  less-irreflexive (x ∷ xs) = less-same x xs xs ∙ less-irreflexive xs

  less-transitive :
      (xs ys zs : List A) → less lt xs ys ≡ true → less lt ys zs ≡ true → less lt xs zs ≡ true
  unfolding less
  less-transitive [] [] zs p q = cc
  less-transitive [] (y ∷ ys) [] p q = cc
  less-transitive [] (y ∷ ys) (z ∷ zs) p q = refl
  less-transitive (x ∷ xs) [] zs p q = cc
  less-transitive (x ∷ xs) (y ∷ ys) [] p q = cc
  less-transitive (x ∷ xs) (y ∷ ys) (z ∷ zs) p q =
      by_firsts (less-cases x y xs ys p) (less-cases y z ys zs q) (less-transitive xs ys zs)
    where
      by_firsts :
          (lt x y ≡ true) ⊎ ((x ≡ y) × (less lt xs ys ≡ true))
          → (lt y z ≡ true) ⊎ ((y ≡ z) × (less lt ys zs ≡ true))
          → (less lt xs ys ≡ true → less lt ys zs ≡ true → less lt xs zs ≡ true)
          → less lt (x ∷ xs) (z ∷ zs) ≡ true
      by_firsts (inl a) (inl b) k = less-here x z xs zs (order.transitive x y z a b)
      by_firsts (inl a) (inr (e, b)) k = less-here x z xs zs (subst (λ w. lt x w ≡ true) (e) a)
      by_firsts (inr (e, a)) (inl b) k = less-here x z xs zs (subst (λ w. lt w z ≡ true) (sym e) b)
      by_firsts (inr (e, a)) (inr (f, b)) k =
          subst (λ w. less lt (x ∷ xs) (w ∷ zs) ≡ true) (e ∙ f) (less-same x xs zs ∙ k a b)

  less-total : (xs ys : List A) → less lt xs ys ≡ false → less lt ys xs ≡ false → xs ≡ ys
  unfolding less
  less-total [] [] p q = refl
  less-total [] (y ∷ ys) p q = cc
  less-total (x ∷ xs) [] p q = cc
  less-total (x ∷ xs) (y ∷ ys) p q = by_firsts (three x y) (less-total xs ys)
    where
      by_firsts :
          (lt x y ≡ true) ⊎ ((x ≡ y) ⊎ (lt y x ≡ true))
          → (less lt xs ys ≡ false → less lt ys xs ≡ false → xs ≡ ys)
          → x ∷ xs ≡ y ∷ ys
      by_firsts (inl a) k = absurd (false≢true (sym p ∙ less-here x y xs ys a))
      by_firsts (inr (inr a)) k = absurd (false≢true (sym q ∙ less-here y x ys xs a))
      by_firsts (inr (inl e)) k =
          ap₂ (λ z zs. z ∷ zs) e
            (k (sym (less-same x xs ys) ∙ ap (λ z. less lt (x ∷ xs) (z ∷ ys)) e ∙ p)
              (sym (less-same y ys xs) ∙ ap (λ z. less lt (y ∷ ys) (z ∷ xs)) (sym e) ∙ q))

  equal-same : (xs ys : List A) → equal eq xs ys ≡ true → xs ≡ ys
  unfolding equal
  equal-same [] [] p = refl
  equal-same [] (y ∷ ys) p = cc
  equal-same (x ∷ xs) [] p = cc
  equal-same (x ∷ xs) (y ∷ ys) p =
      let (e, f) = both (eq x y) (equal eq xs ys) p in
      ap₂ (λ z zs. z ∷ zs) (order.equal_same x y e) (equal-same xs ys f)
    where
      both : (b c : Bool) → (b && c) ≡ true → (b ≡ true) × (c ≡ true)
      both true c h = (refl, h)
      both false c h = cc

  equal_self : (xs : List A) → equal eq xs xs ≡ true
  unfolding equal
  equal_self [] = refl
  equal_self (x ∷ xs) = rw (order.equal_refl x) (equal_self xs)

  pub list_order : StrictOrder (List A) (less lt) (equal eq)
  list_order = record {
    irreflexive = less-irreflexive;
    transitive = less-transitive;
    total = less-total;
    equal_same = equal-same;
    equal_refl = equal_self;
  }

pub string_order : StrictOrder (List ℕ) (less ltb) (equal ◌==◌)
string_order = list_order number_order
