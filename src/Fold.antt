-- ===== src/Fold.antt =====
-- include/util/any.hpp and include/util/min_max.hpp: `any` and `max` over the arguments of a call,
-- of which there is at least one.
use cxx_util.Prelude.{
  ℕ, ◌≤◌, ◌≡◌, refl, arith, Bool, ◌||◌, List, [], ◌∷◌, ltb, if◌then◌else◌, inl, inr, Bool-cases,
  ◌⊎◌, subst, sym, ltb→lt,
}

unfoldable pub any : Bool → List Bool → Bool
any x [] = x
any x (y ∷ xs) = x || any y xs

pub max : ℕ → List ℕ → ℕ
max x [] = x
max x (y ∷ ys) = let above = max y ys in let below = max x ys in if ltb x y then above else below

-- Every number of the list is at most `m`.
abbrev pub AllAtMost : ℕ → List ℕ → Type 0
AllAtMost m [] = Unit {0}
AllAtMost m (x ∷ xs) = (x ≤ m) × AllAtMost m xs

abbrev pub IsElement : ℕ → List ℕ → Type 0
IsElement m [] = ⊥
IsElement m (x ∷ xs) = (m ≡ x) ⊎ IsElement m xs

-- `max` is one of its arguments, and none of them is greater.
pub max_lem : (x : ℕ) (ys : List ℕ) → AllAtMost (max x ys) (x ∷ ys) × IsElement (max x ys) (x ∷ ys)
unfolding max
max_lem x [] = ((omega arith, tt), inl refl)
max_lem x (y ∷ ys) =
    let ((below_x, all_x), is_x) = max_lem x ys in
    let ((below_y, all_y), is_y) = max_lem y ys in
    elim (Bool-cases (ltb x y)) [
      | inl e ↦
          subst (λ b. Fact (if b then max y ys else max x ys)) (sym e)
            ((omega (arith, (ltb→lt x y e)), (below_y, all_y)), inr is_y)
      | inr e ↦
          subst (λ b. Fact (if b then max y ys else max x ys)) (sym e)
            ((below_x, (ground arith, all_x)), skip (max x ys) is_x)
    ]
  where
    Fact : ℕ → Type 0
    Fact m = AllAtMost m (x ∷ y ∷ ys) × IsElement m (x ∷ y ∷ ys)

    skip : (m : ℕ) → IsElement m (x ∷ ys) → IsElement m (x ∷ y ∷ ys)
    skip m (inl e) = inl e
    skip m (inr e) = inr (inr e)
