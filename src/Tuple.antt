-- ===== src/Tuple.antt =====
-- include/util/index_sequence.hpp and include/util/applytuple.hpp. A sequence of indices is a list;
-- the instances of the templates are by number. A tuple is a list of values of one type, of which
-- `std::get` takes one by its index. The fuel is the depth of instances; `none` is no fuel, or an
-- index that the tuple does not have.
pub mod Indices
mod Tests
use cxx_util.Prelude.{
  ℕ, zero, suc, ◌+◌, ◌-◌, ◌/◌, List, [], ◌∷◌, ◌++◌, map, Option, none, some, length, get_elem?,
}

abbrev pub merge_and_renumber : List ℕ → List ℕ → List ℕ
merge_and_renumber i1 i2 = i1 ++ map (λ i. length i1 + i) i2

abbrev pub merge_both : Option (List ℕ) → Option (List ℕ) → Option (List ℕ)
merge_both none o = none
merge_both (some i1) none = none
merge_both (some i1) (some i2) = some (merge_and_renumber i1 i2)

-- The template, with its two specialisations.
unfoldable pub make_index_sequence : ℕ → ℕ → Option (List ℕ)
make_index_sequence zero n = none
make_index_sequence (suc fuel) zero = some []
make_index_sequence (suc fuel) (suc zero) = some (0 ∷ [])
make_index_sequence (suc fuel) (suc (suc m)) =
    let n = suc (suc m) in
    merge_both (make_index_sequence fuel (n / 2)) (make_index_sequence fuel (n - n / 2))

module _ {A : Type 0} where
  -- The arguments that the expansion of the indices takes from the tuple.
  unfoldable pub expand : List A → List ℕ → Option (List A)
  expand t [] = some []
  expand t (i ∷ indices) = elim (get_elem? t i) [
    | none ↦ none
    | some x ↦ elim (expand t indices) [ none ↦ none | some xs ↦ some (x ∷ xs) ]
  ]

  unfoldable pub apply_tuple : {B : Type 0} → ℕ → (List A → B) → List A → Option B
  apply_tuple fuel f t = elim (make_index_sequence fuel (length t)) [
    | none ↦ none
    | some indices ↦ elim (expand t indices) [ none ↦ none | some xs ↦ some (f xs) ]
  ]
