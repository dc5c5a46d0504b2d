-- ===== src/Composed/Stdlib.antt =====
-- include/composed/stdlib.hpp: its integer sequences and `apply`, with a sequence as a list and the
-- instances of the templates by number. The specialisations are chosen by their tests. A tuple is a
-- list of values of one type. The fuel is the depth of instances.
use cxx_util.Prelude.{
  ℕ, zero, suc, ◌+◌, ◌-◌, ◌/◌, ◌≡◌, refl, arith, true, false, List, [], ◌∷◌, ◌++◌, map, Option,
  none, some, length, ◌==◌,
}
use cxx_util.Tuple
use cxx_util.Tuple.{expand}

abbrev pub merge_and_renumber : List ℕ → List ℕ → List ℕ
merge_and_renumber i1 i2 = i1 ++ map (λ i. length i1 + i) i2

abbrev merge_both : Option (List ℕ) → Option (List ℕ) → Option (List ℕ)
merge_both none o = none
merge_both (some i1) none = none
merge_both (some i1) (some i2) = some (merge_and_renumber i1 i2)

unfoldable pub make_integer_sequence_impl : ℕ → ℕ → Option (List ℕ)
make_integer_sequence_impl zero n = none
make_integer_sequence_impl (suc fuel) n = elim (n == 0) [
  | true ↦ some []
  | false ↦ elim (n == 1) [
    | true ↦ some (0 ∷ [])
    | false ↦
        merge_both (make_integer_sequence_impl fuel (n / 2))
          (make_integer_sequence_impl fuel (n - n / 2))
  ]
]

module _ {A B : Type 0} where
  abbrev apply_impl : (List A → B) → List A → List ℕ → Option B
  apply_impl f t indices = elim (expand t indices) [ none ↦ none | some xs ↦ some (f xs) ]

  unfoldable pub apply : ℕ → (List A → B) → List A → Option B
  apply fuel f t = elim (make_integer_sequence_impl fuel (length t)) [
    | none ↦ none
    | some indices ↦ apply_impl f t indices
  ]

merge_both-same : (o o' : Option (List ℕ)) → merge_both o o' ≡ Tuple.merge_both o o'
merge_both-same none o' = refl
merge_both-same (some i1) none = refl
merge_both-same (some i1) (some i2) = refl

pub sequences_same :
    (fuel n : ℕ) → make_integer_sequence_impl fuel n ≡ Tuple.make_index_sequence fuel n
unfolding make_integer_sequence_impl Tuple.make_index_sequence
sequences_same zero n = refl
sequences_same (suc fuel) zero = refl
sequences_same (suc fuel) (suc zero) = refl
sequences_same (suc fuel) (suc (suc m)) =
    rw
      (
        not_zero,
        not_one,
        sequences_same fuel (suc (suc m) / 2),
        sequences_same fuel (suc (suc m) - suc (suc m) / 2),
        make_integer_sequence_impl,
        Tuple.make_index_sequence,
      )
      (merge_both-same (Tuple.make_index_sequence fuel (suc (suc m) / 2))
        (Tuple.make_index_sequence fuel (suc (suc m) - suc (suc m) / 2)))
  where
    not_zero : (suc (suc m) == 0) ≡ false
    not_zero = ground arith

    not_one : (suc (suc m) == 1) ≡ false
    not_one = ground arith

-- The sequences and the application of a function are those of include/util/index_sequence.hpp and
-- include/util/applytuple.hpp, at every depth of instances.
pub apply-same :
    {A B : Type 0} (fuel : ℕ) (f : List A → B) (t : List A)
    → (make_integer_sequence_impl fuel (length t) ≡ Tuple.make_index_sequence fuel (length t))
      × (apply fuel f t ≡ Tuple.apply_tuple fuel f t)
unfolding apply Tuple.apply_tuple
apply-same fuel f t = (
  sequences_same fuel (length t),
  rw (sequences_same fuel (length t), apply, Tuple.apply_tuple) refl,
)
