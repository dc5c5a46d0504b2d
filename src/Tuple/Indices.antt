-- ===== src/Tuple/Indices.antt =====
-- The indices that the template recursion makes, and what `applyTuple` takes by them.
use cxx_util.Prelude.{
  ℕ, zero, suc, ◌+◌, ◌-◌, ◌/◌, ◌<◌, ◌≡◌, refl, sym, ap, ◌∙◌, arith, List, [], ◌∷◌, ◌++◌, map, some,
  length, get_elem?, length-append,
}
use mathlib.Core.List.{append_assoc, append-nil}
use cxx_util.Tuple.{merge_and_renumber, make_index_sequence, expand, apply_tuple}

abbrev pub range : ℕ → ℕ → List ℕ
range k zero = []
range k (suc n) = k ∷ range (suc k) n

length-range : (k n : ℕ) → length (range k n) ≡ n
length-range k zero = refl
length-range k (suc n) = ap suc (length-range (suc k) n)

map-range : (m k n : ℕ) → map (λ i. m + i) (range k n) ≡ range (m + k) n
map-range m k zero = refl
map-range m k (suc n) =
    ap (λ l. (m + k) ∷ l)
      (map-range m (suc k) n ∙ ap (λ t. range t n) {x = m + suc k} {y = suc (m + k)} (omega arith))

range-append : (k a b : ℕ) → range k a ++ range (k + a) b ≡ range k (a + b)
range-append k zero b =
    ap (λ t. range t b) {x = k + zero} {y = k} (omega arith)
    ∙ ap (range k) {x = b} {y = zero + b} (omega arith)
range-append k (suc a) b =
    ap (λ t. (k ∷ range (suc k) a) ++ range t b) {x = k + suc a} {y = suc k + a} (omega arith)
    ∙ ap (λ l. k ∷ l) (range-append (suc k) a b)
    ∙ ap (range k) {x = suc (a + b)} {y = suc a + b} (omega arith)

merge-range : (a b : ℕ) → merge_and_renumber (range 0 a) (range 0 b) ≡ range 0 (a + b)
merge-range a b =
    ap (λ l. range 0 a ++ l)
      (ap (λ t. map (λ i. t + i) (range 0 b)) (length-range 0 a)
        ∙ map-range a 0 b
        ∙ ap (λ t. range t b) {x = a + 0} {y = 0 + a} (omega arith))
    ∙ range-append 0 a b

-- With more fuel than N, `make_index_sequence<N>` is the sequence of the indices below N.
pub make_index_sequence_lem :
    (fuel n : ℕ) → n < fuel → make_index_sequence fuel n ≡ some (range 0 n)
unfolding make_index_sequence
make_index_sequence_lem zero n h = elim h [ ]
make_index_sequence_lem (suc fuel) zero h = refl
make_index_sequence_lem (suc fuel) (suc zero) h = refl
make_index_sequence_lem (suc fuel) (suc (suc m)) h =
    rw
      (
        make_index_sequence_lem fuel (suc (suc m) / 2) (omega arith),
        make_index_sequence_lem fuel (suc (suc m) - suc (suc m) / 2) (omega arith),
        make_index_sequence,
      )
      (ap some (
        merge-range (suc (suc m) / 2) (suc (suc m) - suc (suc m) / 2)
        ∙ ap (range 0) {y = suc (suc m)} (omega arith)))

module _ {A : Type 0} where
  get-append : (first t : List A) (x : A) → get_elem? (first ++ (x ∷ t)) (length first) ≡ some x
  get-append [] t x = refl
  get-append (p ∷ first) t x = get-append first t x

  expand-cons :
      (whole : List A) (i : ℕ) (indices : List ℕ) {x : A} {xs : List A}
      → get_elem? whole i ≡ some x
      → expand whole indices ≡ some xs
      → expand whole (i ∷ indices) ≡ some (x ∷ xs)
  unfolding expand
  expand-cons whole i indices e f = rw (e, f, expand) refl

  -- The indices of a part of a tuple take its values.
  pub expand-range :
      (first t rest whole : List A)
      → whole ≡ first ++ (t ++ rest)
      → expand whole (range (length first) (length t)) ≡ some t
  unfolding expand
  expand-range first [] rest whole e = refl
  expand-range first (x ∷ t) rest whole e =
      expand-cons whole (length first) (range (suc (length first)) (length t))
        (ap (λ l. get_elem? l (length first)) e ∙ get-append first (t ++ rest) x)
        (ap (λ k. expand whole (range k (length t))) {x = suc (length first)}
            {y = length (first ++ (x ∷ []))} (omega (arith, length-append first (x ∷ [])))
          ∙ expand-range (first ++ (x ∷ [])) t rest whole
              (e ∙ sym (append_assoc first (x ∷ []) (t ++ rest))))

  -- The last of a tuple, and the indices of those before it.
  pub get-last :
      (args t : List A) (x : A) → t ≡ args ++ (x ∷ []) → get_elem? t (length t - 1) ≡ some x
  get-last args t x e =
      ap (get_elem? t) {y = length args} (omega (arith, ap length e, length-append args (x ∷ [])))
      ∙ ap (λ l. get_elem? l (length args)) e
      ∙ get-append args [] x

  pub indices_before :
      (fuel : ℕ) (args t : List A) (x : A)
      → length args < fuel
      → t ≡ args ++ (x ∷ [])
      → make_index_sequence fuel (length t - 1) ≡ some (range 0 (length args))
  indices_before fuel args t x h e =
      ap (make_index_sequence fuel) {y = length args}
        (omega (arith, ap length e, length-append args (x ∷ [])))
      ∙ make_index_sequence_lem fuel (length args) h

  -- With more fuel than the tuple has values, `applyTuple(f, t)` is `f` at the values of `t`, each
  -- once and in their order.
  pub apply_tuple_lem :
      {B : Type 0} (fuel : ℕ) (f : List A → B) (t : List A)
      → length t < fuel
      → apply_tuple fuel f t ≡ some (f t)
  unfolding apply_tuple
  apply_tuple_lem fuel f t h =
      rw
        (
          make_index_sequence_lem fuel (length t) h,
          expand-range [] t [] t (sym (append-nil t)),
          apply_tuple,
        )
        refl
