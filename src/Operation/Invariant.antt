-- ===== src/Operation/Invariant.antt =====
-- The state of the code for a latest result and holders, and the code's operations on such a state.
use cxx_util.Prelude.{
  ℕ, zero, suc, ◌^◌, ◌<◌, ◌≡◌, refl, ap, arith, Bool, true, false, List, [], ◌∷◌, ◌++◌, Option,
  none, some, get_elem?, set, ◌==◌,
}
use cxx_util.Prelude.Word.{add_size, sub_size}
use cxx_util.Operation.{
  OperationState, Operations, add_ref, release, reset, copy, move, complete, enter,
}
use cxx_util.Operation.Handles.{count}

module _ {R : Type 0} where
  -- The state that `n` pointers share: once there is none, the handler has been called with the
  -- latest result.
  abbrev pub shared : R → ℕ → OperationState R
  shared result zero = record {
    m_result = result;
    m_refs = 0;
    released = true;
    called = result ∷ [];
  }
  shared result (suc n) = record {
    m_result = result;
    m_refs = suc n;
    released = false;
    called = [];
  }

  abbrev pub counted : R → List Bool → ℕ → Operations R
  counted result hs n = record { state = shared result n; handles = hs }

  abbrev pub operations : R → List Bool → Operations R
  operations result hs = counted result hs (count hs)

  abbrev pub concrete : Option (R × List Bool) → Option (Operations R)
  concrete none = none
  concrete (some r) = some (operations r.0 r.1)

  release-shared :
      (result : R) (n : ℕ)
      → suc n < 2 ^ 64
      → release (shared result (suc n)) ≡ some (shared result n)
  unfolding release
  release-shared result zero h = refl
  release-shared result (suc n) h = rw (sub_one, not_zero) refl
    where
      not_zero : (suc n == 0) ≡ false
      not_zero = ground arith

      sub_one : sub_size (suc (suc n)) 1 ≡ suc n
      sub_one = omega arith

  add_ref-shared :
      (result : R) (n : ℕ)
      → suc (suc n) < 2 ^ 64
      → add_ref (shared result (suc n)) ≡ shared result (suc (suc n))
  unfolding add_ref
  add_ref-shared result n h = ap with_refs {x = add_size (suc n) 1} (omega arith)
    where
      with_refs : ℕ → OperationState R
      with_refs m = record { m_result = result; m_refs = m; released = false; called = [] }

  -- Each operation, by what the numbered `Operation` holds.
  module _ (result : R) (hs : List Bool) (i : ℕ) where
    pub reset-none : (n : ℕ) → get_elem? hs i ≡ none → reset i (counted result hs n) ≡ none
    unfolding reset
    reset-none n e = rw (e, reset) refl

    pub reset-false :
        (n : ℕ)
        → get_elem? hs i ≡ some false
        → reset i (counted result hs n) ≡ some (counted result hs n)
    unfolding reset
    reset-false n e = rw (e, reset) refl

    pub reset-true :
        (n : ℕ)
        → get_elem? hs i ≡ some true
        → suc n < 2 ^ 64
        → reset i (counted result hs (suc n)) ≡ some (counted result (set hs i false) n)
    unfolding reset
    reset-true n e h = rw (e, release-shared result n h, reset) refl

    pub copy-none : (n : ℕ) → get_elem? hs i ≡ none → copy i (counted result hs n) ≡ none
    unfolding copy
    copy-none n e = rw (e, copy) refl

    pub copy-false :
        (n : ℕ)
        → get_elem? hs i ≡ some false
        → copy i (counted result hs n) ≡ some (counted result (hs ++ (false ∷ [])) n)
    unfolding copy
    copy-false n e = rw (e, copy) refl

    pub copy-true :
        (n : ℕ)
        → get_elem? hs i ≡ some true
        → suc (suc n) < 2 ^ 64
        → copy i (counted result hs (suc n))
          ≡ some (counted result (hs ++ (true ∷ [])) (suc (suc n)))
    unfolding copy
    copy-true n e h = rw (e, add_ref-shared result n h, copy) refl

    pub move-none : (n : ℕ) → get_elem? hs i ≡ none → move i (counted result hs n) ≡ none
    unfolding move
    move-none n e = rw (e, move) refl

    pub move-some :
        (n : ℕ) (b : Bool)
        → get_elem? hs i ≡ some b
        → move i (counted result hs n) ≡ some (counted result (set hs i false ++ (b ∷ [])) n)
    unfolding move
    move-some n b e = rw (e, move) refl

    pub complete-some :
        (n : ℕ) (r : R)
        → get_elem? hs i ≡ some true
        → complete i r (counted result hs (suc n)) ≡ some (counted r hs (suc n))
    unfolding complete
    complete-some n r e = rw (e, complete) refl

    pub enter-some :
        (n : ℕ)
        → get_elem? hs i ≡ some true
        → enter i (counted result hs (suc n)) ≡ some (counted result hs (suc n))
    unfolding enter
    enter-some n e = rw (e, enter) refl

    pub complete-none :
        (n : ℕ) (r : R) → get_elem? hs i ≡ none → complete i r (counted result hs n) ≡ none
    unfolding complete
    complete-none n r e = rw (e, complete) refl

    pub complete-false :
        (n : ℕ) (r : R) → get_elem? hs i ≡ some false → complete i r (counted result hs n) ≡ none
    unfolding complete
    complete-false n r e = rw (e, complete) refl

    pub enter-none : (n : ℕ) → get_elem? hs i ≡ none → enter i (counted result hs n) ≡ none
    unfolding enter
    enter-none n e = rw (e, enter) refl

    pub enter-false : (n : ℕ) → get_elem? hs i ≡ some false → enter i (counted result hs n) ≡ none
    unfolding enter
    enter-false n e = rw (e, enter) refl
