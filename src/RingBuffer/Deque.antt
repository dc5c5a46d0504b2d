-- ===== src/RingBuffer/Deque.antt =====
-- What a ring buffer promises: a list of at most `n` elements that forgets from the far end.
use cxx_util.Prelude.{
  ℕ, ◌≡◌, ◌≢◌, refl, ap, arith, List, [], ◌∷◌, ◌++◌, Option, none, some, ◌==◌, if◌then◌else◌,
  length,
}

-- What a client asks of the buffer.
pub data Op {ℓ} (T : Type ℓ) : Type ℓ where
  put_back put_front : T → Op T
  take_front take_back : Op T

module _ {ℓ} {T : Type ℓ} where
  abbrev pub rest : List T → List T
  rest [] = []
  rest (x ∷ xs) = xs

  abbrev pub all_but_last : List T → List T
  all_but_last [] = []
  all_but_last (x ∷ []) = []
  all_but_last (x ∷ y ∷ ys) = x ∷ all_but_last (y ∷ ys)

  unfoldable pub push_back : ℕ → List T → T → List T
  push_back n l x = (if length l == n then rest l else l) ++ (x ∷ [])

  unfoldable pub push_front : ℕ → List T → T → List T
  push_front n l x = x ∷ (if length l == n then all_but_last l else l)

  unfoldable pub pop_front : List T → Option (List T)
  pop_front [] = none
  pop_front (x ∷ xs) = some xs

  unfoldable pub pop_back : List T → Option (List T)
  pop_back [] = none
  pop_back (x ∷ xs) = some (all_but_last (x ∷ xs))

  pub push_back-full :
      (n : ℕ) (l : List T) (x : T) → length l ≡ n → push_back n l x ≡ rest l ++ (x ∷ [])
  unfolding push_back
  push_back-full n l x e = ground arith

  pub push_back-room : (n : ℕ) (l : List T) (x : T) → length l ≢ n → push_back n l x ≡ l ++ (x ∷ [])
  unfolding push_back
  push_back-room n l x e = ground arith

  pub push_front-full :
      (n : ℕ) (l : List T) (x : T) → length l ≡ n → push_front n l x ≡ x ∷ all_but_last l
  unfolding push_front
  push_front-full n l x e = ground arith

  pub push_front-room : (n : ℕ) (l : List T) (x : T) → length l ≢ n → push_front n l x ≡ x ∷ l
  unfolding push_front
  push_front-room n l x e = ground arith

  pub all_but_last-append : (l : List T) (x : T) → all_but_last (l ++ (x ∷ [])) ≡ l
  all_but_last-append [] x = refl
  all_but_last-append (y ∷ []) x = refl
  all_but_last-append (y ∷ z ∷ zs) x = ap (◌∷◌ y) (all_but_last-append (z ∷ zs) x)

  pub pop_back-append : (l : List T) (x : T) → pop_back (l ++ (x ∷ [])) ≡ some l
  unfolding pop_back
  pop_back-append [] x = refl
  pop_back-append (y ∷ ys) x = ap some (all_but_last-append (y ∷ ys) x)

  unfoldable pub step : ℕ → List T → Op T → Option (List T)
  unfolding push_back push_front pop_front pop_back
  step n l (put_back x) = some (push_back n l x)
  step n l (put_front x) = some (push_front n l x)
  step n l take_front = pop_front l
  step n l take_back = pop_back l

  unfoldable pub run : ℕ → List T → List (Op T) → Option (List T)
  run n l [] = some l
  run n l (o ∷ os) = elim (step n l o) [ none ↦ none | some l' ↦ run n l' os ]
