-- ===== src/RingBuffer/Window.antt =====
-- The elements that a window of the circular array shows.
use native.Mathlib.Nat.{mod-lt, mod-add-mod}
use cxx_util.Prelude.{
  ℕ, zero, suc, ◌+◌, ◌-◌, ◌%◌, ◌<◌, ◌≤◌, ◌≡◌, ◌≢◌, refl, ap, ap₂, ◌∙◌, arith, List, [], ◌∷◌, ◌++◌,
  length, get_or, set,
}
use cxx_util.RingBuffer.Gap.{mod_cases}

module _ {ℓ} {T : Type ℓ} where
  pub get_or-set_self :
      (xs : List T) (i : ℕ) (v d : T) → i < length xs → get_or (set xs i v) i d ≡ v
  get_or-set_self [] i v d h = absurd (omega arith)
  get_or-set_self (x ∷ xs) zero v d h = refl
  get_or-set_self (x ∷ xs) (suc i) v d h = get_or-set_self xs i v d (omega arith)

  pub get_or-set_ne :
      (xs : List T) {i j : ℕ} (v d : T) → i ≢ j → get_or (set xs i v) j d ≡ get_or xs j d
  get_or-set_ne [] v d h = refl
  get_or-set_ne (x ∷ xs) {i = zero} {j = zero} v d h = absurd (h refl)
  get_or-set_ne (x ∷ xs) {i = zero} {j = suc j} v d h = refl
  get_or-set_ne (x ∷ xs) {i = suc i} {j = zero} v d h = refl
  get_or-set_ne (x ∷ xs) {i = suc i} {j = suc j} v d h = get_or-set_ne xs v d (λ e. h (ap suc e))

-- Two indices less than a round apart fall on different elements.
mod-ne : (n p q : ℕ) → p < q → q < p + n → p % n ≢ q % n
mod-ne n p q h k e = omega (
  arith,
  mod_cases n (p % n + (q - p)) (omega (arith, mod-lt p {m = n} (omega arith))),
  mod-lt p {m = n} (omega arith),
  mod-add-mod p n (q - p),
  ap (λ (t : ℕ). t % n) same,
)
  where
    same : p + (q - p) ≡ q
    same = omega arith

module _ {ℓ} {T : Type ℓ} (n : ℕ) (d : T) where
  -- `m` elements from index `h` on, going round at `n`.
  abbrev pub window : List T → ℕ → ℕ → List T
  window buf h zero = []
  window buf h (suc m) = get_or buf (h % n) d ∷ window buf (suc h) m

  pub length-window : (buf : List T) (h m : ℕ) → length (window buf h m) ≡ m
  length-window buf h zero = refl
  length-window buf h (suc m) = ap suc (length-window buf (suc h) m)

  suc-mod-eq : (h k : ℕ) → h % n ≡ k % n → suc h % n ≡ suc k % n
  suc-mod-eq h k e = omega (
    arith,
    mod-add-mod h n 1,
    mod-add-mod k n 1,
    ap (λ (t : ℕ). (t + 1) % n) e,
    ap (λ (t : ℕ). t % n) (one h),
    ap (λ (t : ℕ). t % n) (one k),
  )
    where
      one : (t : ℕ) → t + 1 ≡ suc t
      one t = omega arith

  -- Only the remainder of the start counts.
  pub window-mod : (buf : List T) (h k m : ℕ) → h % n ≡ k % n → window buf h m ≡ window buf k m
  window-mod buf h k zero e = refl
  window-mod buf h k (suc m) e =
      ap₂ ◌∷◌ (ap (λ (t : ℕ). get_or buf t d) e)
        (window-mod buf (suc h) (suc k) m (suc-mod-eq h k e))

  pub window_snoc :
      (buf : List T) (h m : ℕ)
      → window buf h (suc m) ≡ window buf h m ++ (get_or buf ((h + m) % n) d ∷ [])
  window_snoc buf h zero = ap (λ (t : ℕ). get_or buf (t % n) d ∷ []) (omega arith)
  window_snoc buf h (suc m) = ap (◌∷◌ (get_or buf (h % n) d)) (
      window_snoc buf (suc h) m
      ∙ ap (λ (t : ℕ). window buf (suc h) m ++ (get_or buf (t % n) d ∷ [])) (omega arith))

  -- A write outside the window does not show.
  pub window-set :
      (buf : List T) (v : T) (p h m : ℕ)
      → p < h
      → h + m ≤ p + n
      → window (set buf (p % n) v) h m ≡ window buf h m
  window-set buf v p h zero k l = refl
  window-set buf v p h (suc m) k l =
      ap₂ ◌∷◌ (get_or-set_ne buf v d (mod-ne n p h k (omega arith)))
        (window-set buf v p (suc h) m (omega arith) (omega arith))

  pub get_or-window :
      (buf : List T) (h m i : ℕ) → i < m → get_or (window buf h m) i d ≡ get_or buf ((h + i) % n) d
  get_or-window buf h zero i k = elim k [ ]
  get_or-window buf h (suc m) zero k = ap (λ (t : ℕ). get_or buf (t % n) d) (omega arith)
  get_or-window buf h (suc m) (suc i) k =
      get_or-window buf (suc h) m i (omega arith)
      ∙ ap (λ (t : ℕ). get_or buf (t % n) d) (omega arith)
