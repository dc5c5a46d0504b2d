-- ===== src/Prelude/Digits.antt =====
-- Numbers as their decimal digits, the first the most significant, in ASCII.
use Prim.Native.Nat.{ℕ, zero, suc, ◌+◌, ◌-◌, ◌*◌, ◌/◌, ◌%◌, ◌≤◌, ◌<◌}
use mathlib.Core.Path.{◌≡◌, refl, sym, ap, ◌∙◌}
use mathlib.Core.Logic.{◌⊎◌, inl, inr}
use mathlib.Core.Bool.{Bool, true, false, ◌&&◌}
use mathlib.Core.List.{List, [], ◌∷◌, ◌++◌, append_assoc}
use native.Mathlib.Omega.{arith}
use cxx_util.Prelude.Tests.{ltb, leb, Bool-cases, if◌then◌else◌}
use cxx_util.Prelude.Lists.{length, length-append, replicate}

abbrev pub digit : ℕ → ℕ
digit d = b'0' + d

abbrev pub is_digit : ℕ → Bool
is_digit c = leb b'0' c && leb c b'9'

-- Whether a text starts with a character of a set.
abbrev pub starts : (ℕ → Bool) → List ℕ → Bool
starts p [] = false
starts p (c ∷ s) = p c

-- With fuel above the number.
unfoldable pub digits_of : ℕ → ℕ → List ℕ
digits_of zero n = []
digits_of (suc fuel) n =
    let rest = digits_of fuel (n / 10) in
    if ltb n 10 then digit n ∷ [] else rest ++ (digit (n % 10) ∷ [])

unfoldable pub decimal : ℕ → List ℕ
decimal n = digits_of (n + 1) n

-- The last `w` digits, zeros in front included.
unfoldable pub fixed : ℕ → ℕ → List ℕ
fixed zero n = []
fixed (suc w) n = fixed w (n / 10) ++ (digit (n % 10) ∷ [])

-- 10 to a power.
abbrev pub tens : ℕ → ℕ
tens zero = 1
tens (suc w) = 10 * tens w

pub small_test : (n : ℕ) → n < 10 → ltb n 10 ≡ true
small_test n h = ground arith

pub big_test : (n : ℕ) → 10 ≤ n → ltb n 10 ≡ false
big_test n h = ground arith

pub digits_small : (f n : ℕ) → n < 10 → digits_of (suc f) n ≡ digit n ∷ []
unfolding digits_of
digits_small f n h = rw (small_test n h, digits_of) refl

pub digits_big :
    (f n : ℕ) → 10 ≤ n → digits_of (suc f) n ≡ digits_of f (n / 10) ++ (digit (n % 10) ∷ [])
unfolding digits_of
digits_big f n h = rw (big_test n h, digits_of) refl

pub split_ten : (n : ℕ) → (n < 10) ⊎ (10 ≤ n)
split_ten n = elim (Bool-cases (ltb n 10)) [
  | inl e ↦ inl (ground arith)
  | inr e ↦ inr (ground arith)
]

digits_of-fuel : (f g n : ℕ) → n < f → n < g → digits_of f n ≡ digits_of g n
digits_of-fuel zero g n h k = absurd (omega arith)
digits_of-fuel (suc f) zero n h k = absurd (omega arith)
digits_of-fuel (suc f) (suc g) n h k = elim (split_ten n) [
  | inl e ↦ digits_small f n e ∙ sym (digits_small g n e)
  | inr e ↦
      digits_big f n e
      ∙ ap (λ l. l ++ (digit (n % 10) ∷ []))
          (digits_of-fuel f g (n / 10) (omega arith) (omega arith))
      ∙ sym (digits_big g n e)
]

pub decimal_small : (n : ℕ) → n < 10 → decimal n ≡ digit n ∷ []
unfolding decimal
decimal_small n h = ap (λ f. digits_of f n) {y = suc n} (omega arith) ∙ digits_small n n h

pub decimal_big : (n : ℕ) → 10 ≤ n → decimal n ≡ decimal (n / 10) ++ (digit (n % 10) ∷ [])
unfolding decimal
decimal_big n h =
    ap (λ f. digits_of f n) {y = suc n} (omega arith)
    ∙ digits_big n n h
    ∙ ap (λ l. l ++ (digit (n % 10) ∷ []))
        (digits_of-fuel n (n / 10 + 1) (n / 10) (omega arith) (omega arith))

abbrev pub zeros : ℕ → List ℕ
zeros w = replicate w b'0'

replicate_snoc : (w : ℕ) → zeros w ++ (b'0' ∷ []) ≡ zeros (suc w)
replicate_snoc zero = refl
replicate_snoc (suc w) = ap (λ l. b'0' ∷ l) (replicate_snoc w)

fixed_zero : (w : ℕ) → fixed w 0 ≡ zeros w
unfolding fixed
fixed_zero zero = refl
fixed_zero (suc w) = ap (λ l. l ++ (b'0' ∷ [])) (fixed_zero w) ∙ replicate_snoc w

fixed_small : (w n : ℕ) → n < 10 → fixed (suc w) n ≡ zeros w ++ (digit n ∷ [])
unfolding fixed
fixed_small w n h =
    ap (λ l. l ++ (digit (n % 10) ∷ [])) (ap (fixed w) {y = 0} (omega arith) ∙ fixed_zero w)
    ∙ ap (λ d. zeros w ++ (digit d ∷ [])) (omega arith)

-- Fewer digits than `w + 1` are padded.
pub padded-fixed :
    (w n : ℕ) → n < tens (suc w) → zeros (suc w - length (decimal n)) ++ decimal n ≡ fixed (suc w) n
unfolding fixed
padded-fixed zero n h = rw (decimal_small n (omega arith)) (sym (fixed_small zero n (omega arith)))
padded-fixed (suc w) n h = elim (split_ten n) [
  | inl e ↦ rw (decimal_small n e) (
      ap (λ k. zeros k ++ (digit n ∷ [])) {y = suc w} (omega arith) ∙ sym (fixed_small (suc w) n e))
  | inr e ↦ longer e (padded-fixed w (n / 10) (omega arith))
]
  where
    longer :
        10 ≤ n
        → zeros (suc w - length (decimal (n / 10))) ++ decimal (n / 10) ≡ fixed (suc w) (n / 10)
        → zeros (suc (suc w) - length (decimal n)) ++ decimal n ≡ fixed (suc (suc w)) n
    longer e ih = rw (decimal_big n e) (
        ap (λ k. zeros k ++ (decimal (n / 10) ++ (digit (n % 10) ∷ [])))
          {y = suc w - length (decimal (n / 10))}
          (omega (arith, length-append (decimal (n / 10)) (digit (n % 10) ∷ [])))
        ∙ sym (
            append_assoc (zeros (suc w - length (decimal (n / 10)))) (decimal (n / 10))
              (digit (n % 10) ∷ []))
        ∙ ap (λ l. l ++ (digit (n % 10) ∷ [])) ih)

digits_of-starts : (f n : ℕ) (s : List ℕ) → n < f → starts is_digit (digits_of f n ++ s) ≡ true
digits_of-starts zero n s h = absurd (omega arith)
digits_of-starts (suc f) n s h = elim (split_ten n) [
  | inl e ↦ rw (digits_small f n e) (ground arith)
  | inr e ↦
      rw (digits_big f n e, append_assoc (digits_of f (n / 10)) (digit (n % 10) ∷ []) s)
        (digits_of-starts f (n / 10) (digit (n % 10) ∷ s) (omega arith))
]

pub decimal-starts : (n : ℕ) (s : List ℕ) → starts is_digit (decimal n ++ s) ≡ true
unfolding decimal
decimal-starts n s = digits_of-starts (n + 1) n s (omega arith)
