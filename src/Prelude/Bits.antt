-- ===== src/Prelude/Bits.antt =====
-- `x & (2^k - 1)` and `x ^ 2^k` as arithmetic, at every width. The native operations have no
-- laws at variables but the digit recursion that they stand for.
use Prim.Native.Nat.{
  ℕ, zero, suc, ◌+◌, ◌-◌, ◌*◌, ◌/◌, ◌%◌, ◌^◌, ◌≤◌, ◌<◌, min, bit_and, bit_xor, digits, differ,
  bit_and-bitwise, bit_xor-bitwise,
}
use mathlib.Core.Path.{◌≡◌, refl, sym, ap, ap₂, ◌∙◌}
use native.Mathlib.Nat.{
  pow-suc, one-le-pow, mod-lt, mod-eq_of_lt, add-mul-mod_self_right, mod-add-div',
}
use native.Mathlib.Omega.{arith}

-- An operation that works digit by digit: its law for the lowest digit, without the fuel.
module _ (g : ℕ → ℕ) (f : ℕ → ℕ → ℕ) where
  digits_extra : (n a b : ℕ) → a ≤ n → digits g f (suc n) a b ≡ digits g f n a b
  digits_extra zero zero b h = refl
  digits_extra zero (suc a) b h = elim h [ ]
  digits_extra (suc n) zero b h = refl
  digits_extra (suc n) (suc a) b h =
      ap (λ (t : ℕ). t * 2 + f (suc a % 2) (b % 2))
        (digits_extra n (suc a / 2) (b / 2) (omega arith))

  digits_surplus :
      (k n total a b : ℕ) → a ≤ n → total ≡ n + k → digits g f total a b ≡ digits g f n a b
  digits_surplus zero n total a b h e =
      ap (λ (t : ℕ). digits g f t a b) {x = total} {y = n} (omega arith)
  digits_surplus (suc k) n total a b h e =
      ap (λ (t : ℕ). digits g f t a b) {x = total} {y = suc (n + k)} (omega arith)
      ∙ digits_extra (n + k) a b (omega arith)
      ∙ digits_surplus k n (n + k) a b h refl

  -- Against zero such an operation is a function of one argument, if it is so on each digit.
  against_zero :
      (z : ℕ → ℕ)
      → g 0 ≡ z 0
      → ((x : ℕ) → z (x / 2) * 2 + f (x % 2) 0 ≡ z x)
      → (n a : ℕ) → a ≤ n
      → digits g f n a 0 ≡ z a
  against_zero z e digit zero zero h = e
  against_zero z e digit zero (suc a) h = elim h [ ]
  against_zero z e digit (suc n) zero h = e
  against_zero z e digit (suc n) (suc a) h =
      ap (λ (t : ℕ). t * 2 + f (suc a % 2) 0) (against_zero z e digit n (suc a / 2) (omega arith))
      ∙ digit (suc a)

  module _ (op : ℕ → ℕ → ℕ) (meaning : (a b : ℕ) → op a b ≡ digits g f a a b)
      (first : (b : ℕ) → g b ≡ g (b / 2) * 2 + f 0 (b % 2)) where
    lowest_digit : (a b : ℕ) → op a b ≡ op (a / 2) (b / 2) * 2 + f (a % 2) (b % 2)
    lowest_digit zero b =
        meaning 0 b ∙ first b ∙ ap (λ (t : ℕ). t * 2 + f 0 (b % 2)) (sym (meaning 0 (b / 2)))
    lowest_digit (suc a) b =
        meaning (suc a) b
        ∙ ap (λ (t : ℕ). t * 2 + f (suc a % 2) (b % 2))
            (digits_surplus (a - suc a / 2) (suc a / 2) a (suc a / 2) (b / 2) (omega arith)
                (omega arith)
              ∙ sym (meaning (suc a / 2) (b / 2)))

pub bit_and_step : (a b : ℕ) → bit_and a b ≡ bit_and (a / 2) (b / 2) * 2 + min (a % 2) (b % 2)
bit_and_step = lowest_digit (λ _. 0) min bit_and bit_and-bitwise (λ b. omega arith)

bit_and-zero : (a : ℕ) → bit_and a 0 ≡ 0
bit_and-zero a =
    bit_and-bitwise a 0
    ∙ against_zero (λ _. 0) min (λ _. 0) refl (λ x. omega arith) a a (omega arith)

-- Remainders by an even number, from those of the half.
double-mod : (a m : ℕ) → 0 < m → a / 2 % m * 2 + a % 2 ≡ a % (2 * m)
double-mod a m h = sym (
    ap (λ (t : ℕ). t % (2 * m)) split
    ∙ add-mul-mod_self_right (a / 2 % m * 2 + a % 2) (a / 2 / m) (2 * m)
    ∙ mod-eq_of_lt (omega (arith, mod-lt (a / 2) h)))
  where
    split : a ≡ a / 2 % m * 2 + a % 2 + a / 2 / m * (2 * m)
    split = omega (arith, mod-add-div' (a / 2) m)

bit_and_mask_step :
    (a m p : ℕ)
    → 0 < m
    → p ≡ 2 * m
    → bit_and (a / 2) (m - 1) ≡ a / 2 % m
    → bit_and a (p - 1) ≡ a % p
bit_and_mask_step a m p h e ih =
    bit_and_step a (p - 1)
    ∙ ap₂ (λ (s t : ℕ). s * 2 + t) (ap (bit_and (a / 2)) half ∙ ih) low
    ∙ double-mod a m h
    ∙ ap (λ (t : ℕ). a % t) (sym e)
  where
    half : (p - 1) / 2 ≡ m - 1
    half = omega arith

    low : min (a % 2) ((p - 1) % 2) ≡ a % 2
    low = omega arith

pub pow-suc_double : (k : ℕ) → 2 ^ suc k ≡ 2 * 2 ^ k
pow-suc_double k = omega (arith, pow-suc 2 k)

pub pow-pos : (k : ℕ) → 0 < 2 ^ k
pow-pos k = one-le-pow k 2 (omega arith)

-- A mask of `k` low bits is the remainder by `2 ^ k`.
pub bit_and_mask : (k a : ℕ) → bit_and a (2 ^ k - 1) ≡ a % 2 ^ k
bit_and_mask zero a = bit_and-zero a ∙ omega arith
bit_and_mask (suc k) a =
    bit_and_mask_step a (2 ^ k) (2 ^ suc k) (pow-pos k) (pow-suc_double k) (bit_and_mask k (a / 2))

differ-zero : (x : ℕ) → differ x 0 ≡ x
differ-zero zero = refl
differ-zero (suc x) = refl

differ-one : (x : ℕ) → x < 2 → differ x 1 ≡ (x + 1) % 2
differ-one zero h = refl
differ-one (suc zero) h = refl
differ-one (suc (suc x)) h = absurd (omega arith)

differ-zero_left : (x : ℕ) → differ 0 x ≡ x
differ-zero_left zero = refl
differ-zero_left (suc x) = refl

bit_xor_step : (a b : ℕ) → bit_xor a b ≡ bit_xor (a / 2) (b / 2) * 2 + differ (a % 2) (b % 2)
bit_xor_step =
    lowest_digit (λ b. b) differ bit_xor bit_xor-bitwise
      (λ b. omega (arith, differ-zero_left (b % 2)))

bit_xor-zero : (a : ℕ) → bit_xor a 0 ≡ a
bit_xor-zero a =
    bit_xor-bitwise a 0
    ∙ against_zero (λ b. b) differ (λ x. x) refl (λ x. omega (arith, differ-zero (x % 2))) a a
        (omega arith)

-- Flipping the top bit of a word of `k + 1` bits adds `2 ^ k` modulo `2 ^ (k + 1)`.
bit_xor_top_step :
    (a m p : ℕ)
    → 0 < m
    → p ≡ 2 * m
    → bit_xor (a / 2) m ≡ (a / 2 + m) % (2 * m)
    → bit_xor a p ≡ (a + p) % (2 * p)
bit_xor_top_step a m p h e ih =
    bit_xor_step a p
    ∙ ap₂ (λ (s t : ℕ). s * 2 + t) (ap (bit_xor (a / 2)) half ∙ ih ∙ shift) low
    ∙ double-mod (a + p) p (omega arith)
  where
    half : p / 2 ≡ m
    half = omega arith

    shift : (a / 2 + m) % (2 * m) ≡ (a + p) / 2 % p
    shift = ap₂ ◌%◌ (omega arith) (sym e)

    low : differ (a % 2) (p % 2) ≡ (a + p) % 2
    low = ap (differ (a % 2)) (omega arith) ∙ differ-zero (a % 2) ∙ omega arith

pub bit_xor_top : (k a : ℕ) → a < 2 * 2 ^ k → bit_xor a (2 ^ k) ≡ (a + 2 ^ k) % (2 * 2 ^ k)
bit_xor_top zero a h = omega (
  arith,
  bit_xor_step a 1,
  bit_xor-zero (a / 2),
  differ-one (a % 2) (omega arith),
  ap (λ (t : ℕ). bit_xor t 0) high,
)
  where
    high : a / 2 ≡ 0
    high = omega arith
bit_xor_top (suc k) a h =
    bit_xor_top_step a (2 ^ k) (2 ^ suc k) (pow-pos k) (pow-suc_double k)
      (bit_xor_top k (a / 2) (omega (arith, pow-suc_double k)))
