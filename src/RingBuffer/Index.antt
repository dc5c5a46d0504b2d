-- ===== src/RingBuffer/Index.antt =====
-- The masks of the ring buffer as remainders, for a capacity that is a power of two.
use native.Mathlib.Nat.{mod-mod_of_dvd, add-mul-mod_self_left, mul_assoc}
use cxx_util.Prelude.{
  ℕ, zero, suc, ◌+◌, ◌-◌, ◌*◌, ◌%◌, ◌^◌, ◌<◌, ◌≤◌, ◌≡◌, ◌∙◌, ap, arith, bit_and, bit_xor, sym,
}
use cxx_util.Prelude.Bits.{bit_and_mask, bit_xor_top, pow-pos, pow-suc_double}
use cxx_util.Prelude.Word.{size_mod, add_size, sub_size, mul_size}
use cxx_util.RingBuffer.{wrap, add, minus_one}

-- The capacities for which the buffer works: `2 * n` fits `size_t`.
pub record PowerOfTwo (n : ℕ) : Type 0 where
  pub exponent : ℕ
  pub fits : exponent < 63
  pub is_power : n ≡ 2 ^ exponent

pow_split : (k m : ℕ) → 2 ^ k * 2 ^ m ≡ 2 ^ (k + m)
pow_split zero m = ap (λ (t : ℕ). 1 * 2 ^ t) {x = m} {y = zero + m} (omega arith) ∙ omega arith
pow_split (suc k) m =
    ap (λ (t : ℕ). t * 2 ^ m) (pow-suc_double k)
    ∙ mul_assoc 2 (2 ^ k) (2 ^ m)
    ∙ ap (λ (t : ℕ). 2 * t) (pow_split k m)
    ∙ sym (pow-suc_double (k + m))
    ∙ ap (λ (t : ℕ). 2 ^ t) {x = suc (k + m)} {y = suc k + m} (omega arith)

split_round : (m q s : ℕ) → 0 < q → m * q ≡ s → s ≡ m + m * (q - 1)
split_round m zero s h e = absurd (omega arith)
split_round m (suc q) s h e = let same : suc q - 1 ≡ q = omega arith in rw same (omega arith)

module _ {n : ℕ} (p : PowerOfTwo n) where
  pub capacity_pos : 0 < n
  capacity_pos = omega (arith, p.is_power, pow-pos p.exponent)

  -- `size_t` wraps after a whole number of rounds of the indices.
  rounds : 2 * n * 2 ^ (63 - p.exponent) ≡ size_mod
  rounds =
      ap (λ (t : ℕ). 2 * t * 2 ^ (63 - p.exponent)) p.is_power
      ∙ mul_assoc 2 (2 ^ p.exponent) (2 ^ (63 - p.exponent))
      ∙ ap (λ (t : ℕ). 2 * t) (pow_split p.exponent (63 - p.exponent))
      ∙ ap (λ (t : ℕ). 2 * 2 ^ t) {x = p.exponent + (63 - p.exponent)} {y = 63}
          (omega (arith, p.fits))

  pub capacity-lt : 2 * n ≤ size_mod
  capacity-lt =
      omega (arith, grind_le (2 * n) (2 ^ (63 - p.exponent)) (pow-pos (63 - p.exponent)), rounds)
    where
      grind_le : (a b : ℕ) → 0 < b → a ≤ a * b
      grind_le a b h = grind arith

  pub mod_word : (x : ℕ) → x % size_mod % n ≡ x % n
  mod_word x = mod-mod_of_dvd n x ∣ (2 * 2 ^ (63 - p.exponent), omega (arith, rounds)) ∣₁

  pub mod_word_double : (x : ℕ) → x % size_mod % (2 * n) ≡ x % (2 * n)
  mod_word_double x = mod-mod_of_dvd (2 * n) x ∣ (2 ^ (63 - p.exponent), sym rounds) ∣₁

  pub wrap_lem : (i : ℕ) → wrap n i ≡ i % n
  unfolding wrap
  wrap_lem i =
      ap (bit_and i) mask ∙ bit_and_mask p.exponent i ∙ ap (λ (t : ℕ). i % t) (sym p.is_power)
    where
      mask : sub_size n 1 ≡ 2 ^ p.exponent - 1
      mask = omega (arith, p.is_power, capacity-lt, capacity_pos)

  pub add_lem : (x amount : ℕ) → add n x amount ≡ (x + amount) % (2 * n)
  unfolding add
  add_lem x amount =
      ap (bit_and (add_size x amount)) mask
      ∙ bit_and_mask (suc p.exponent) (add_size x amount)
      ∙ ap (λ (t : ℕ). add_size x amount % t) (sym double)
      ∙ mod_word_double (x + amount)
    where
      double : 2 * n ≡ 2 ^ suc p.exponent
      double = ap (λ (t : ℕ). 2 * t) p.is_power ∙ sym (pow-suc_double p.exponent)

      mask : sub_size (mul_size 2 n) 1 ≡ 2 ^ suc p.exponent - 1
      mask = omega (arith, double, capacity-lt, capacity_pos)

  pub flip_lem : (x : ℕ) → x < 2 * n → bit_xor x n ≡ (x + n) % (2 * n)
  flip_lem x h =
      ap (bit_xor x) p.is_power
      ∙ bit_xor_top p.exponent x (omega (arith, p.is_power))
      ∙ ap (λ (t : ℕ). (x + t) % (2 * t)) (sym p.is_power)

  rest : ℕ
  rest = 2 ^ (63 - p.exponent) - 1

  word_rounds : size_mod ≡ 2 * n + 2 * n * rest
  unfolding rest
  word_rounds = split_round (2 * n) _ _ (pow-pos (63 - p.exponent)) rounds

  pub sub_word : (a b : ℕ) → b ≤ 2 * n → sub_size a b % n ≡ (a + 2 * n - b) % n
  sub_word a b h =
      mod_word (a + size_mod - b)
      ∙ ap (λ (t : ℕ). t % n) (omega (arith, word_rounds))
      ∙ add-mul-mod_self_left (a + 2 * n - b) n (2 * rest)

  pub minus_one_double : (x : ℕ) → (x + minus_one) % (2 * n) ≡ (x + 2 * n - 1) % (2 * n)
  minus_one_double x =
      ap (λ (t : ℕ). t % (2 * n)) (omega (arith, word_rounds, capacity_pos))
      ∙ add-mul-mod_self_left (x + 2 * n - 1) (2 * n) rest
