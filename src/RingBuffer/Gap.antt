-- ===== src/RingBuffer/Gap.antt =====
-- Indices that go round at `m`: the way from one to another, and what one step does to it.
use native.Mathlib.Nat.{mod-eq_of_lt, mod-eq-sub-mod, mod-lt, mod-mod_of_dvd, add-mod_right}
use cxx_util.Prelude.{ℕ, ◌+◌, ◌-◌, ◌*◌, ◌%◌, ◌<◌, ◌≤◌, ◌≡◌, ap, ◌∙◌, ◌⊎◌, inl, inr, arith, dec_lt}

-- From `b` forward to `e`.
abbrev pub gap : ℕ → ℕ → ℕ → ℕ
gap m b e = (e + m - b) % m

-- The remainder of a number below two rounds.
pub mod_cases : (m x : ℕ) → x < m + m → ((x < m) × (x % m ≡ x)) ⊎ ((m ≤ x) × (x % m ≡ x - m))
mod_cases m x k = elim (dec_lt x m) [
  | yes h ↦ inl (h, mod-eq_of_lt h)
  | no h ↦ inr (
    omega arith,
    omega (
      arith,
      mod-eq-sub-mod {n = x} {m = m} (omega arith),
      mod-eq_of_lt {n = x - m} {m = m} (omega arith),
    ),
  )
]

pub mod_double : (n x : ℕ) → x % (2 * n) % n ≡ x % n
mod_double n x = mod-mod_of_dvd n x ∣ (2, omega arith) ∣₁

pub add_rounds : (n x : ℕ) → (x + 2 * n) % n ≡ x % n
add_rounds n x = ap (λ (t : ℕ). t % n) (omega arith) ∙ add-mod_right (x + n) n ∙ add-mod_right x n

module _ (m b e : ℕ) (hb : b < m) (he : e < m) where
  pub gap_cases : ((b ≤ e) × (gap m b e ≡ e - b)) ⊎ ((e < b) × (gap m b e ≡ e + m - b))
  gap_cases = elim (dec_lt e b) [
    | yes h ↦ inr (h, mod-eq_of_lt (omega arith))
    | no h ↦ inl (omega arith, omega (arith, mod_cases m (e + m - b) (omega arith)))
  ]

  pub gap-lt : gap m b e < m
  gap-lt = mod-lt (e + m - b) (omega arith)

pub next-lt : (m x : ℕ) → 0 < m → x % m < m
next-lt m x h = mod-lt x h

pub gap-next_begin :
    (m b e : ℕ) → b < m → e < m → 0 < gap m b e → gap m ((b + 1) % m) e ≡ gap m b e - 1
gap-next_begin m b e hb he h = omega (
  arith,
  gap_cases m b e hb he,
  mod_cases m (b + 1) (omega arith),
  gap_cases m ((b + 1) % m) e (next-lt m (b + 1) (omega arith)) he,
)

pub gap-next_end :
    (m b e : ℕ) → b < m → e < m → gap m b e + 1 < m → gap m b ((e + 1) % m) ≡ gap m b e + 1
gap-next_end m b e hb he h = omega (
  arith,
  gap_cases m b e hb he,
  mod_cases m (e + 1) (omega arith),
  gap_cases m b ((e + 1) % m) hb (next-lt m (e + 1) (omega arith)),
)

pub gap-prev_end :
    (m b e : ℕ) → b < m → e < m → 0 < gap m b e → gap m b ((e + m - 1) % m) ≡ gap m b e - 1
gap-prev_end m b e hb he h = omega (
  arith,
  gap_cases m b e hb he,
  mod_cases m (e + m - 1) (omega arith),
  gap_cases m b ((e + m - 1) % m) hb (next-lt m (e + m - 1) (omega arith)),
)

pub gap-prev_begin :
    (m b e : ℕ) → b < m → e < m → gap m b e + 1 < m → gap m ((b + m - 1) % m) e ≡ gap m b e + 1
gap-prev_begin m b e hb he h = omega (
  arith,
  gap_cases m b e hb he,
  mod_cases m (b + m - 1) (omega arith),
  gap_cases m ((b + m - 1) % m) e (next-lt m (b + m - 1) (omega arith)) he,
)

-- The two ends meet where the gap is none, and are opposite where it is half a round.
pub gap-eq-zero : (m b e : ℕ) → b < m → e < m → gap m b e ≡ 0 → b ≡ e
gap-eq-zero m b e hb he h = omega (arith, gap_cases m b e hb he)

pub gap_self : (m b : ℕ) → b < m → gap m b b ≡ 0
gap_self m b hb = omega (arith, gap_cases m b b hb hb)

pub gap_half : (n b e : ℕ) → b < 2 * n → e < 2 * n → gap (2 * n) b e ≡ n → (b + n) % (2 * n) ≡ e
gap_half n b e hb he h =
    omega (arith, gap_cases (2 * n) b e hb he, mod_cases (2 * n) (b + n) (omega arith))

pub gap_opposite : (n b e : ℕ) → b < 2 * n → e < 2 * n → (b + n) % (2 * n) ≡ e → gap (2 * n) b e ≡ n
gap_opposite n b e hb he h =
    omega (arith, gap_cases (2 * n) b e hb he, mod_cases (2 * n) (b + n) (omega arith))
