-- ===== src/RingBuffer/Size.antt =====
-- `full`, `empty` and `size` against the number of elements of a valid ring buffer.
use native.Mathlib.Nat.{mod-eq_of_lt}
use cxx_util.Prelude.{
  ℕ, ◌+◌, ◌-◌, ◌*◌, ◌%◌, ◌≡◌, sym, ap, ◌∙◌, arith, Bool, true, false, ==_iff, Bool-cases, inl, inr,
  ◌≢◌, ◌↔◌,
}
use cxx_util.Prelude.Word.{sub_size}
use cxx_util.RingBuffer.{RingBuffer, wrap, full, empty, size}
use cxx_util.RingBuffer.Index.{PowerOfTwo, wrap_lem, flip_lem, sub_word}
use cxx_util.RingBuffer.Invariant.{IsValid, count}
use cxx_util.RingBuffer.Gap.{gap, gap-eq-zero, gap_self, gap_half, gap_opposite, mod_double}

module _ {ℓ} {T : Type ℓ} {n : ℕ} (p : PowerOfTwo n) where
  module _ (r : RingBuffer T) (v : IsValid n r) where
    pub full_iff : (full n r ≡ true) ↔ (count n r ≡ n)
    unfolding full
    full_iff = (
      λ h.
          gap_opposite n r.m_begin r.m_end v.begin_in v.end_in
            (sym (flip_lem p r.m_begin v.begin_in) ∙ (==_iff _ _).0 h),
      λ h.
          (==_iff _ _).1
            (flip_lem p r.m_begin v.begin_in ∙ gap_half n r.m_begin r.m_end v.begin_in v.end_in h),
    )

    pub empty_iff : (empty n r ≡ true) ↔ (count n r ≡ 0)
    unfolding empty
    empty_iff = (
      λ h.
          ap (gap (2 * n) r.m_begin) (sym ((==_iff _ _).0 h))
          ∙ gap_self (2 * n) r.m_begin v.begin_in,
      λ h. (==_iff _ _).1 (gap-eq-zero (2 * n) r.m_begin r.m_end v.begin_in v.end_in h),
    )

    pub size-count : size n r ≡ count n r
    unfolding size wrap
    size-count = elim (Bool-cases (full n r)) [
      | inl e ↦ rw (e, size) (sym (full_iff.0 e))
      | inr e ↦
          rw (e, size)
            (wrap_lem p (sub_size r.m_end r.m_begin)
              ∙ sub_word p r.m_end r.m_begin (omega (arith, v.begin_in))
              ∙ below (λ c. clash (full_iff.1 c) e))
    ]
      where
        below : count n r ≢ n → (r.m_end + 2 * n - r.m_begin) % n ≡ count n r
        below ne =
            sym (mod_double n (r.m_end + 2 * n - r.m_begin))
            ∙ mod-eq_of_lt (omega (arith, v.count_in))

        clash : {b : Bool} → b ≡ true → b ≡ false → ⊥
        clash h k = cc
