-- ===== src/RingBuffer/Ends.antt =====
-- What the moves of one index do to a valid ring buffer and to its elements.
use native.Mathlib.Nat.{mod-lt}
use cxx_util.Prelude.{
  ℕ, ◌+◌, ◌-◌, ◌*◌, ◌%◌, ◌<◌, ◌≡◌, sym, ap, ap₂, ◌∙◌, arith, [], ◌∷◌, ◌++◌, get_or, set, length-set,
  inl, inr,
}
use cxx_util.Prelude.Word.{add_size, sub_size}
use cxx_util.RingBuffer.{
  RingBuffer, wrap, at, reverse_at, front, back, set_front, set_back, incr, decr,
}
use cxx_util.RingBuffer.Index.{PowerOfTwo}
use cxx_util.RingBuffer.Invariant.{
  IsValid, count, contents, incr_lem, decr_lem, forward_index, backward_index,
}
use cxx_util.RingBuffer.Gap.{
  gap, gap-next_begin, gap-next_end, gap-prev_begin, gap-prev_end, mod_double, add_rounds,
  mod_cases,
}
use cxx_util.RingBuffer.Window.{window}
use cxx_util.RingBuffer.Moves.{shown_first, shown_last, shown_append, shown_prepend}

module _ {ℓ} {T : Type ℓ} {n : ℕ} (p : PowerOfTwo n) (d : T) (r : RingBuffer T)
    (v : IsValid n r) where
  pub drop_first-IsValid : 0 < count n r → IsValid n (record r { m_begin = incr n r.m_begin })
  drop_first-IsValid h = omega (
    arith,
    incr_lem p r.m_begin,
    mod-lt (r.m_begin + 1) {m = 2 * n} (omega arith),
    gap-next_begin (2 * n) r.m_begin r.m_end v.begin_in v.end_in h,
    ap (λ (t : ℕ). gap (2 * n) t r.m_end) (incr_lem p r.m_begin),
  )

  pub contents-drop_first :
      0 < count n r
      → contents n d r ≡ front n d r ∷ contents n d (record r { m_begin = incr n r.m_begin })
  unfolding at
  contents-drop_first h =
      shown_first n d r.m_data r.m_begin r.m_end v.begin_in v.end_in h
      ∙ ap₂ ◌∷◌ (ap (λ (t : ℕ). get_or r.m_data t d) (sym index)) (
          ap (λ (t : ℕ). window n d r.m_data t (gap (2 * n) t r.m_end))
            (sym (incr_lem p r.m_begin)))
    where
      index : wrap n (add_size r.m_begin 0) ≡ r.m_begin % n
      index = forward_index p r.m_begin 0 ∙ ap (λ (t : ℕ). t % n) (omega arith)

  pub drop_last-IsValid : 0 < count n r → IsValid n (record r { m_end = decr n r.m_end })
  drop_last-IsValid h = omega (
    arith,
    decr_lem p r.m_end,
    mod-lt (r.m_end + 2 * n - 1) {m = 2 * n} (omega arith),
    gap-prev_end (2 * n) r.m_begin r.m_end v.begin_in v.end_in h,
    ap (gap (2 * n) r.m_begin) (decr_lem p r.m_end),
  )

  pub contents-drop_last :
      0 < count n r
      → contents n d r ≡ contents n d (record r { m_end = decr n r.m_end }) ++ (back n d r ∷ [])
  unfolding reverse_at
  contents-drop_last h =
      shown_last n d r.m_data r.m_begin r.m_end v.begin_in v.end_in h
      ∙ ap₂
          (λ (s t : ℕ).
            window n d r.m_data r.m_begin (gap (2 * n) r.m_begin s) ++ (get_or r.m_data t d ∷ []))
          (sym (decr_lem p r.m_end)) (sym (backward_index p r.m_end 1 (omega arith)))

  module _ (x : T) (room : count n r < n) where
    abbrev appended : RingBuffer T
    appended = set_back n (record r { m_end = incr n r.m_end }) x

    append_index : wrap n (sub_size (incr n r.m_end) 1) ≡ r.m_end % n
    append_index =
        backward_index p (incr n r.m_end) 1 (omega arith)
        ∙ ap (λ (t : ℕ). (t + 2 * n - 1) % n) (incr_lem p r.m_end)
        ∙ elim (mod_cases (2 * n) (r.m_end + 1) (omega arith)) [
          | inl (_, e) ↦ ap (λ (t : ℕ). t % n) (omega arith) ∙ add_rounds n r.m_end
          | inr (le, e) ↦ ap (λ (t : ℕ). t % n) (omega arith)
        ]

    pub append-IsValid : IsValid n appended
    unfolding set_back
    append-IsValid = omega (
      arith,
      incr_lem p r.m_end,
      mod-lt (r.m_end + 1) {m = 2 * n} (omega arith),
      gap-next_end (2 * n) r.m_begin r.m_end v.begin_in v.end_in (omega arith),
      ap (gap (2 * n) r.m_begin) (incr_lem p r.m_end),
      length-set r.m_data (wrap n (sub_size (incr n r.m_end) 1)) x,
    )

    pub contents-append : contents n d appended ≡ contents n d r ++ (x ∷ [])
    unfolding set_back
    contents-append =
        ap₂ (λ (s t : ℕ). window n d (set r.m_data s x) r.m_begin (gap (2 * n) r.m_begin t))
          append_index (incr_lem p r.m_end)
        ∙ shown_append n d r.m_data r.m_begin r.m_end v.begin_in v.end_in x room v.storage

    abbrev prepended : RingBuffer T
    prepended = set_front n (record r { m_begin = decr n r.m_begin }) x

    prepend_index : wrap n (add_size (decr n r.m_begin) 0) ≡ (r.m_begin + 2 * n - 1) % n
    prepend_index =
        forward_index p (decr n r.m_begin) 0
        ∙ ap (λ (t : ℕ). t % n) (omega (arith, decr_lem p r.m_begin))
        ∙ mod_double n (r.m_begin + 2 * n - 1)

    pub prepend-IsValid : IsValid n prepended
    unfolding set_front
    prepend-IsValid = omega (
      arith,
      decr_lem p r.m_begin,
      mod-lt (r.m_begin + 2 * n - 1) {m = 2 * n} (omega arith),
      gap-prev_begin (2 * n) r.m_begin r.m_end v.begin_in v.end_in (omega arith),
      ap (λ (t : ℕ). gap (2 * n) t r.m_end) (decr_lem p r.m_begin),
      length-set r.m_data (wrap n (add_size (decr n r.m_begin) 0)) x,
    )

    pub contents-prepend : contents n d prepended ≡ x ∷ contents n d r
    unfolding set_front
    contents-prepend =
        ap₂ (λ (s t : ℕ). window n d (set r.m_data s x) t (gap (2 * n) t r.m_end)) prepend_index
          (decr_lem p r.m_begin)
        ∙ shown_prepend n d r.m_data r.m_begin r.m_end v.begin_in v.end_in x room v.storage
