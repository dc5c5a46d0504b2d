-- ===== src/RingBuffer/Refine.antt =====
-- The members of a valid ring buffer against the bounded deque of the elements that it holds.
use cxx_util.Prelude.{
  ℕ, ◌+◌, ◌-◌, ◌%◌, ◌<◌, ◌≡◌, sym, ap, ◌∙◌, arith, true, false, false≢true, [], ◌∷◌, ◌++◌, length,
  get_or, length-append, Bool-cases, inl, inr, ◌≢◌, ◌↔◌,
}
use cxx_util.Prelude.Word.{sub_size}
use cxx_util.RingBuffer.{
  RingBuffer, wrap, full, empty, size, at, reverse_at, back, push_back, push_front, incr, decr,
}
use cxx_util.RingBuffer.Deque
use cxx_util.RingBuffer.Index.{PowerOfTwo, capacity_pos}
use cxx_util.RingBuffer.Invariant.{IsValid, count, contents, forward_index, backward_index}
use cxx_util.RingBuffer.Window.{length-window, get_or-window}
use cxx_util.RingBuffer.Moves.{before_end}
use cxx_util.RingBuffer.Size.{full_iff, empty_iff, size-count}
use cxx_util.RingBuffer.Ends.{
  drop_first-IsValid, contents-drop_first, drop_last-IsValid, contents-drop_last, append-IsValid,
  contents-append, prepend-IsValid, contents-prepend,
}

module _ {ℓ} {T : Type ℓ} {n : ℕ} (p : PowerOfTwo n) (d : T) where
  pub length-contents : (r : RingBuffer T) → length (contents n d r) ≡ count n r
  length-contents r = length-window n d r.m_data r.m_begin (count n r)

  -- On a valid ring whose capacity `N` is a power of two, `size` is the number of elements held, `full` says that they are `N`, and `empty` that there
  -- are none.
  pub size-contents :
      (r : RingBuffer T)
      → IsValid n r
      → (size n r ≡ length (contents n d r))
        × ((full n r ≡ true) ↔ (length (contents n d r) ≡ n))
        × ((empty n r ≡ true) ↔ (length (contents n d r) ≡ 0))
  size-contents r v = rw length-contents (size-count p r v, full_iff p r v, empty_iff p r v)

  -- On a valid ring whose capacity is a power of two, for `i` below the number of elements: `at i`
  -- is the element `i` after the first, and `reverse_at (i + 1)` the element `i` before the last.
  pub at-contents :
      (r : RingBuffer T) (i : ℕ)
      → IsValid n r
      → i < length (contents n d r)
      → (at n d r i ≡ get_or (contents n d r) i d)
        × (reverse_at n d r (i + 1) ≡ get_or (contents n d r) (length (contents n d r) - (i + 1)) d)
  unfolding at reverse_at
  at-contents r i v h = (
    ap (λ (t : ℕ). get_or r.m_data t d) (forward_index p r.m_begin i)
        ∙ sym
            (get_or-window n d r.m_data r.m_begin (count n r) i (omega (arith, length-contents r))),
    ap (λ (t : ℕ). get_or r.m_data t d) back_index
        ∙ sym (
            get_or-window n d r.m_data r.m_begin (count n r) (length (contents n d r) - (i + 1))
              (omega (arith, length-contents r))),
  )
    where
      back_index :
          wrap n (sub_size r.m_end (i + 1)) ≡ (r.m_begin + (length (contents n d r) - (i + 1))) % n
      back_index =
          backward_index p r.m_end (i + 1) (omega (arith, length-contents r, v.count_in))
          ∙ sym (
              before_end n d r.m_data r.m_begin r.m_end v.begin_in v.end_in (i + 1)
                (omega (arith, length-contents r)))
          ∙ ap (λ (t : ℕ). (r.m_begin + (t - (i + 1))) % n) (sym (length-contents r))

  -- Dropping an end makes room for one.
  drop_first_room :
      (r : RingBuffer T)
      → IsValid n r
      → 0 < count n r
      → count n (record r { m_begin = incr n r.m_begin }) < n
  drop_first_room r v h = omega (
    arith,
    ap length (contents-drop_first p d r v h),
    length-contents r,
    length-contents (record r { m_begin = incr n r.m_begin }),
    v.count_in,
  )

  drop_last_room :
      (r : RingBuffer T)
      → IsValid n r
      → 0 < count n r
      → count n (record r { m_end = decr n r.m_end }) < n
  drop_last_room r v h = omega (
    arith,
    ap length (contents-drop_last p d r v h),
    length-append (contents n d (record r { m_end = decr n r.m_end })) (back n d r ∷ []),
    length-contents r,
    length-contents (record r { m_end = decr n r.m_end }),
    v.count_in,
  )

  full_pos : (r : RingBuffer T) → IsValid n r → full n r ≡ true → 0 < count n r
  full_pos r v e = omega (arith, (full_iff p r v).0 e, capacity_pos p)

  held : (r : RingBuffer T) → IsValid n r → full n r ≡ true → length (contents n d r) ≡ n
  held r v e = length-contents r ∙ (full_iff p r v).0 e

  not_held : (r : RingBuffer T) → IsValid n r → full n r ≡ false → length (contents n d r) ≢ n
  not_held r v e h = false≢true (sym e ∙ (full_iff p r v).1 (sym (length-contents r) ∙ h))

  room_left : (r : RingBuffer T) → IsValid n r → full n r ≡ false → count n r < n
  room_left r v e = omega (arith, v.count_in, not_held r v e, length-contents r)

  -- For a capacity that is a power of two, `push_back` on a valid ring keeps the invariant and adds at the back, and forgets the first
  -- element if the ring was full.
  pub push_back_refines :
      (r : RingBuffer T) (x : T)
      → IsValid n r
      → IsValid n (push_back n r x)
        × (contents n d (push_back n r x) ≡ Deque.push_back n (contents n d r) x)
  unfolding push_back
  push_back_refines r x v = elim (Bool-cases (full n r)) [
    | inl e ↦
        let v1 = drop_first-IsValid p d r v (full_pos r v e) in
        let room = drop_first_room r v (full_pos r v e) in
        rw (e, push_back)
          (
            append-IsValid p d r1 v1 x room,
            contents-append p d r1 v1 x room
                ∙ ap (λ l. Deque.rest l ++ (x ∷ []))
                    (sym (contents-drop_first p d r v (full_pos r v e)))
                ∙ sym (Deque.push_back-full n (contents n d r) x (held r v e)),
          )
    | inr e ↦
        rw (e, push_back)
          (
            append-IsValid p d r v x (room_left r v e),
            contents-append p d r v x (room_left r v e)
                ∙ sym (Deque.push_back-room n (contents n d r) x (not_held r v e)),
          )
  ]
    where
      r1 : RingBuffer T
      r1 = record r { m_begin = incr n r.m_begin }

  -- For a capacity that is a power of two, `push_front` on a valid ring keeps the invariant and adds at the front, and forgets the last
  -- element if the ring was full.
  pub push_front_refines :
      (r : RingBuffer T) (x : T)
      → IsValid n r
      → IsValid n (push_front n r x)
        × (contents n d (push_front n r x) ≡ Deque.push_front n (contents n d r) x)
  unfolding push_front
  push_front_refines r x v = elim (Bool-cases (full n r)) [
    | inl e ↦
        let v1 = drop_last-IsValid p d r v (full_pos r v e) in
        let room = drop_last_room r v (full_pos r v e) in
        rw (e, push_front)
          (
            prepend-IsValid p d r1 v1 x room,
            contents-prepend p d r1 v1 x room
                ∙ ap (◌∷◌ x) (
                    sym (Deque.all_but_last-append (contents n d r1) (back n d r))
                    ∙ ap Deque.all_but_last (sym (contents-drop_last p d r v (full_pos r v e))))
                ∙ sym (Deque.push_front-full n (contents n d r) x (held r v e)),
          )
    | inr e ↦
        rw (e, push_front)
          (
            prepend-IsValid p d r v x (room_left r v e),
            contents-prepend p d r v x (room_left r v e)
                ∙ sym (Deque.push_front-room n (contents n d r) x (not_held r v e)),
          )
  ]
    where
      r1 : RingBuffer T
      r1 = record r { m_end = decr n r.m_end }
