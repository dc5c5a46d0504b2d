-- ===== src/RingBuffer/Invariant.antt =====
-- The representation invariant of the ring buffer, and the elements that it holds.
use cxx_util.Prelude.{ℕ, ◌+◌, ◌-◌, ◌*◌, ◌%◌, ◌<◌, ◌≤◌, ◌≡◌, ◌∙◌, List, length}
use cxx_util.Prelude.Word.{add_size, sub_size}
use cxx_util.RingBuffer.{RingBuffer, wrap, add, minus_one}
use cxx_util.RingBuffer.Index.{PowerOfTwo, wrap_lem, add_lem, mod_word, sub_word, minus_one_double}
use cxx_util.RingBuffer.Gap.{gap}
use cxx_util.RingBuffer.Window.{window}

-- How many elements lie between the two indices.
abbrev pub count {ℓ} : {T : Type ℓ} → ℕ → RingBuffer T → ℕ
count n r = gap (2 * n) r.m_begin r.m_end

pub record IsValid {ℓ} {T : Type ℓ} (n : ℕ) (r : RingBuffer T) : Type 0 where
  pub begin_in : r.m_begin < 2 * n
  pub end_in : r.m_end < 2 * n
  pub count_in : count n r ≤ n
  pub storage : length r.m_data ≡ n

-- The elements, first to last. The default `d` is read by no valid buffer.
abbrev pub contents {ℓ} : {T : Type ℓ} → ℕ → T → RingBuffer T → List T
contents n d r = window n d r.m_data r.m_begin (count n r)

-- The steps of the indices, and the elements that are read and written, as remainders.
module _ {n : ℕ} (p : PowerOfTwo n) where
  pub incr_lem : (x : ℕ) → add n x 1 ≡ (x + 1) % (2 * n)
  incr_lem x = add_lem p x 1

  pub decr_lem : (x : ℕ) → add n x minus_one ≡ (x + 2 * n - 1) % (2 * n)
  decr_lem x = add_lem p x minus_one ∙ minus_one_double p x

  pub forward_index : (x i : ℕ) → wrap n (add_size x i) ≡ (x + i) % n
  forward_index x i = wrap_lem p (add_size x i) ∙ mod_word p (x + i)

  pub backward_index : (x i : ℕ) → i ≤ 2 * n → wrap n (sub_size x i) ≡ (x + 2 * n - i) % n
  backward_index x i h = wrap_lem p (sub_size x i) ∙ sub_word p x i h
