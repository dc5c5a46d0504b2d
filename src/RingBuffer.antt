-- ===== src/RingBuffer.antt =====
-- `PotRingbuffer<T, N>` of include/util/potringbuffer.hpp. The indices run over twice the
-- capacity, so that a full buffer and an empty one differ in the top bit. `size_t` has 64 bits.
-- A failed `assert` is `none`. The volatile overloads have the same bodies, and are one function
-- with them.
pub mod Index
pub mod Gap
pub mod Window
pub mod Moves
pub mod Size
pub mod Ends
pub mod Deque
pub mod Invariant
pub mod Refine
pub mod Run
pub mod Queue
mod Tests
use cxx_util.Prelude.{
  ℕ, ◌-◌, ◌%◌, Bool, not, ◌&&◌, List, Option, none, some, ◌==◌, bit_and, bit_xor, get_or, set,
  if◌then◌else◌,
}
use cxx_util.Prelude.Word.{size_mod, add_size, sub_size, mul_size}

-- The two static assertions on the capacity.
pub accepts_capacity : ℕ → Bool
accepts_capacity n = not (n == 0) && n % 2 == 0

pub record RingBuffer {ℓ} (T : Type ℓ) : Type ℓ where
  pub m_begin : ℕ
  pub m_end : ℕ
  pub m_data : List T

-- `mData` is not initialised: its first contents are an argument.
pub init {ℓ} : {T : Type ℓ} → List T → RingBuffer T
init storage = record { m_begin = 0; m_end = 0; m_data = storage }

-- `size_t(-1)`
abbrev pub minus_one : ℕ
minus_one = size_mod - 1

module _ (n : ℕ) where
  abbrev pub capacity : ℕ
  capacity = n

  pub wrap : ℕ → ℕ
  wrap index = bit_and index (sub_size n 1)

  pub add : ℕ → ℕ → ℕ
  add begin_or_end amount = bit_and (add_size begin_or_end amount) (sub_size (mul_size 2 n) 1)

  abbrev pub incr : ℕ → ℕ
  incr x = add x 1

  abbrev pub decr : ℕ → ℕ
  decr x = add x minus_one

  module _ {ℓ} {T : Type ℓ} where
    pub full : RingBuffer T → Bool
    full r = bit_xor r.m_begin n == r.m_end

    pub empty : RingBuffer T → Bool
    empty r = r.m_begin == r.m_end

    pub size : RingBuffer T → ℕ
    size r = if full r then n else bit_and (sub_size r.m_end r.m_begin) (sub_size n 1)

    -- An element is read by `get_or`, whose default stands for a read out of the array.
    pub at : T → RingBuffer T → ℕ → T
    at d r index = get_or r.m_data (wrap (add_size r.m_begin index)) d

    pub reverse_at : T → RingBuffer T → ℕ → T
    reverse_at d r index = get_or r.m_data (wrap (sub_size r.m_end index)) d

    abbrev pub front : T → RingBuffer T → T
    front d r = at d r 0

    abbrev pub back : T → RingBuffer T → T
    back d r = reverse_at d r 1

    -- `front() = elem` and `back() = elem`
    pub set_front : RingBuffer T → T → RingBuffer T
    set_front r elem = record r { m_data = set r.m_data (wrap (add_size r.m_begin 0)) elem }

    pub set_back : RingBuffer T → T → RingBuffer T
    set_back r elem = record r { m_data = set r.m_data (wrap (sub_size r.m_end 1)) elem }

    pub push_back : RingBuffer T → T → RingBuffer T
    push_back r elem =
        let r1 = if full r then record r { m_begin = incr r.m_begin } else r in
        set_back (record r1 { m_end = incr r1.m_end }) elem

    pub push_front : RingBuffer T → T → RingBuffer T
    push_front r elem =
        let r1 = if full r then record r { m_end = decr r.m_end } else r in
        set_front (record r1 { m_begin = decr r1.m_begin }) elem

    pub pop_front : RingBuffer T → Option (RingBuffer T)
    pop_front r = if empty r then none else some (record r { m_begin = incr r.m_begin })

    pub pop_back : RingBuffer T → Option (RingBuffer T)
    pop_back r = if empty r then none else some (record r { m_end = decr r.m_end })
