-- ===== src/RingBuffer/Tests.antt =====
-- Ring buffers of capacity 4 at work, and one whose capacity the assertions let through although
-- it is no power of two.
use cxx_util.Prelude.{ℕ, ◌≡◌, refl, arith, true, List, [], ◌∷◌, some}
use cxx_util.RingBuffer
use cxx_util.RingBuffer.{RingBuffer, init, push_back, pop_front, accepts_capacity, at, size}
use cxx_util.RingBuffer.Deque
use cxx_util.RingBuffer.Deque.{Op, put_back, put_front, take_front, take_back}
use cxx_util.RingBuffer.Index.{PowerOfTwo}
use cxx_util.RingBuffer.Invariant.{IsValid, contents}
use cxx_util.RingBuffer.Run.{run, Agrees, run_refines}
use cxx_util.RingBuffer.Queue.{push_all, drain, drain-push_all}

abbrev four : PowerOfTwo 4
four = record { exponent = 2; fits = omega arith; is_power = refl }

-- Holds 8, 9, 5: the last of them went round the end of the array.
abbrev wrapped : RingBuffer ℕ
wrapped = record { m_begin = 6; m_end = 1; m_data = 5 ∷ 0 ∷ 8 ∷ 9 ∷ [] }

wrapped-IsValid : IsValid 4 wrapped
wrapped-IsValid = omega arith

contents-wrapped : contents 4 0 wrapped ≡ 8 ∷ 9 ∷ 5 ∷ []
contents-wrapped = refl

abbrev script : List (Op ℕ)
script = put_back 6 ∷ put_back 7 ∷ put_front 1 ∷ take_back ∷ take_front ∷ []

run_refines_example : Agrees 4 0 (run 4 wrapped script) (some (9 ∷ 5 ∷ []))
unfolding Deque.run Deque.step
run_refines_example = run_refines four 0 wrapped script wrapped-IsValid

drain-push_all_example :
    drain 4 0 4 (push_all 4 (record { m_ringbuffer = wrapped }) (1 ∷ 2 ∷ 3 ∷ []))
    ≡ 5 ∷ 1 ∷ 2 ∷ 3 ∷ []
drain-push_all_example =
    drain-push_all four 0 (record { m_ringbuffer = wrapped }) (1 ∷ 2 ∷ 3 ∷ []) wrapped-IsValid

-- The second assertion asks for an even capacity, and its message for a power of two. At 6 the
-- mask skips elements: the third push overwrites the first.
six_accepted : accepts_capacity 6 ≡ true
unfolding accepts_capacity
six_accepted = refl

abbrev zeros : List ℕ
zeros = 0 ∷ 0 ∷ 0 ∷ 0 ∷ 0 ∷ 0 ∷ []

six_overwrites : at 6 0 (push_back 6 (push_back 6 (push_back 6 (init zeros) 1) 2) 3) 0 ≡ 3
unfolding at push_back init RingBuffer.set_back RingBuffer.full RingBuffer.add RingBuffer.wrap
six_overwrites = refl
