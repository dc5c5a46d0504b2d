-- ===== src/ProducerConsumer/Tests.antt =====
-- A queue whose first handler calls back into it, and one whose handlers only feed it.
use cxx_util.Prelude.{ℕ, ◌+◌, ◌≡◌, refl, arith, List, [], ◌∷◌, ◌++◌, map, some, ◌==◌, if◌then◌else◌}
use cxx_util.Prelude.Int.{negsuc}
use cxx_util.ProducerConsumer.{
  Call, consuming, producing, Queue, empty, consume, produce, run_calls, post, run, depth,
}
use cxx_util.ProducerConsumer.History.{handler_of, run_in_order}
use cxx_util.ProducerConsumer.Depth.{depth-run}
use cxx_util.ProducerConsumer.Total.{OnlyProduces, run_total}

-- Handler 7 offers handler 8 and one more datum; the others do nothing.
abbrev react : ℕ → ℕ → List (Call ℕ ℕ)
react h d = if h == 7 then consuming 8 ∷ producing (d + 1) ∷ [] else []

abbrev calls : List (Call ℕ ℕ)
calls = consuming 7 ∷ consuming 9 ∷ producing 20 ∷ []

-- 9 was offered before 8, so it takes the datum that 7 produced.
abbrev after_calls : Queue ℕ ℕ
after_calls = record {
  m_handlers = 8 ∷ [];
  m_data = [];
  invoked = (7, 20) ∷ (9, 21) ∷ [];
  consumed = 7 ∷ 9 ∷ 8 ∷ [];
  produced = 20 ∷ 21 ∷ [];
}

calls-run : run react 5 calls empty ≡ some after_calls
unfolding run post run_calls consume produce empty
calls-run = refl

run_in_order_example : after_calls.consumed ≡ map handler_of after_calls.invoked ++ (8 ∷ [])
run_in_order_example = (run_in_order react 5 calls calls-run).0

depth-run_example : depth after_calls ≡ negsuc 0
depth-run_example = depth-run react 5 calls calls-run (omega arith) (omega arith)

-- Handler 7 produces once more; no handler consumes.
abbrev feeding : ℕ → ℕ → List (Call ℕ ℕ)
feeding h d = if h == 7 then producing (d + 1) ∷ [] else []

feeding-OnlyProduces : (h d : ℕ) → OnlyProduces (feeding h d)
feeding-OnlyProduces h d = ground arith

run_total_example : (q : Queue ℕ ℕ) × (run feeding 4 calls empty ≡ some q)
unfolding empty
run_total_example = run_total feeding feeding-OnlyProduces 4 calls empty (omega arith)
