-- ===== src/WebSocket/Acceptor/Endless.antt =====
-- `close` with a user's handler that accepts again whatever error code it gets.
use cxx_util.Prelude.{ℕ, zero, suc, ◌≡◌, refl, List, [], ◌∷◌, ◌++◌, none}
use cxx_util.ProducerConsumer
use cxx_util.ProducerConsumer.{Queue, post, depth, produce}
use cxx_util.ProducerConsumer.Closing.{abort_demand, queue_of}
use cxx_util.WebSocket.ErrorCode.{ErrorCode, operation_aborted}
use cxx_util.WebSocket.Acceptor.{Acceptance, accepting, Arrival, Acceptor, react, drain, close}

abbrev pub ever : ℕ → ℕ → ℕ → ErrorCode → List (ℕ × ℕ)
ever mq handler h ec = (mq, handler) ∷ []

abbrev aborted : Arrival
aborted = (operation_aborted, none)

module _ (mq handler : ℕ) where
  abbrev pub waits :
      List (Acceptance × Arrival) → List Acceptance → List Arrival → Queue Acceptance Arrival
  waits log c p = queue_of (accepting mq handler ∷ []) [] log c p

  endless :
      (fuel pf : ℕ) (log : List (Acceptance × Arrival)) (c : List Acceptance) (p : List Arrival)
      → abort_demand (react (ever mq handler)) fuel pf aborted (waits log c p) ≡ none
  unfolding abort_demand depth produce post ProducerConsumer.run_calls ProducerConsumer.consume
      ProducerConsumer.to_int
  endless zero pf log c p = refl
  endless (suc fuel) zero log c p = refl
  endless (suc fuel) (suc zero) log c p = refl
  endless (suc fuel) (suc (suc pf)) log c p =
      endless fuel (suc (suc pf)) (log ++ ((accepting mq handler, aborted) ∷ []))
        (c ++ (accepting mq handler ∷ [])) (p ++ (aborted ∷ []))

  -- Where one `asyncAccept` waits whose user's handler calls `asyncAccept` again whatever error code it gets,
  -- no fuel is enough for `close`: each round of its first loop answers a consumer and gets another.
  pub close_endless :
      (fuel : ℕ) (ec : ErrorCode) (a : Acceptor) (log : List (Acceptance × Arrival))
      (c : List Acceptance) (p : List Arrival)
      → a.m_connection_queue ≡ waits log c p
      → close (ever mq handler) fuel ec a ≡ none
  unfolding close drain
  close_endless fuel ec a log c p e = rw (e, endless fuel fuel log c p, close, drain) refl
