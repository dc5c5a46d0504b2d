-- ===== src/WebSocket/Acceptor/Tests.antt =====
-- A user's handler that accepts again until it gets an error, and one that always does.
use cxx_util.Prelude.{
  ℕ, ◌≡◌, refl, inr, arith, Bool, true, ◌+◌, List, [], ◌∷◌, Option, none, some, if◌then◌else◌,
}
use cxx_util.ProducerConsumer
use cxx_util.ProducerConsumer.{Queue}
use cxx_util.ProducerConsumer.Quiet.{pairs}
use cxx_util.ProducerConsumer.Closing.{abort_demand, discard_supply}
use cxx_util.WebSocket.ErrorCode.{ErrorCode, success, operation_aborted, other, is_error}
use cxx_util.WebSocket.Acceptor.{
  Acceptance, accepting, Acceptor, connected, called, on_arrival, initial, effects, handle_open,
  async_accept, run_posted, drain, close,
}
use cxx_util.WebSocket.Acceptor.Service.{
  Event, listening_event, closing_event, accept, opening, running, step, run,
}
use cxx_util.ProducerConsumer.Asked.{IsPart, how_many, asked}
use cxx_util.WebSocket.Acceptor.Answers.{accepts, arrivals, answers, effects_from_events}
use cxx_util.WebSocket.Acceptor.Ending.{further}
use cxx_util.WebSocket.Acceptor.Close.{Closes, close_ends}
use cxx_util.WebSocket.Acceptor.Endless.{ever, waits, close_endless}

abbrev until_error : ℕ → ErrorCode → List (ℕ × ℕ)
until_error handler ec = if is_error ec then [] else (20, handler) ∷ []

-- Two connections come, and then the acceptor is closed.
abbrev events : List Event
events =
    listening_event
    ∷ accept 10 1
    ∷ opening (success, some 5)
    ∷ opening (success, some 6)
    ∷ running (λ _. success)
    ∷ running (λ _. success)
    ∷ closing_event success
    ∷ []

abbrev ended : Option Acceptor
ended = run until_error 9 events initial

abbrev after_events : Acceptor
after_events = elim ended [ none ↦ initial | some a ↦ a ]

events-run : run until_error 9 events initial ≡ some after_events
unfolding run step ProducerConsumer.empty handle_open async_accept run_posted drain close
    abort_demand discard_supply ProducerConsumer.depth ProducerConsumer.to_int
    ProducerConsumer.consume ProducerConsumer.produce ProducerConsumer.post
    ProducerConsumer.run_calls
events-run = refl

events_effects :
    effects after_events
    ≡ connected 10 (some 5)
      ∷ called 1 success
      ∷ connected 20 (some 6)
      ∷ called 1 success
      ∷ called 1 operation_aborted
      ∷ []
unfolding run step ProducerConsumer.empty handle_open async_accept run_posted drain close
    abort_demand discard_supply ProducerConsumer.depth ProducerConsumer.to_int
    ProducerConsumer.consume ProducerConsumer.produce ProducerConsumer.post
    ProducerConsumer.run_calls on_arrival
events_effects = refl

-- The same without the end; the transport of the second connection has failed.
abbrev served : List Event
served =
    listening_event
    ∷ accept 10 1
    ∷ opening (success, some 5)
    ∷ opening (other 2, none)
    ∷ opening (success, some 6)
    ∷ running (λ _. success)
    ∷ running (λ _. other 7)
    ∷ []

abbrev after_served : Acceptor
after_served = elim (run until_error 9 served initial) [ none ↦ initial | some a ↦ a ]

served_effects :
    effects after_served ≡ connected 10 (some 5) ∷ called 1 success ∷ called 1 (other 7) ∷ []
unfolding run step ProducerConsumer.empty handle_open async_accept run_posted on_arrival
    ProducerConsumer.consume ProducerConsumer.produce ProducerConsumer.post
    ProducerConsumer.run_calls
served_effects = refl

served-answers :
    answers (pairs (accepting 10 1 ∷ accepting 20 1 ∷ []) (arrivals served []))
    ≡ connected 10 (some 5) ∷ called 1 success ∷ called 1 (other 7) ∷ []
served-answers = refl

effects_from_events_example :
    (a : Acceptor) × (run until_error 9 served initial ≡ some a)
    × (askers : List Acceptance) × (effects a ≡ answers (pairs askers (arrivals served [])))
    × IsPart (accepts served) askers
    × ((kind : Acceptance → Bool)
        → how_many kind askers
          ≡ how_many kind (accepts served)
            + asked (further until_error) kind (pairs askers (arrivals served [])))
effects_from_events_example = effects_from_events until_error 9 served tt tt (omega arith)

abbrev one_waits : Acceptor
one_waits = record {
  m_connection_queue = waits 10 1 [] [] [];
  listening = true;
  posted = [];
  cleared = [];
}

close_endless_example : close (ever 10 1) 1000 success one_waits ≡ none
close_endless_example = close_endless 10 1 1000 success one_waits [] [] [] refl

-- The waiting call is answered.
close_ends_example : Closes 6 success (called 1 operation_aborted ∷ []) one_waits
close_ends_example =
    close_ends 5 success one_waits ((10, 1) ∷ []) [] [] [] [] refl (inr refl) (omega arith)
      (omega arith)
