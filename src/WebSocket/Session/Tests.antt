-- ===== src/WebSocket/Session/Tests.antt =====
-- A request whose connection is opened.
use cxx_util.Prelude.{ℕ, ◌≡◌, refl, List, [], ◌∷◌, none, some}
use cxx_util.WebSocket.ErrorCode.{ErrorCode, success}
use cxx_util.WebSocket.MessageQueue.{Message, MessageQueue}
use cxx_util.WebSocket.MessageQueue.Operations
use cxx_util.WebSocket.MessageQueue.Operations.{get_remote_endpoint, async_send}
use cxx_util.WebSocket.Connector.{
  Request, Connector, Effect, connect, connection_set, initial, insert, find, erase, async_connect,
  call_handler, run_connecting, handle_open_or_fail, handle_open, run_task,
}
use cxx_util.WebSocket.Connector.Runs.{Event, requesting, running, opened, step, run}
use cxx_util.WebSocket.Session.{hand_over_all, called-sends}

abbrev events : List Event
events =
    requesting (record { uri = 0; request_mq = 7; request_handler = 1 })
    ∷ running (success, 11)
    ∷ opened (success, some 11)
    ∷ []

abbrev never : ℕ → ErrorCode → List Request
never h ec = []

abbrev ended : Connector
ended = elim (run never events initial) [ none ↦ initial | some c ↦ c ]

abbrev front : List Effect
front = connect 11 ∷ connection_set 7 11 ∷ []

abbrev fresh : ℕ → MessageQueue
fresh m = Operations.initial

called-sends_example :
    ((con : ℕ) × ((hand_over_all front fresh 7).m_ptr ≡ some con)
      × ((endpoint : ℕ → List ℕ)
          → get_remote_endpoint endpoint (hand_over_all front fresh 7) ≡ some (endpoint con)))
    × ((send : ℕ → Message → ErrorCode) (payload : Message) (k : ℕ)
        → (q : MessageQueue) × (async_send send payload k (hand_over_all front fresh 7) ≡ some q))
unfolding run step insert find erase async_connect call_handler run_connecting handle_open_or_fail
    handle_open run_task
called-sends_example =
    called-sends (λ h. 7) never (λ h ec. tt) events {c = ended} front [] 1 success fresh (refl, tt)
      refl refl refl
