-- ===== src/WebSocket/Connector/Tests.antt =====
-- Three requests: one is opened, one fails and is requested again, and one is closed.
use cxx_util.Prelude.{ℕ, ◌+◌, ◌≡◌, refl, List, [], ◌∷◌, none, some, if◌then◌else◌, ◌==◌}
use cxx_util.WebSocket.ErrorCode.{ErrorCode, success, operation_aborted, network_down}
use cxx_util.WebSocket.Connector.{
  Request, Connector, connect, connection_set, connection_closed, called, initial, insert, find,
  erase, async_connect, call_handler, run_connecting, close_all, run_closing, handle_open_or_fail,
  handle_open, handle_fail, run_task,
}
use cxx_util.Prelude.Count.{count}
use cxx_util.WebSocket.Connector.Balance.{count_called, count_nascent, count_posted}
use cxx_util.WebSocket.Connector.Runs.{
  Event, requesting, closing_event, running, opened, failed, step, run,
}
use cxx_util.WebSocket.Connector.Once.{called_as_requested}

abbrev request : ℕ → Request
request h = record { uri = 0; request_mq = h; request_handler = h }

-- Handler 2 tries again when the network is down.
abbrev retries : ℕ → ErrorCode → List Request
retries h network_down = if h == 2 then request 2 ∷ [] else []
retries h ec = []

abbrev events : List Event
events =
    requesting (request 1)
    ∷ requesting (request 2)
    ∷ requesting (request 3)
    ∷ running (success, 11)
    ∷ running (success, 12)
    ∷ running (success, 13)
    ∷ opened (success, some 11)
    ∷ failed (λ _. success) (success, some 12)
    ∷ closing_event
    ∷ running (success, 0)
    ∷ running (success, 0)
    ∷ running (success, 0)
    ∷ running (success, 0)
    ∷ []

abbrev ended : Connector
ended = elim (run retries events initial) [ none ↦ initial | some c ↦ c ]

-- The failed connection is handed to its message queue, too.
events_effects :
    ended.effects
    ≡ connect 11
      ∷ connect 12
      ∷ connect 13
      ∷ connection_set 1 11
      ∷ called 1 success
      ∷ connection_set 2 12
      ∷ called 2 network_down
      ∷ connect 0
      ∷ connection_closed 0
      ∷ called 2 operation_aborted
      ∷ connection_closed 13
      ∷ called 3 operation_aborted
      ∷ []
unfolding run step insert find erase async_connect call_handler run_connecting close_all run_closing
    handle_open_or_fail handle_open handle_fail run_task
events_effects = refl

events-run : run retries events initial ≡ some ended
unfolding run step insert find erase async_connect call_handler run_connecting close_all run_closing
    handle_open_or_fail handle_open handle_fail run_task
events-run = refl

called_as_requested_example :
    count_called 2 ended.effects
      + count_nascent 2 ended.m_nascent_connections
      + count_posted 2 ended.posted
    ≡ count 2 ended.requested
called_as_requested_example = called_as_requested retries events 2 events-run
