-- ===== src/WebSocket/Acceptor.antt =====
-- `AcceptorImpl` of include/util/asio/ws/acceptor.hpp. Connections, message queues and users'
-- handlers are numbers. A user's handler is called from inside the queue's loop, and may call
-- `asyncAccept` again: `again h ec` lists the message queue and the handler of each such call, in
-- order. `none` is a loop without fuel, an assertion that fails, or a null pointer that is followed.
pub mod Service
pub mod Ending
pub mod Answers
pub mod Endless
pub mod Close
mod Tests
use cxx_util.Prelude.{
  ℕ, Bool, true, false, List, [], ◌∷◌, ◌++◌, map, Option, none, some, ◌⊎◌, inl, inr, if◌then◌else◌,
}
use cxx_util.ProducerConsumer
use cxx_util.ProducerConsumer.{Call, consuming, Queue, post}
use cxx_util.ProducerConsumer.Closing.{abort_demand, discard_supply}
use cxx_util.WebSocket.ErrorCode.{ErrorCode, success, operation_aborted, is_error}

-- What consumes: the lambda of `asyncAccept`, with its message queue and its user's handler, or that
-- of `close`.
pub data Acceptance : Type 0 where
  accepting : ℕ → ℕ → Acceptance
  discarding : Acceptance

abbrev pub Arrival : Type 0
Arrival = ErrorCode × Option ℕ

-- What a consumer does: it hands a connection to a message queue, calls a user's handler, or closes a
-- connection.
pub data Effect : Type 0 where
  connected : ℕ → Option ℕ → Effect
  called : ℕ → ErrorCode → Effect
  closed : Option ℕ → Effect

unfoldable pub on_arrival : Acceptance → Arrival → List Effect
on_arrival (accepting mq handler) (ec, con) =
    if is_error ec then called handler ec ∷ [] else connected mq con ∷ called handler ec ∷ []
on_arrival discarding (ec, con) = if is_error ec then [] else closed con ∷ []

abbrev pub on_arrivals : List (Acceptance × Arrival) → List Effect
on_arrivals [] = []
on_arrivals ((a, d) ∷ l) = on_arrival a d ++ on_arrivals l

-- `posted` are the connections whose arrival is posted, and `cleared` those whose handlers, which
-- point to this object, have been removed.
pub record Acceptor : Type 0 where
  pub m_connection_queue : Queue Acceptance Arrival
  pub listening : Bool
  pub posted : List ℕ
  pub cleared : List ℕ

abbrev pub initial : Acceptor
initial = record {
  m_connection_queue = ProducerConsumer.empty;
  listening = false;
  posted = [];
  cleared = [];
}

-- What the consumers have done so far, in the order of their invocations.
abbrev pub effects : Acceptor → List Effect
effects a = on_arrivals a.m_connection_queue.invoked

abbrev with_queue : Acceptor → Option (Queue Acceptance Arrival) → Option Acceptor
with_queue a none = none
with_queue a (some q) = some (record a { m_connection_queue = q })

abbrev pub reported : ErrorCode → Option Acceptor → Option (ErrorCode × Acceptor)
reported ec none = none
reported ec (some a) = some (ec, a)

-- The server's handlers are set, and it listens.
abbrev pub listen : Acceptor → Acceptor
listen a = record a { listening = true }

-- With the server's answer, an error code or an endpoint; an error is thrown.
abbrev pub get_local_endpoint : ErrorCode × ℕ → ErrorCode ⊎ ℕ
get_local_endpoint (ec, ep) = if is_error ec then inl ec else inr ep

-- The server looks the connection up: an error code, or a connection, which is asserted.
unfoldable pub handle_open : ErrorCode × Option ℕ → Acceptor → Option Acceptor
handle_open (ec, con) a =
    if is_error ec
    then some a
    else elim con [ none ↦ none | some c ↦ some (record a { posted = a.posted ++ (c ∷ []) }) ]

module _ (again : ℕ → ErrorCode → List (ℕ × ℕ)) where
  abbrev pub react : Acceptance → Arrival → List (Call Acceptance Arrival)
  react (accepting mq handler) (ec, con) =
      map (λ p. consuming (accepting p.0 p.1)) (again handler ec)
  react discarding d = []

  module _ (fuel : ℕ) where
    unfoldable pub async_accept : ℕ → ℕ → Acceptor → Option Acceptor
    async_accept mq handler a =
        with_queue a
          (ProducerConsumer.consume (post react fuel) (accepting mq handler) a.m_connection_queue)

    -- What `handleOpen` has posted, when the context runs it.
    abbrev pub deliver : (ℕ → ErrorCode) → List ℕ → Acceptor → Option Acceptor
    deliver transport_ec [] a = some a
    deliver transport_ec (con ∷ cons) a =
        with_queue (record a { posted = cons; cleared = a.cleared ++ (con ∷ []) })
          (ProducerConsumer.produce (post react fuel) (transport_ec con, some con)
            a.m_connection_queue)

    unfoldable pub run_posted : (ℕ → ErrorCode) → Acceptor → Option Acceptor
    run_posted transport_ec a = deliver transport_ec a.posted a

    unfoldable pub drain : Queue Acceptance Arrival → Option (Queue Acceptance Arrival)
    drain q = elim (abort_demand react fuel fuel (operation_aborted, none) q) [
      | none ↦ none
      | some q' ↦ discard_supply react fuel fuel discarding q'
    ]

    -- `close`: the server stops listening, with the error code that it gives, and the queue is emptied.
    unfoldable pub close : ErrorCode → Acceptor → Option (ErrorCode × Acceptor)
    close stop_listening a =
        reported stop_listening
          (with_queue (record a { listening = false }) (drain a.m_connection_queue))
