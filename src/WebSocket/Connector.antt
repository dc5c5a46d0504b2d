-- ===== src/WebSocket/Connector.antt =====
-- `ConnectorImpl` of include/util/asio/ws/connector.hpp. Connections, addresses, message queues and
-- users' handlers are numbers; the map of nascent connections is a list, sorted by connection. What
-- a handler does when it is called is to call `asyncConnect`: `again h ec` lists these requests, in
-- order. `none` is an assertion that fails. `effects` is what the members have done, in order, and
-- `requested` the handlers that `asyncConnect` was called with.
pub mod Balance
pub mod Runs
pub mod Once
pub mod Fit
pub mod Connected
mod Tests
use cxx_util.Prelude.{
  ℕ, Bool, true, false, List, [], ◌∷◌, ◌++◌, map, Option, none, some, if◌then◌else◌, ◌==◌, ltb,
}
use cxx_util.WebSocket.ErrorCode.{ErrorCode, success, operation_aborted, network_down, is_error}

pub record Request : Type 0 where
  pub uri : ℕ
  pub request_mq : ℕ
  pub request_handler : ℕ

pub record NascentConnection : Type 0 where
  pub handler : ℕ
  pub mq : ℕ

-- What is posted to the context.
pub data Task : Type 0 where
  connecting : Request → Task
  closing : Task
  clearing : ℕ → Task

pub data Effect : Type 0 where
  connect : ℕ → Effect
  connection_set : ℕ → ℕ → Effect
  connection_closed : ℕ → Effect
  called : ℕ → ErrorCode → Effect

abbrev pub Nascent : Type 0
Nascent = List (ℕ × NascentConnection)

pub record Connector : Type 0 where
  pub m_nascent_connections : Nascent
  pub posted : List Task
  pub effects : List Effect
  pub requested : List ℕ
  pub cleared : List ℕ

abbrev pub initial : Connector
initial = record {
  m_nascent_connections = [];
  posted = [];
  effects = [];
  requested = [];
  cleared = [];
}

-- `std::map::insert`: `none` where the key is there already.
unfoldable pub insert : ℕ → NascentConnection → Nascent → Option Nascent
insert con n [] = some ((con, n) ∷ [])
insert con n ((c, d) ∷ m) =
    let rest = insert con n m in
    if c == con
    then none
    else if ltb con c
    then some ((con, n) ∷ (c, d) ∷ m)
    else elim rest [ none ↦ none | some m' ↦ some ((c, d) ∷ m') ]

-- `std::map::find` and `std::map::erase`.
unfoldable pub find : ℕ → Nascent → Option NascentConnection
find con [] = none
find con ((c, d) ∷ m) = let rest = find con m in if c == con then some d else rest

unfoldable pub erase : ℕ → Nascent → Nascent
erase con [] = []
erase con ((c, d) ∷ m) = let rest = erase con m in if c == con then m else (c, d) ∷ rest

abbrev add_posted : Connector → Task → Connector
add_posted c t = record c { posted = c.posted ++ (t ∷ []) }

abbrev add_effect : Connector → Effect → Connector
add_effect c e = record c { effects = c.effects ++ (e ∷ []) }

abbrev pub handlers_of : List Request → List ℕ
handlers_of rs = map (λ r. r.request_handler) rs

-- `asyncConnect`.
unfoldable pub async_connect : Request → Connector → Connector
async_connect r c = record c {
  posted = c.posted ++ (connecting r ∷ []);
  requested = c.requested ++ (r.request_handler ∷ []);
}

-- `close`: its error code is always a success.
abbrev pub close : Connector → ErrorCode × Connector
close c = (success, add_posted c closing)

-- In the fail handler a success is no answer.
abbrev pub failure_code : ErrorCode → ErrorCode
failure_code ec = if is_error ec then ec else network_down

module _ (again : ℕ → ErrorCode → List Request) where
  -- The call of a user's handler.
  unfoldable pub call_handler : ℕ → ErrorCode → Connector → Connector
  call_handler h ec c = record c {
    effects = c.effects ++ (called h ec ∷ []);
    posted = c.posted ++ map connecting (again h ec);
    requested = c.requested ++ handlers_of (again h ec);
  }

  -- The rest of `asyncConnect`, when the context runs it, with what `get_connection` gives.
  unfoldable pub run_connecting : ErrorCode × ℕ → Request → Connector → Option Connector
  run_connecting (ec, con) r c =
      if is_error ec
      then some (call_handler r.request_handler ec c)
      else elim (insert con (record { handler = r.request_handler; mq = r.request_mq })
          c.m_nascent_connections) [
            | none ↦ none
            | some m ↦ some (add_effect (record c { m_nascent_connections = m }) (connect con))
          ]

  -- The loop of what `close` has posted, over the connections in their order.
  unfoldable pub close_all : Nascent → Connector → Connector
  close_all [] c = c
  close_all ((con, n) ∷ m) c = close_all m (
      call_handler n.handler operation_aborted
        (add_effect (record c { cleared = c.cleared ++ (con ∷ []) }) (connection_closed con)))

  unfoldable pub run_closing : Connector → Connector
  run_closing c = record (close_all c.m_nascent_connections c) { m_nascent_connections = [] }

  unfoldable pub handle_open_or_fail : ℕ → ErrorCode → Connector → Connector
  handle_open_or_fail con ec c = elim (find con c.m_nascent_connections) [
    | none ↦ c
    | some n ↦ call_handler n.handler ec (
        add_effect
          (add_posted (record c { m_nascent_connections = erase con c.m_nascent_connections })
            (clearing con))
          (connection_set n.mq con))
  ]

  -- The handlers of the client, with what `get_con_from_hdl` gives: an error code, or a connection,
  -- which is asserted.
  unfoldable pub handle_open : ErrorCode × Option ℕ → Connector → Option Connector
  handle_open (ec, o) c =
      if is_error ec
      then some c
      else elim o [ none ↦ none | some con ↦ some (handle_open_or_fail con ec c) ]

  unfoldable pub handle_fail : (ℕ → ErrorCode) → ErrorCode × Option ℕ → Connector → Option Connector
  handle_fail transport_ec (ec, o) c = if is_error ec then some c else elim o [
    | none ↦ none
    | some con ↦ some (handle_open_or_fail con (failure_code (transport_ec con)) c)
  ]

  -- The context runs what was posted.
  unfoldable pub run_task : ErrorCode × ℕ → Task → Connector → Option Connector
  run_task got (connecting r) c = run_connecting got r c
  run_task got closing c = some (run_closing c)
  run_task got (clearing con) c = some (record c { cleared = c.cleared ++ (con ∷ []) })

  abbrev pub run_posted : ErrorCode × ℕ → List Task → Connector → Option Connector
  run_posted got [] c = some c
  run_posted got (t ∷ ts) c = run_task got t (record c { posted = ts })
