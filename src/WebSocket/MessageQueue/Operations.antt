-- ===== src/WebSocket/MessageQueue/Operations.antt =====
-- The members of `MessageQueueImpl`. What a connection answers (its transport error, the result of
-- its `send` and `close`) is a function of the connection. `none` is an assertion that fails or a
-- null pointer that is followed. No handler of this class calls the queue again, so the loops of
-- `consume`, `produce` and `close` run over handlers that are quiet.
use cxx_util.Prelude.{ℕ, ◌+◌, List, [], ◌∷◌, ◌++◌, Option, none, some, length, if◌then◌else◌, ◌==◌}
use cxx_util.ProducerConsumer
use cxx_util.ProducerConsumer.{Queue}
use cxx_util.ProducerConsumer.Quiet.{quiet}
use cxx_util.ProducerConsumer.Closing.{abort_demand, discard_supply}
use cxx_util.WebSocket.ErrorCode.{ErrorCode, success, operation_aborted, is_error}
use cxx_util.WebSocket.MessageQueue.{
  Message, Datum, Consumer, receiving, discarding, Posted, start_receive, call_handler,
  MessageQueue, with_queue, with_result,
}

abbrev pub initial : MessageQueue
initial = record {
  m_ptr = none;
  m_receive_queue = ProducerConsumer.empty;
  posted = [];
  hooked = [];
}

-- Fuel for the loop of `post`: a round for each consumer that waits or comes.
abbrev pub rounds : Queue Consumer Datum → ℕ
rounds r = length r.m_handlers + 2

abbrev pub add_posted : MessageQueue → Posted → MessageQueue
add_posted q p = record q { posted = q.posted ++ (p ∷ []) }

unfoldable pub consume : Consumer → MessageQueue → Option MessageQueue
consume c q = with_result q (
    ProducerConsumer.consume (ProducerConsumer.post quiet (rounds q.m_receive_queue)) c
      q.m_receive_queue)

unfoldable pub produce : Datum → MessageQueue → Option MessageQueue
produce d q = with_result q (
    ProducerConsumer.produce (ProducerConsumer.post quiet (rounds q.m_receive_queue)) d
      q.m_receive_queue)

-- The two loops of `close`.
unfoldable pub drain : Queue Consumer Datum → Option (Queue Consumer Datum)
drain r =
    elim (abort_demand quiet (length r.m_handlers + 1) (rounds r) (operation_aborted, none) r) [
      | none ↦ none
      | some r' ↦ discard_supply quiet (length r'.m_data + 1) (rounds r') discarding r'
    ]

abbrev pub close_connection : (ℕ → ErrorCode) → Option ℕ → ErrorCode
close_connection answer none = success
close_connection answer (some c) = answer c

unfoldable pub close : (ℕ → ErrorCode) → MessageQueue → Option (ErrorCode × MessageQueue)
close answer q = elim (drain q.m_receive_queue) [
  | none ↦ none
  | some r ↦ some (close_connection answer q.m_ptr, with_queue q r)
]

-- With what the connection answers; `none` is a null pointer that is followed.
abbrev pub get_remote_endpoint : (ℕ → List ℕ) → MessageQueue → Option (List ℕ)
get_remote_endpoint endpoint q = elim q.m_ptr [ none ↦ none | some c ↦ some (endpoint c) ]

abbrev pub async_send : (ℕ → Message → ErrorCode) → Message → ℕ → MessageQueue → Option MessageQueue
async_send send payload handler q = elim q.m_ptr [
  | none ↦ none
  | some c ↦ some (add_posted q (call_handler handler (send c payload) []))
]

abbrev pub async_receive : ℕ → ℕ → MessageQueue → MessageQueue
async_receive size handler q = add_posted q (start_receive size handler)

-- What `asyncReceive` has posted, when the context runs it.
unfoldable pub run_receive : (ℕ → ErrorCode) → ℕ → ℕ → MessageQueue → Option MessageQueue
run_receive transport_ec size handler q = elim q.m_ptr [
  | none ↦ none
  | some c ↦
      if is_error (transport_ec c)
      then some (add_posted q (call_handler handler (transport_ec c) []))
      else consume (receiving size handler) q
]

abbrev pub set_connection_ptr : ℕ → MessageQueue → MessageQueue
set_connection_ptr c q = record q { m_ptr = some c; hooked = c ∷ q.hooked }

abbrev pub handle_message : Message → MessageQueue → Option MessageQueue
handle_message msg q = produce (success, some msg) q

abbrev pub closing_code : ErrorCode → ErrorCode
closing_code ec = if is_error ec then ec else operation_aborted

unfoldable pub handle_close : (ℕ → ErrorCode) → MessageQueue → Option MessageQueue
handle_close transport_ec q = elim q.m_ptr [
  | none ↦ none
  | some c ↦ produce (closing_code (transport_ec c), none) q
]

abbrev pub unhook : ℕ → List ℕ → List ℕ
unhook c [] = []
unhook c (x ∷ xs) = let rest = unhook c xs in if x == c then rest else x ∷ rest

-- The destructor: the connection's handlers go first, and then `close`.
abbrev pub unhooked : MessageQueue → MessageQueue
unhooked q = record q { hooked = elim q.m_ptr [ none ↦ q.hooked | some c ↦ unhook c q.hooked ] }

abbrev pub destroy : (ℕ → ErrorCode) → MessageQueue → Option (ErrorCode × MessageQueue)
destroy answer q = close answer (unhooked q)
