-- ===== src/WebSocket/MessageQueue.antt =====
-- `MessageQueueImpl` of include/util/asio/ws/messagequeue.hpp. A connection is a number, and a
-- message its payload. `asyncReceive` posts a function object that consults the connection and
-- then waits in the receive queue; the one that waits posts the call of the user's handler.
pub mod Operations
pub mod Receive
pub mod Close
mod Tests
use cxx_util.Prelude.{
  ℕ, ◌+◌, Bool, true, false, List, [], ◌∷◌, ◌++◌, map, Option, none, some, length, take, drop,
  if◌then◌else◌, ◌==◌, suc,
}
use cxx_util.ProducerConsumer
use cxx_util.ProducerConsumer.{Queue}
use cxx_util.ProducerConsumer.Quiet.{quiet}
use cxx_util.ProducerConsumer.Closing.{abort_demand, discard_supply}
use cxx_util.WebSocket.ErrorCode.{ErrorCode, success, operation_aborted, message_size, is_error}

abbrev pub Message : Type 0
Message = List ℕ

-- What is produced: an error code, and a message, which is null with an error.
abbrev pub Datum : Type 0
Datum = ErrorCode × Option Message

-- What consumes: the lambda of `asyncReceive`, with its buffer's size and its user's handler, or
-- the lambda of `close`, which only logs.
pub data Consumer : Type 0 where
  receiving : ℕ → ℕ → Consumer
  discarding : Consumer

-- What is posted to the context: the start of a receive (buffer size and handler), or the call of
-- a handler, with the error code and the bytes that are in its buffer; a send has no bytes.
pub data Posted : Type 0 where
  start_receive : ℕ → ℕ → Posted
  call_handler : ℕ → ErrorCode → List ℕ → Posted

pub record MessageQueue : Type 0 where
  pub m_ptr : Option ℕ
  pub m_receive_queue : Queue Consumer Datum
  pub posted : List Posted
  pub hooked : List ℕ  -- the connections whose handlers point to this object

abbrev pub copied : ℕ → Message → ErrorCode
copied size msg = if length (take size msg) == length msg then success else message_size

-- What a consumer posts when it is invoked. A success with a null message would follow the null
-- pointer; here it posts nothing.
unfoldable pub on_datum : Consumer → Datum → List Posted
on_datum (receiving size handler) (success, some msg) =
    call_handler handler (copied size msg) (take size msg) ∷ []
on_datum (receiving size handler) (success, none) = []
on_datum (receiving size handler) (ec, msg) = call_handler handler ec [] ∷ []
on_datum discarding d = []

abbrev pub on_data : List (Consumer × Datum) → List Posted
on_data [] = []
on_data ((c, d) ∷ l) = on_datum c d ++ on_data l

-- The queue after a call, with what the consumers invoked in it have posted.
abbrev pub with_queue : MessageQueue → Queue Consumer Datum → MessageQueue
with_queue q r = record q {
  m_receive_queue = r;
  posted = q.posted ++ on_data (drop (length q.m_receive_queue.invoked) r.invoked);
}

abbrev pub with_result : MessageQueue → Option (Queue Consumer Datum) → Option MessageQueue
with_result q none = none
with_result q (some r) = some (with_queue q r)
