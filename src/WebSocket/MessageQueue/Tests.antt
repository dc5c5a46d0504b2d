-- ===== src/WebSocket/MessageQueue/Tests.antt =====
-- A message that comes before its receive, one too long for its buffer, and the end.
use cxx_util.Prelude.{◌≡◌, refl, List, [], ◌∷◌, none}
use cxx_util.ProducerConsumer.Quiet.{pairs}
use cxx_util.WebSocket.ErrorCode.{success, message_size, network_down}
use cxx_util.WebSocket.MessageQueue.{call_handler, MessageQueue, on_datum, on_data}
use cxx_util.WebSocket.MessageQueue.Operations.{initial, async_send, unhook}
use cxx_util.WebSocket.MessageQueue.Receive.{Event, starting, arriving, closing, receives, arrivals}

abbrev events : List Event
events =
    arriving (5 ∷ 6 ∷ 7 ∷ [])
    ∷ starting success 2 1
    ∷ starting success 9 2
    ∷ starting success 9 3
    ∷ arriving (8 ∷ [])
    ∷ closing network_down
    ∷ []

-- Receive 1 has room for two of the three bytes.
events_posted :
    on_data (pairs (receives events) (arrivals events))
    ≡ call_handler 1 message_size (5 ∷ 6 ∷ [])
      ∷ call_handler 2 success (8 ∷ [])
      ∷ call_handler 3 network_down []
      ∷ []
unfolding on_datum
events_posted = refl

unsent : async_send (λ _ _. success) [] 1 initial ≡ none
unsent = refl

unhooked_once : unhook 4 (3 ∷ 4 ∷ 5 ∷ 4 ∷ []) ≡ 3 ∷ 5 ∷ []
unhooked_once = refl
