-- ===== src/WebSocket/MessageQueue/Close.antt =====
-- `close` and the destructor of `MessageQueueImpl`, on a queue that its events have left.
use cxx_util.Prelude.{ℕ, ◌≡◌, List, [], map, Option, none, some}
use cxx_util.WebSocket.ErrorCode.{ErrorCode, operation_aborted}
use cxx_util.WebSocket.MessageQueue.{Datum, Consumer, discarding, Posted, MessageQueue}

abbrev pub aborted : List Consumer → List (Consumer × Datum)
aborted hs = map (λ h. (h, (operation_aborted, none))) hs

abbrev discarded : List Datum → List (Consumer × Datum)
discarded ds = map (λ d. (discarding, d)) ds

module _ (answer : ℕ → ErrorCode) (c : ℕ) (hooks : List ℕ) (log : List (Consumer × Datum)) where
  -- What `close` makes of these lists: both are empty, and `out` has been posted.
  abbrev pub Closed : List Posted → Option (ErrorCode × MessageQueue) → Type 0
  Closed out o =
      (q : MessageQueue) × (o ≡ some (answer c, q))
      × (q.m_receive_queue.m_handlers ≡ [])
      × (q.m_receive_queue.m_data ≡ [])
      × (q.posted ≡ out)
      × (q.hooked ≡ hooks)
