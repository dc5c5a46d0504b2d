-- ===== src/WebSocket/MessageQueue/Receive.antt =====
-- A connected queue, as its events come in any order.
use cxx_util.Prelude.{ℕ, ◌≡◌, refl, false, List, [], ◌∷◌, ◌++◌, Option, none, some, length, drop}
use cxx_util.ProducerConsumer
use cxx_util.ProducerConsumer.Quiet.{pairs}
use cxx_util.ProducerConsumer.Closing.{queue_of}
use cxx_util.WebSocket.ErrorCode.{ErrorCode, success, is_error}
use cxx_util.WebSocket.MessageQueue.{
  Message, Datum, Consumer, receiving, Posted, MessageQueue, on_data,
}
use cxx_util.WebSocket.MessageQueue.Operations.{
  produce, run_receive, handle_message, handle_close, closing_code,
}

-- An event, with the transport error that the connection reports at the time.
pub data Event : Type 0 where
  starting : ErrorCode → ℕ → ℕ → Event
  arriving : Message → Event
  closing : ErrorCode → Event

pub step : Event → MessageQueue → Option MessageQueue
step (starting ec size handler) q = run_receive (λ _. ec) size handler q
step (arriving msg) q = handle_message msg q
step (closing ec) q = handle_close (λ _. ec) q

pub run : List Event → MessageQueue → Option MessageQueue
run [] q = some q
run (e ∷ es) q = elim (step e q) [ none ↦ none | some q' ↦ run es q' ]

-- No receive starts on a failed transport.
abbrev pub StartsOpen : List Event → Type 0
StartsOpen [] = Unit {0}
StartsOpen (starting ec size handler ∷ es) = (is_error ec ≡ false) × StartsOpen es
StartsOpen (arriving msg ∷ es) = StartsOpen es
StartsOpen (closing ec ∷ es) = StartsOpen es

-- The receives of a run, and its data, in their order.
abbrev pub receives : List Event → List Consumer
receives [] = []
receives (starting ec size handler ∷ es) = receiving size handler ∷ receives es
receives (arriving msg ∷ es) = receives es
receives (closing ec ∷ es) = receives es

abbrev pub arrivals : List Event → List Datum
arrivals [] = []
arrivals (starting ec size handler ∷ es) = arrivals es
arrivals (arriving msg ∷ es) = (success, some msg) ∷ arrivals es
arrivals (closing ec ∷ es) = (closing_code ec, none) ∷ arrivals es

-- A connected queue with these lists.
abbrev pub holding :
    ℕ
    → List ℕ
    → List Consumer
    → List Datum
    → List (Consumer × Datum)
    → List Consumer
    → List Datum
    → List Posted
    → MessageQueue
holding c hooks hs ds log cs ps out = record {
  m_ptr = some c;
  m_receive_queue = queue_of hs ds log cs ps;
  posted = out;
  hooked = hooks;
}

-- Not both lists have a front.
abbrev pub Idle : List Consumer → List Datum → Type 0
Idle [] ds = Unit {0}
Idle (h ∷ hs) [] = Unit {0}
Idle (h ∷ hs) (d ∷ ds) = ⊥

pub drop-append {κ} : {A : Type κ} (xs ys : List A) → drop (length xs) (xs ++ ys) ≡ ys
drop-append [] ys = refl
drop-append (x ∷ xs) ys = drop-append xs ys

module _ (c : ℕ) (hooks : List ℕ) where
  -- After these events, what has been posted is `out`.
  abbrev Posts : List Event → MessageQueue → List Posted → Type 0
  Posts es q out = (q' : MessageQueue) × (run es q ≡ some q') × (q'.posted ≡ out)

  abbrev paired : List Posted → List Consumer → List Datum → List Posted
  paired out hs ds = out ++ on_data (pairs hs ds)

  -- What remains of a run pairs the lists that it starts from with its own.
  Continues : List Event → List Consumer → List Datum → Type 0
  Continues es hs' ds' =
      (hs : List Consumer) (ds : List Datum) (log : List (Consumer × Datum)) (cs : List Consumer)
      (ps : List Datum) (out : List Posted)
      → Idle hs ds
      → Posts es (holding c hooks hs ds log cs ps out) (paired out (hs ++ hs') (ds ++ ds'))

  Produces : Event → Datum → Type 0
  Produces e d =
      (hs : List Consumer) (ds : List Datum) (log : List (Consumer × Datum)) (cs : List Consumer)
      (ps : List Datum) (out : List Posted)
      → step e (holding c hooks hs ds log cs ps out)
        ≡ produce d (holding c hooks hs ds log cs ps out)
