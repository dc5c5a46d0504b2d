-- ===== src/WebSocket/Session.antt =====
-- A connector together with the message queues that its users give it: include/util/asio/ws/connector.hpp
-- calls `setConnectionPtr` of include/util/asio/ws/messagequeue.hpp on them.
mod Tests
use cxx_util.Prelude.{
  ℕ, ◌≡◌, refl, sym, ap, subst, ◌∙◌, Bool, true, false, false≢true, List, [], ◌∷◌, ◌++◌, Option,
  none, some, some-injective, ◌⊎◌, inl, inr, ◌==◌, ==_iff, if◌then◌else◌,
}
use cxx_util.WebSocket.ErrorCode.{ErrorCode, is_error}
use cxx_util.WebSocket.MessageQueue.{Message, MessageQueue, call_handler}
use cxx_util.WebSocket.MessageQueue.Operations.{set_connection_ptr, get_remote_endpoint, async_send}
use cxx_util.WebSocket.Connector.{
  Request, Effect, connect, connection_set, connection_closed, called, Connector, initial,
}
use cxx_util.WebSocket.Connector.Runs.{Event, Requests, run}
use cxx_util.WebSocket.Connector.Fit.{last_of, IsFit, FitRequests, Given, Connected}
use cxx_util.WebSocket.Connector.Connected.{called-Connected}

-- The message queues by their numbers, after what a connector does.
abbrev pub hand_over : Effect → (ℕ → MessageQueue) → ℕ → MessageQueue
hand_over (connection_set mq con) queues m =
    if mq == m then set_connection_ptr con (queues m) else queues m
hand_over (connect con) queues m = queues m
hand_over (connection_closed con) queues m = queues m
hand_over (called h ec) queues m = queues m

abbrev pub hand_over_all : List Effect → (ℕ → MessageQueue) → ℕ → MessageQueue
hand_over_all [] queues = queues
hand_over_all (e ∷ l) queues = hand_over_all l (hand_over e queues)

hand_over_set :
    (e : Effect) (queues : ℕ → MessageQueue) (m con : ℕ)
    → e ≡ connection_set m con
    → (hand_over e queues m).m_ptr ≡ some con
hand_over_set e queues m con h =
    ap (λ d. (hand_over d queues m).m_ptr) h ∙ rw ((==_iff m m).1 refl) refl

-- Where the last that was done gives a connection to a message queue, it has it.
hand_over_last :
    (p : Option Effect) (l : List Effect) (queues : ℕ → MessageQueue) (m con : ℕ)
    → last_of p l ≡ some (connection_set m con)
    → (p ≡ some (connection_set m con) → (queues m).m_ptr ≡ some con)
    → (hand_over_all l queues m).m_ptr ≡ some con
hand_over_last p [] queues m con e h = h e
hand_over_last p (d ∷ l) queues m con e h =
    hand_over_last (some d) l (hand_over d queues) m con e
      (λ q. hand_over_set d queues m con (some-injective d (connection_set m con) q))

-- The condition on a call, anywhere in what was done.
Connected-called :
    (queue_of : ℕ → ℕ) (p : Option Effect) (front back : List Effect) (h : ℕ) (ec : ErrorCode)
    → Connected queue_of p (front ++ (called h ec ∷ back))
    → (is_error ec ≡ true) ⊎ Given queue_of (queue_of h) (last_of p front)
Connected-called queue_of p [] back h ec c = c.0
Connected-called queue_of p (called g e ∷ l) back h ec c =
    Connected-called queue_of (some (called g e)) l back h ec c.1
Connected-called queue_of p (connect con ∷ l) back h ec c =
    Connected-called queue_of (some (connect con)) l back h ec c
Connected-called queue_of p (connection_set m con ∷ l) back h ec c =
    Connected-called queue_of (some (connection_set m con)) l back h ec c
Connected-called queue_of p (connection_closed con ∷ l) back h ec c =
    Connected-called queue_of (some (connection_closed con)) l back h ec c

sends :
    (send : ℕ → Message → ErrorCode) (payload : Message) (k con : ℕ) (q : MessageQueue)
    → q.m_ptr ≡ some con
    → (q' : MessageQueue) × (async_send send payload k q ≡ some q')
sends send payload k con q h =
    (sent con, ap (λ o. elim o [ none ↦ none | some c ↦ some (sent c) ]) h)
  where
    sent : ℕ → MessageQueue
    sent c = record q { posted = q.posted ++ (call_handler k (send c payload) [] ∷ []) }

-- After any events from a new connector without a failed assertion, where each handler is always given
-- together with one and the same message queue: when a handler is called without an error, its message
-- queue has a connection, whatever the queues were before: `getRemoteEndpoint` gives the answer of that
-- connection, and the assertion of `asyncSend` does not fail.
pub called-sends :
    (queue_of : ℕ → ℕ) (again : ℕ → ErrorCode → List Request)
    → ((h : ℕ) (ec : ErrorCode) → FitRequests queue_of (again h ec))
    → (es : List Event) {c : Connector} (front back : List Effect) (h : ℕ) (ec : ErrorCode)
      (queues : ℕ → MessageQueue)
    → Requests (IsFit queue_of) es
    → run again es initial ≡ some c
    → c.effects ≡ front ++ (called h ec ∷ back)
    → is_error ec ≡ false
    → ((con : ℕ) × ((hand_over_all front queues (queue_of h)).m_ptr ≡ some con)
        × ((endpoint : ℕ → List ℕ)
            → get_remote_endpoint endpoint (hand_over_all front queues (queue_of h))
              ≡ some (endpoint con)))
      × ((send : ℕ → Message → ErrorCode) (payload : Message) (k : ℕ)
          → (q : MessageQueue) × (async_send send payload k
                (hand_over_all front queues (queue_of h))
              ≡ some q))
called-sends queue_of again fits es front back h ec queues r e s n = given (
    Connected-called queue_of none front back h ec
      (subst (Connected queue_of none) s (called-Connected queue_of again fits es r e)))
  where
    q : MessageQueue
    q = hand_over_all front queues (queue_of h)

    given :
        (is_error ec ≡ true) ⊎ Given queue_of (queue_of h) (last_of none front)
        → ((con : ℕ) × (q.m_ptr ≡ some con)
            × ((endpoint : ℕ → List ℕ) → get_remote_endpoint endpoint q ≡ some (endpoint con)))
          × ((send : ℕ → Message → ErrorCode) (payload : Message) (k : ℕ)
              → (q' : MessageQueue) × (async_send send payload k q ≡ some q'))
    given (inl u) = absurd (false≢true (sym n ∙ u))
    given (inr (con, u)) =
        let has =
          hand_over_last none front queues (queue_of h) con u
            (λ f. absurd (false≢true (ap (λ o. elim o [ none ↦ false | some x ↦ true ]) f))) in
        (
          (con, has, λ endpoint. ap (λ o. elim o [ none ↦ none | some c ↦ some (endpoint c) ]) has),
          λ send payload k. sends send payload k con q has,
        )
