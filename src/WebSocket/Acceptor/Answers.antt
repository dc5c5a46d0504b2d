-- ===== src/WebSocket/Acceptor/Answers.antt =====
-- What an acceptor does, by what happens to it, until `close` is called.
use mathlib.Core.List.{append_assoc, append-nil}
use cxx_util.Prelude.{
  ℕ, ◌+◌, ◌≡◌, refl, sym, ◌∙◌, ap, ap₂, ◌<◌, length, arith, Bool, true, List, [], ◌∷◌, ◌++◌, Option,
  none, some, some-inv, none-ne-some, some-injective, subst,
}
use cxx_util.ProducerConsumer
use cxx_util.ProducerConsumer.{Call, consuming, Queue}
use cxx_util.ProducerConsumer.Quiet.{pairs}
use cxx_util.ProducerConsumer.Served.{empty-Served, invoked-pairs}
use cxx_util.ProducerConsumer.Asked.{
  IsPart, nothing, how_many, asked, Tied, consume-Tied, produce-Tied,
}
use cxx_util.WebSocket.ErrorCode.{
  ErrorCode, success, operation_aborted, message_size, network_down, other,
}
use cxx_util.WebSocket.Acceptor.{
  Acceptance, accepting, discarding, Arrival, Effect, connected, called, closed, on_arrival,
  on_arrivals, Acceptor, initial, effects, with_queue, listen, handle_open, react, async_accept,
  deliver, run_posted,
}
use cxx_util.WebSocket.Acceptor.Ending.{NotClosed, AllFound, further, react-further, run_ends}
use cxx_util.WebSocket.Acceptor.Service.{
  Event, listening_event, closing_event, accept, opening, running, step, run, run-Sound,
}

-- The calls of `asyncAccept` from outside.
abbrev pub accepts : List Event → List Acceptance
accepts [] = []
accepts (accept mq handler ∷ es) = accepting mq handler ∷ accepts es
accepts (listening_event ∷ es) = accepts es
accepts (closing_event ec ∷ es) = accepts es
accepts (opening con ∷ es) = accepts es
accepts (running transport_ec ∷ es) = accepts es

abbrev looked_up : ErrorCode × Option ℕ → List ℕ → List ℕ
looked_up (success, none) waiting = waiting
looked_up (success, some con) waiting = waiting ++ (con ∷ [])
looked_up (_, con) waiting = waiting

-- Each connection that the server has opened and that could be looked up, those that wait first, with
-- the error code that the transport has for it when the context runs what was posted for it.
abbrev pub arrivals : List Event → List ℕ → List Arrival
arrivals [] waiting = []
arrivals (opening con ∷ es) waiting = arrivals es (looked_up con waiting)
arrivals (running transport_ec ∷ es) [] = arrivals es []
arrivals (running transport_ec ∷ es) (con ∷ cons) = (transport_ec con, some con) ∷ arrivals es cons
arrivals (listening_event ∷ es) waiting = arrivals es waiting
arrivals (closing_event ec ∷ es) waiting = arrivals es waiting
arrivals (accept mq handler ∷ es) waiting = arrivals es waiting

-- With a connection, the call's message queue gets it before the user's handler is told; with an error,
-- the handler is told that only.
abbrev pub answer : Acceptance → Arrival → List Effect
answer (accepting mq handler) (success, con) = connected mq con ∷ called handler success ∷ []
answer (accepting mq handler) (ec, con) = called handler ec ∷ []
answer discarding (success, con) = closed con ∷ []
answer discarding (_, con) = []

abbrev pub answers : List (Acceptance × Arrival) → List Effect
answers [] = []
answers ((a, d) ∷ l) = answer a d ++ answers l

on_arrival-answer : (a : Acceptance) (d : Arrival) → on_arrival a d ≡ answer a d
unfolding on_arrival
on_arrival-answer (accepting mq handler) (success, con) = refl
on_arrival-answer (accepting mq handler) (operation_aborted, con) = refl
on_arrival-answer (accepting mq handler) (message_size, con) = refl
on_arrival-answer (accepting mq handler) (network_down, con) = refl
on_arrival-answer (accepting mq handler) (other n, con) = refl
on_arrival-answer discarding (success, con) = refl
on_arrival-answer discarding (operation_aborted, con) = refl
on_arrival-answer discarding (message_size, con) = refl
on_arrival-answer discarding (network_down, con) = refl
on_arrival-answer discarding (other n, con) = refl

on_arrivals-answers : (l : List (Acceptance × Arrival)) → on_arrivals l ≡ answers l
on_arrivals-answers [] = refl
on_arrivals-answers ((a, d) ∷ l) = ap₂ ◌++◌ (on_arrival-answer a d) (on_arrivals-answers l)

with_queue-some :
    (a a' : Acceptor) (o : Option (Queue Acceptance Arrival))
    → with_queue a o ≡ some a'
    → (q : Queue Acceptance Arrival) × (o ≡ some q) × (record a { m_connection_queue = q } ≡ a')
with_queue-some a a' none e = absurd (none-ne-some e)
with_queue-some a a' (some q) e = (q, refl, some-injective _ a' e)

handle_open-looked_up :
    (con : ErrorCode × Option ℕ) (a a' : Acceptor)
    → handle_open con a ≡ some a'
    → record a { posted = looked_up con a.posted } ≡ a'
unfolding handle_open
handle_open-looked_up (success, none) a a' e = absurd (none-ne-some e)
handle_open-looked_up (success, some con) a a' e = some-injective _ a' e
handle_open-looked_up (operation_aborted, con) a a' e = some-injective _ a' e
handle_open-looked_up (message_size, con) a a' e = some-injective _ a' e
handle_open-looked_up (network_down, con) a a' e = some-injective _ a' e
handle_open-looked_up (other n, con) a a' e = some-injective _ a' e

module _ (again : ℕ → ErrorCode → List (ℕ × ℕ)) (fuel : ℕ) where
  module _ (kind : Acceptance → Bool) where
    abbrev Ties : List Acceptance → List Arrival → Acceptor → Type 0
    Ties hs ds a = Tied (further again) kind hs ds 0 a.m_connection_queue

    abbrev After : List Event → Acceptor → Acceptor → Type 0
    After es a a' =
        (hs : List Acceptance) (ds : List Arrival)
        → Ties hs ds a
        → Ties (hs ++ accepts es) (ds ++ arrivals es a.posted) a'

    accept-After :
        (mq handler : ℕ) (es : List Event) (a a1 a' : Acceptor)
        → async_accept again fuel mq handler a ≡ some a1
        → After es a1 a'
        → After (accept mq handler ∷ es) a a'
    unfolding async_accept
    accept-After mq handler es a a1 a' e rest hs ds t =
        let (q, done, same) = with_queue-some a a1 _ e in
        subst (λ l. Ties l (ds ++ arrivals es a.posted) a')
          (append_assoc hs (accepting mq handler ∷ []) (accepts es))
          (subst (λ r. After es r a') (sym same) rest (hs ++ (accepting mq handler ∷ [])) ds
            (consume-Tied (further again) kind hs ds (react again) (react-further again) fuel
              (accepting mq handler) a.m_connection_queue q t done))

    deliver-After :
        (transport_ec : ℕ → ErrorCode) (cons : List ℕ) (es : List Event) (a a1 a' : Acceptor)
        → a.posted ≡ cons
        → deliver again fuel transport_ec cons a ≡ some a1
        → After es a1 a'
        → (hs : List Acceptance) (ds : List Arrival) → Ties hs ds a
        → Ties (hs ++ accepts es) (ds ++ arrivals (running transport_ec ∷ es) cons) a'
    deliver-After transport_ec [] es a a1 a' posted e rest hs ds t =
        subst (λ l. Ties (hs ++ accepts es) (ds ++ arrivals es l) a') posted
          (subst (λ r. After es r a') (sym (some-injective a a1 e)) rest hs ds t)
    deliver-After transport_ec (con ∷ cons) es a a1 a' posted e rest hs ds t =
        let d : Arrival = (transport_ec con, some con) in
        let (q, done, same) =
          with_queue-some (record a { posted = cons; cleared = a.cleared ++ (con ∷ []) }) a1 _ e in
        subst (λ l. Ties (hs ++ accepts es) l a') (append_assoc ds (d ∷ []) (arrivals es cons))
          (subst (λ r. After es r a') (sym same) rest hs (ds ++ (d ∷ []))
            (produce-Tied (further again) kind hs ds (react again) (react-further again) fuel d
              a.m_connection_queue q t done))

    run-After :
        (es : List Event) (a a' : Acceptor)
        → NotClosed es
        → run again fuel es a ≡ some a'
        → After es a a'
    unfolding run step async_accept run_posted
    run-After [] a a' no_close e = λ hs ds t.
        subst (λ r. Ties (hs ++ []) (ds ++ []) r) (some-injective a a' e)
          (subst (λ l. Ties l (ds ++ []) a) (sym (append-nil hs))
            (subst (λ l. Ties hs l a) (sym (append-nil ds)) t))
    run-After (closing_event ec ∷ es) a a' no_close e = absurd no_close
    run-After (listening_event ∷ es) a a' no_close e = run-After es (listen a) a' no_close e
    run-After (accept mq handler ∷ es) a a' no_close e =
        let (a1, first, rest) =
          some-inv (async_accept again fuel mq handler a) (run again fuel es) e in
        accept-After mq handler es a a1 a' first (run-After es a1 a' no_close rest)
    run-After (opening con ∷ es) a a' no_close e =
        let (a1, first, rest) = some-inv (handle_open con a) (run again fuel es) e in
        subst (λ r. After es r a') (sym (handle_open-looked_up con a a1 first))
          (run-After es a1 a' no_close rest)
    run-After (running transport_ec ∷ es) a a' no_close e =
        let (a1, first, rest) =
          some-inv (deliver again fuel transport_ec a.posted a) (run again fuel es) e in
        deliver-After transport_ec a.posted es a a1 a' refl first (run-After es a1 a' no_close rest)

  -- What has been done is the answers of some askers to the arrivals.
  Answered : List Event → Acceptor → Type 0
  Answered es a =
      (askers : List Acceptance) × (effects a ≡ answers (pairs askers (arrivals es [])))
      × IsPart (accepts es) askers
      × ((kind : Acceptance → Bool)
          → how_many kind askers
            ≡ how_many kind (accepts es)
              + asked (further again) kind (pairs askers (arrivals es [])))

  run-Answered :
      (es : List Event) (a : Acceptor)
      → NotClosed es
      → run again fuel es initial ≡ some a
      → Answered es a
  unfolding Answered ProducerConsumer.empty
  run-Answered es a no_close e =
      let q = a.m_connection_queue in
      let matched =
        invoked-pairs q (run-Sound again fuel es initial a empty-Served e)
        ∙ ap (pairs q.consumed) ((start (λ h. true)).1) in
      (
        q.consumed,
        on_arrivals-answers q.invoked ∙ ap answers matched,
        (start (λ h. true)).2,
        λ kind. omega (arith, (start kind).0, ap (asked (further again) kind) matched),
      )
    where
      start : (kind : Acceptance → Bool) → Ties kind (accepts es) (arrivals es []) a
      start kind = run-After kind es initial a no_close e [] [] (omega arith, refl, nothing)

  -- After any events from a new acceptor, without a call of `close` and with a connection wherever the
  -- server looks one up without an error, whatever the users' handlers accept again: more fuel than
  -- events is enough, and what has been done is the answers of some askers, the n-th to the n-th arrival,
  -- for as many as there are of both. The arrivals are the connections that were opened without an error,
  -- in order, each with the transport's error code from when it was run. The askers are the calls of
  -- `asyncAccept` from outside, in order, with further ones among them, and of each kind as many further
  -- ones as the handlers that were answered have asked for.
  pub effects_from_events :
      (es : List Event)
      → NotClosed es
      → AllFound es
      → length es < fuel
      → (a : Acceptor) × (run again fuel es initial ≡ some a)
        × (askers : List Acceptance) × (effects a ≡ answers (pairs askers (arrivals es [])))
        × IsPart (accepts es) askers
        × ((kind : Acceptance → Bool)
            → how_many kind askers
              ≡ how_many kind (accepts es)
                + asked (further again) kind (pairs askers (arrivals es [])))
  unfolding Answered ProducerConsumer.empty
  effects_from_events es no_close found enough =
      let (a, e) = run_ends again fuel es initial no_close found (omega arith) in
      let (askers, done, part, counted) = run-Answered es a no_close e in
      (a, e, askers, done, part, counted)
