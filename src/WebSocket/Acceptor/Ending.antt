-- ===== src/WebSocket/Acceptor/Ending.antt =====
-- Where `AcceptorImpl` ends its steps: without `close`, with fuel for each connection that comes.
use cxx_util.Prelude.{
  ℕ, ◌+◌, ◌<◌, ◌≤◌, ◌≡◌, refl, ap, arith, List, [], ◌∷◌, ◌++◌, map, Option, none, some, length,
  length-append,
}
use cxx_util.ProducerConsumer.{Call, consuming}
use cxx_util.ProducerConsumer.Enough.{consume-Ends, produce-Ends}
use cxx_util.WebSocket.ErrorCode.{
  ErrorCode, success, operation_aborted, message_size, network_down, other,
}
use cxx_util.WebSocket.Acceptor.{
  Acceptance, accepting, discarding, Arrival, Acceptor, with_queue, listen, handle_open, react,
  async_accept, deliver, run_posted,
}
use cxx_util.WebSocket.Acceptor.Service.{
  Event, listening_event, closing_event, accept, opening, running, step, run,
}

abbrev pub NotClosed : List Event → Type 0
NotClosed [] = Unit {0}
NotClosed (closing_event ec ∷ es) = ⊥
NotClosed (listening_event ∷ es) = NotClosed es
NotClosed (accept mq handler ∷ es) = NotClosed es
NotClosed (opening con ∷ es) = NotClosed es
NotClosed (running transport_ec ∷ es) = NotClosed es

-- Where the server looks a connection up without an error, there is one.
abbrev pub AllFound : List Event → Type 0
AllFound [] = Unit {0}
AllFound (opening (success, none) ∷ es) = ⊥
AllFound (_ ∷ es) = AllFound es

-- The further calls of `asyncAccept` that the user's handler makes.
abbrev pub further : (ℕ → ErrorCode → List (ℕ × ℕ)) → Acceptance → Arrival → List Acceptance
further again (accepting mq handler) (ec, con) = map (λ p. accepting p.0 p.1) (again handler ec)
further again discarding d = []

module _ (again : ℕ → ErrorCode → List (ℕ × ℕ)) where
  pub react-further :
      (a : Acceptance) (d : Arrival) → react again a d ≡ map consuming (further again a d)
  react-further (accepting mq handler) (ec, con) = through (again handler ec)
    where
      through :
          (l : List (ℕ × ℕ))
          → map {B = Call Acceptance Arrival} (λ p. consuming (accepting p.0 p.1)) l
            ≡ map consuming (map {B = Acceptance} (λ p. accepting p.0 p.1) l)
      through [] = refl
      through (p ∷ l) = ap (◌∷◌ (consuming (accepting p.0 p.1))) (through l)
  react-further discarding d = refl

  -- What waits, as a connection or as its arrival.
  abbrev load : Acceptor → ℕ
  load a = length a.m_connection_queue.m_data + length a.posted

  -- A step that has a result, with at most `bound` waiting.
  abbrev Ends : ℕ → Option Acceptor → Type 0
  Ends bound o = (a : Acceptor) × (o ≡ some a) × (load a ≤ bound)

  module _ (fuel : ℕ) where
    accept-Ends :
        (mq handler : ℕ) (a : Acceptor)
        → load a < fuel
        → Ends (load a) (async_accept again fuel mq handler a)
    unfolding async_accept
    accept-Ends mq handler a h =
        let (q, e, l) =
          consume-Ends (further again) (react again) react-further fuel (accepting mq handler)
            a.m_connection_queue (omega arith) in
        (record a { m_connection_queue = q }, rw (e, with_queue) refl, omega arith)

    open-Ends :
        (con : ErrorCode × Option ℕ) (es : List Event) (a : Acceptor)
        → AllFound (opening con ∷ es)
        → Ends (load a + 1) (handle_open con a) × AllFound es
    unfolding handle_open
    open-Ends (success, none) es a f = absurd f
    open-Ends (success, some con) es a f = (
      (
        record a { posted = a.posted ++ (con ∷ []) },
        refl,
        omega (arith, length-append a.posted (con ∷ [])),
      ),
      f,
    )
    open-Ends (operation_aborted, con) es a f = ((a, refl, omega arith), f)
    open-Ends (message_size, con) es a f = ((a, refl, omega arith), f)
    open-Ends (network_down, con) es a f = ((a, refl, omega arith), f)
    open-Ends (other n, con) es a f = ((a, refl, omega arith), f)

    deliver-Ends :
        (transport_ec : ℕ → ErrorCode) (cons : List ℕ) (a : Acceptor)
        → a.posted ≡ cons
        → load a < fuel
        → Ends (load a) (deliver again fuel transport_ec cons a)
    deliver-Ends transport_ec [] a e h = (a, refl, omega arith)
    deliver-Ends transport_ec (con ∷ cons) a e h =
        let (q, f, l) =
          produce-Ends (further again) (react again) react-further fuel (transport_ec con, some con)
            a.m_connection_queue (omega (arith, ap length e)) in
        (
          record a { m_connection_queue = q; posted = cons; cleared = a.cleared ++ (con ∷ []) },
          rw (f, with_queue) refl,
          omega (arith, ap length e),
        )

    -- Fuel for what waits and for each event is enough.
    pub run_ends :
        (es : List Event) (a : Acceptor)
        → NotClosed es
        → AllFound es
        → load a + length es < fuel
        → (a' : Acceptor) × (run again fuel es a ≡ some a')
    unfolding run step run_posted
    run_ends [] a n f h = (a, refl)
    run_ends (closing_event ec ∷ es) a n f h = absurd n
    run_ends (listening_event ∷ es) a n f h = run_ends es (listen a) n f (omega arith)
    run_ends (accept mq handler ∷ es) a n f h =
        let (a1, e, l) = accept-Ends mq handler a (omega arith) in
        let (a', r) = run_ends es a1 n f (omega arith) in (a', rw (e, run, step) r)
    run_ends (opening con ∷ es) a n f h =
        let ((a1, e, l), g) = open-Ends con es a f in
        let (a', r) = run_ends es a1 n g (omega arith) in (a', rw (e, run, step) r)
    run_ends (running transport_ec ∷ es) a n f h =
        let (a1, e, l) = deliver-Ends transport_ec a.posted a refl (omega arith) in
        let (a', r) = run_ends es a1 n f (omega arith) in (a', rw (e, run, step, run_posted) r)
