-- ===== src/WebSocket/Connector/Connected.antt =====
-- Which message queues a connector has handed a connection when it calls a handler.
use cxx_util.Prelude.{
  ℕ, ◌≡◌, refl, ap, ◌∙◌, Bool, true, false, List, [], ◌∷◌, ◌++◌, map, Option, none, some, some-inv,
  some-injective, subst, ◌⊎◌, inl, inr, if◌then◌else◌,
}
use cxx_util.WebSocket.ErrorCode.{ErrorCode, operation_aborted, is_error}
use cxx_util.WebSocket.Connector.{
  Request, NascentConnection, connecting, closing, clearing, connect, connection_set,
  connection_closed, called, Nascent, Connector, initial, insert, find, erase, async_connect,
  call_handler, run_connecting, close_all, run_closing, handle_open_or_fail,
}
use cxx_util.WebSocket.Connector.Runs.{Event, Requests, run, IsKept, run-kept}
use cxx_util.WebSocket.Connector.Fit.{
  last_of, last-snoc, IsFit, FitTasks, FitRequests, FitNascent, Given, Connected, Connected-append,
  FitTasks-append, FitTasks-connecting, find-Fit, erase-Fit, insert-Fit,
}

-- The message queue of each handler.
module _ (queue_of : ℕ → ℕ) where
  abbrev IsSound : Connector → Type 0
  IsSound c =
      FitNascent queue_of c.m_nascent_connections
      × FitTasks queue_of c.posted
      × Connected queue_of none c.effects

  abbrev AgainFits : (ℕ → ErrorCode → List Request) → Type 0
  AgainFits again = (h : ℕ) (ec : ErrorCode) → FitRequests queue_of (again h ec)

  module _ (again : ℕ → ErrorCode → List Request) (fits : AgainFits again) where
    call_handler-IsSound :
        (h : ℕ) (ec : ErrorCode) (c : Connector)
        → (is_error ec ≡ true) ⊎ Given queue_of (queue_of h) (last_of none c.effects)
        → IsSound c
        → IsSound (call_handler again h ec c)
    unfolding call_handler
    call_handler-IsSound h ec c g (m, t, e) = (
      m,
      FitTasks-append queue_of c.posted (map connecting (again h ec)) t
          (FitTasks-connecting queue_of (again h ec) (fits h ec)),
      Connected-append queue_of none c.effects (called h ec ∷ []) e (g, tt),
    )

    close_all-IsSound : (m : Nascent) (c : Connector) → IsSound c → IsSound (close_all again m c)
    unfolding close_all
    close_all-IsSound [] c s = s
    close_all-IsSound ((con, n) ∷ m) c (f, t, e) = close_all-IsSound m _ (
        call_handler-IsSound n.handler operation_aborted _ (inl refl)
          (f, t, Connected-append queue_of none c.effects (connection_closed con ∷ []) e tt))

    handle_open_or_fail-IsSound :
        (con : ℕ) (ec : ErrorCode) (c : Connector)
        → IsSound c
        → IsSound (handle_open_or_fail again con ec c)
    unfolding handle_open_or_fail
    handle_open_or_fail-IsSound con ec c (f, t, e) =
        by_entry (find con c.m_nascent_connections)
          (λ n. find-Fit queue_of con c.m_nascent_connections n f)
      where
        entry : NascentConnection → Connector
        entry n = call_handler again n.handler ec (record c {
          m_nascent_connections = erase con c.m_nascent_connections;
          posted = c.posted ++ (clearing con ∷ []);
          effects = c.effects ++ (connection_set n.mq con ∷ []);
        })

        by_entry :
            (o : Option NascentConnection)
            → ((n : NascentConnection) → o ≡ some n → n.mq ≡ queue_of n.handler)
            → IsSound (elim o as (λ x. Connector) [ none ↦ c | some n ↦ entry n ])
        by_entry none k = (f, t, e)
        by_entry (some n) k =
            call_handler-IsSound n.handler ec _
              (inr (
                con,
                last-snoc none c.effects (connection_set n.mq con)
                    ∙ ap (λ q. some (connection_set q con)) (k n refl),
              ))
              (
                erase-Fit queue_of con c.m_nascent_connections f,
                FitTasks-append queue_of c.posted (clearing con ∷ []) t tt,
                Connected-append queue_of none c.effects (connection_set n.mq con ∷ []) e tt,
              )

    run_connecting-IsSound :
        (con : ℕ) (ec : ErrorCode) (r : Request) (c c' : Connector)
        → IsFit queue_of r
        → IsSound c
        → run_connecting again (ec, con) r c ≡ some c'
        → IsSound c'
    unfolding run_connecting
    run_connecting-IsSound con ec r c c' f s e = cases (is_error ec) refl e
      where
        n : NascentConnection
        n = record { handler = r.request_handler; mq = r.request_mq }

        cases :
            (b : Bool)
            → is_error ec ≡ b
            → (if b
                then some (call_handler again r.request_handler ec c)
                else elim (insert con n c.m_nascent_connections) [
                  | none ↦ none
                  | some m ↦ some (record c {
                    m_nascent_connections = m;
                    effects = c.effects ++ (connect con ∷ []);
                  })
                ])
              ≡ some c'
            → IsSound c'
        cases true u q =
            subst IsSound (some-injective _ c' q)
              (call_handler-IsSound r.request_handler ec c (inl u) s)
        cases false u q =
            let (m, g, l) =
              some-inv (insert con n c.m_nascent_connections)
                (λ m. some (record c {
                  m_nascent_connections = m;
                  effects = c.effects ++ (connect con ∷ []);
                }))
                q in
            subst IsSound (some-injective _ c' l) (
              insert-Fit queue_of con n c.m_nascent_connections m f s.0 g,
              s.1,
              Connected-append queue_of none c.effects (connect con ∷ []) s.2 tt,
            )

    IsSound-IsKept : IsKept again IsSound (IsFit queue_of)
    unfolding async_connect run_closing
    IsSound-IsKept = record {
      requested =
          λ r c q s. (s.0, FitTasks-append queue_of c.posted (connecting r ∷ []) s.1 (q, tt), s.2);
      closed = λ c s. (s.0, FitTasks-append queue_of c.posted (closing ∷ []) s.1 tt, s.2);
      connected = λ con ec r ts c c' p s e.
          let t = subst (FitTasks queue_of) p s.1 in
          run_connecting-IsSound con ec r (record c { posted = ts }) c' t.0 (s.0, t.1, s.2) e;
      ended = λ ts c p s.
          let k =
            close_all-IsSound c.m_nascent_connections (record c { posted = ts })
              (s.0, subst (FitTasks queue_of) p s.1, s.2) in
          (tt, k.1, k.2);
      cleared = λ d ts c p s. (s.0, subst (FitTasks queue_of) p s.1, s.2);
      answered = handle_open_or_fail-IsSound;
    }

    -- After any events from a new connector without a failed assertion, where each handler is always
    -- given together with one and the same message queue, by the users and by the handlers that connect
    -- again: each call of a handler without an error comes next after its message queue got a connection.
    pub called-Connected :
        (es : List Event) {c : Connector}
        → Requests (IsFit queue_of) es
        → run again es initial ≡ some c
        → Connected queue_of none c.effects
    called-Connected es {c} q e = (run-kept again IsSound-IsKept es initial c q (tt, tt, tt) e).2
