-- ===== src/WebSocket/Connector/Once.antt =====
-- How often a connector calls the handlers that it was given.
use cxx_util.Prelude.{ℕ, ◌+◌, ◌≡◌, ap, arith, List, some}
use cxx_util.WebSocket.ErrorCode.{ErrorCode}
use cxx_util.WebSocket.Connector.{Request, Connector, initial}
use cxx_util.Prelude.Count.{count}
use cxx_util.WebSocket.Connector.Runs.{Event, run, IsKept, run-kept, Requests-any}
use cxx_util.WebSocket.Connector.Balance.{
  Owes, count_called, count_nascent, count_posted, async_connect-Owes, closing-Owes,
  run_closing-Owes, run_connecting-Owes, handle_open_or_fail-Owes,
}

module _ (again : ℕ → ErrorCode → List Request) where
  Owes-IsKept : (x : ℕ) → IsKept again (Owes x 0) (λ r. Unit {0})
  unfolding Owes count_posted
  Owes-IsKept x = record {
    requested = λ r c q o. async_connect-Owes x 0 r c o;
    closed = λ c o. closing-Owes x 0 c o;
    connected = λ con ec r ts c c' p o e.
        run_connecting-Owes x again 0 con ec r (record c { posted = ts }) c'
          (omega (arith, o, ap (count_posted x) p)) e;
    ended = λ ts c p o.
        run_closing-Owes x again 0 (record c { posted = ts })
          (omega (arith, o, ap (count_posted x) p));
    cleared = λ d ts c p o. omega (arith, o, ap (count_posted x) p);
    answered = λ con ec c o. handle_open_or_fail-Owes x again 0 con ec c o;
  }

  -- After any events from a new connector without a failed assertion, whatever the users' handlers
  -- request: for each handler, its calls so far, its nascent connections and its requests that are
  -- still posted are as many as the calls of `asyncConnect` with it.
  pub called_as_requested :
      (es : List Event) (x : ℕ) {c : Connector}
      → run again es initial ≡ some c
      → count_called x c.effects + count_nascent x c.m_nascent_connections + count_posted x c.posted
        ≡ count x c.requested
  unfolding Owes count_called count_nascent count_posted count
  called_as_requested es x {c} e =
      omega (arith, run-kept again (Owes-IsKept x) es initial c (Requests-any es) (omega arith) e)
