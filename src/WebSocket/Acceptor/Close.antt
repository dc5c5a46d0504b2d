-- ===== src/WebSocket/Acceptor/Close.antt =====
-- `close` of `AcceptorImpl`, where no user's handler accepts again.
use mathlib.Core.List.{append_assoc, append-nil}
use cxx_util.Prelude.{
  ℕ, suc, ◌+◌, ◌^◌, ◌<◌, ◌≡◌, ◌⊎◌, inl, inr, refl, sym, ap, ◌∙◌, arith, false, List, [], ◌∷◌, ◌++◌,
  map, none, some, length, if◌then◌else◌,
}
use mathlib.Core.Path.{fun_ext}
use cxx_util.ProducerConsumer.{Queue}
use cxx_util.ProducerConsumer.Quiet.{quiet}
use cxx_util.ProducerConsumer.Closing.{
  queue_of, abort_demand, discard_supply, abort_demand_waiting, discard_supply_waiting,
  abort_demand_none, discard_supply_none,
}
use cxx_util.WebSocket.ErrorCode.{ErrorCode, operation_aborted, is_error}
use cxx_util.WebSocket.Acceptor.{
  Acceptance, accepting, discarding, Arrival, Effect, called, closed, on_arrival, on_arrivals,
  Acceptor, effects, react, drain, close,
}

abbrev pub never : ℕ → ErrorCode → List (ℕ × ℕ)
never handler ec = []

quiet-react : react never ≡ quiet
quiet-react = fun_ext (λ (a : Acceptance). fun_ext (λ (d : Arrival). by_acceptance a d))
  where
    by_acceptance : (a : Acceptance) (d : Arrival) → react never a d ≡ []
    by_acceptance (accepting mq handler) (ec, con) = refl
    by_acceptance discarding (ec, con) = refl

-- The calls of `asyncAccept` that wait, each with its message queue and handler.
abbrev pub waiting : List (ℕ × ℕ) → List Acceptance
waiting [] = []
waiting ((mq, handler) ∷ ws) = accepting mq handler ∷ waiting ws

abbrev pub aborted_calls : List (ℕ × ℕ) → List Effect
aborted_calls [] = []
aborted_calls ((mq, handler) ∷ ws) = called handler operation_aborted ∷ aborted_calls ws

-- The connections that came without an error are closed.
abbrev pub closings : List Arrival → List Effect
closings [] = []
closings ((ec, con) ∷ ds) = (if is_error ec then [] else closed con ∷ []) ++ closings ds

on_arrivals-append :
    (l l' : List (Acceptance × Arrival)) → on_arrivals (l ++ l') ≡ on_arrivals l ++ on_arrivals l'
on_arrivals-append [] l' = refl
on_arrivals-append ((a, d) ∷ l) l' =
    ap (λ m. on_arrival a d ++ m) (on_arrivals-append l l')
    ∙ sym (append_assoc (on_arrival a d) (on_arrivals l) (on_arrivals l'))

on_arrivals-aborted :
    (ws : List (ℕ × ℕ))
    → on_arrivals (map (λ h. (h, (operation_aborted, none))) (waiting ws)) ≡ aborted_calls ws
unfolding on_arrival
on_arrivals-aborted [] = refl
on_arrivals-aborted ((mq, handler) ∷ ws) =
    ap (λ l. called handler operation_aborted ∷ l) (on_arrivals-aborted ws)

on_arrivals-discarded :
    (ds : List Arrival) → on_arrivals (map (λ d. (discarding, d)) ds) ≡ closings ds
unfolding on_arrival
on_arrivals-discarded [] = refl
on_arrivals-discarded ((ec, con) ∷ ds) =
    ap (λ l. (if is_error ec then [] else closed con ∷ []) ++ l) (on_arrivals-discarded ds)

length-waiting : (ws : List (ℕ × ℕ)) → length (waiting ws) ≡ length ws
length-waiting [] = refl
length-waiting ((mq, handler) ∷ ws) = ap suc (length-waiting ws)

module _ (fuel : ℕ) (ec : ErrorCode) where
  drained :
      (q : Queue Acceptance Arrival) {q1 q2 : Queue Acceptance Arrival}
      → abort_demand quiet fuel fuel (operation_aborted, none) q ≡ some q1
      → discard_supply quiet fuel fuel discarding q1 ≡ some q2
      → drain never fuel q ≡ some q2
  unfolding drain
  drained q {q1} e f =
      rw (ap (λ r. abort_demand r fuel fuel (operation_aborted, none) q) quiet-react ∙ e, drain)
        (ap (λ r. discard_supply r fuel fuel discarding q1) quiet-react ∙ f)

  -- What `close` leaves: nothing waits, the server does not listen, and `es` has been done.
  abbrev pub Closes : List Effect → Acceptor → Type 0
  Closes es a =
      (a' : Acceptor) × (close never fuel ec a ≡ some (ec, a'))
      × (a'.m_connection_queue.m_handlers ≡ [])
      × (a'.m_connection_queue.m_data ≡ [])
      × (a'.listening ≡ false)
      × (effects a' ≡ effects a ++ es)

  Closes-by :
      (a : Acceptor) (log l : List (Acceptance × Arrival)) (q : Queue Acceptance Arrival)
      (cs : List Acceptance) (ps : List Arrival) (es : List Effect)
      → a.m_connection_queue ≡ q
      → q.invoked ≡ log
      → drain never fuel q ≡ some (queue_of [] [] (log ++ l) cs ps)
      → on_arrivals l ≡ es
      → Closes es a
  unfolding close
  Closes-by a log l q cs ps es eq elog d e = (
    record a { listening = false; m_connection_queue = queue_of [] [] (log ++ l) cs ps },
    rw (eq, d, close) refl,
    refl,
    refl,
    refl,
    on_arrivals-append log l
        ∙ ap (λ m. m ++ on_arrivals l) (ap on_arrivals (sym elog ∙ ap (λ r. r.invoked) (sym eq)))
        ∙ ap (λ m. effects a ++ m) e,
  )

-- Where no user's handler accepts again, `close` ends, with fuel for more than one round besides those
-- for each waiting call of `asyncAccept` or waiting arrival, of which there are not both, and fewer
-- than 2 ^ 31: nothing waits any more, the server does not listen and its error code is given, the
-- handlers of the calls that waited were called with `operation_aborted`, in order, or the connections
-- that had come without an error were closed, and nothing else was done.
pub close_ends :
    (fuel : ℕ) (ec : ErrorCode) (a : Acceptor) (ws : List (ℕ × ℕ)) (ds : List Arrival)
    (log : List (Acceptance × Arrival)) (cs : List Acceptance) (ps : List Arrival)
    → a.m_connection_queue ≡ queue_of (waiting ws) ds log cs ps
    → (ws ≡ []) ⊎ (ds ≡ [])
    → length ws + length ds < 2 ^ 31
    → length ws + length ds + 1 < suc fuel
    → Closes (suc fuel) ec (aborted_calls ws ++ closings ds) a
close_ends fuel ec a [] ds log cs ps e i k l =
    Closes-by (suc fuel) ec a log (map (λ d. (discarding, d)) ds) (queue_of [] ds log cs ps)
      (cs ++ map (λ _. discarding) ds) ps (closings ds) e refl
      (drained (suc fuel) ec (queue_of [] ds log cs ps)
        (abort_demand_none fuel (suc fuel) (operation_aborted, none) ds log cs ps (omega arith))
        (discard_supply_waiting (suc fuel) (suc fuel) discarding ds log cs ps (omega arith)
          (omega arith) (omega arith)))
      (on_arrivals-discarded ds)
close_ends fuel ec a (w ∷ ws) [] log cs ps e i k l =
    Closes-by (suc fuel) ec a log (map (λ h. (h, aborted)) hs) (queue_of hs [] log cs ps) cs
      (ps ++ map (λ _. aborted) hs) (aborted_calls (w ∷ ws) ++ []) e refl
      (drained (suc fuel) ec (queue_of hs [] log cs ps)
        (abort_demand_waiting (suc fuel) (suc fuel) aborted hs log cs ps
          (omega (arith, length-waiting (w ∷ ws))) (omega (arith, length-waiting (w ∷ ws)))
          (omega (arith, length-waiting (w ∷ ws))))
        (discard_supply_none fuel (suc fuel) discarding (log ++ map (λ h. (h, aborted)) hs) cs
          (ps ++ map (λ _. aborted) hs)))
      (on_arrivals-aborted (w ∷ ws) ∙ sym (append-nil (aborted_calls (w ∷ ws))))
  where
    hs : List Acceptance
    hs = waiting (w ∷ ws)

    aborted : Arrival
    aborted = (operation_aborted, none)
close_ends fuel ec a (w ∷ ws) (d ∷ ds) log cs ps e i k l = elim i [
  | inl f ↦ absurd (cc)
  | inr f ↦ absurd (cc)
]
