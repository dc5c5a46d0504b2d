-- ===== src/WebSocket/Acceptor/Service.antt =====
-- Runs of an acceptor, as its users and its server call it.
use cxx_util.Prelude.{
  ℕ, ◌≡◌, refl, sym, ◌∙◌, Bool, true, false, List, [], ◌∷◌, ◌++◌, Option, none, some, some-inv,
  none-ne-some, some-injective, subst, if◌then◌else◌,
}
use cxx_util.ProducerConsumer.{Queue}
use cxx_util.ProducerConsumer.Closing.{abort_demand, discard_supply}
use cxx_util.ProducerConsumer.Served.{
  Served, consume-Served, produce-Served, abort_demand-Served, discard_supply-Served,
}
use cxx_util.WebSocket.ErrorCode.{ErrorCode, operation_aborted, is_error}
use cxx_util.WebSocket.Acceptor.{
  Acceptance, accepting, discarding, Arrival, Acceptor, with_queue, reported, listen, handle_open,
  react, async_accept, deliver, run_posted, drain, close,
}

-- A call of a member, or the run of what one has posted, with what the server reports.
pub data Event : Type 0 where
  listening_event : Event
  closing_event : ErrorCode → Event
  accept : ℕ → ℕ → Event
  opening : ErrorCode × Option ℕ → Event
  running : (ℕ → ErrorCode) → Event

abbrev state_of : Option (ErrorCode × Acceptor) → Option Acceptor
state_of none = none
state_of (some r) = some r.1

state_of-reported : (ec : ErrorCode) (o : Option Acceptor) → state_of (reported ec o) ≡ o
state_of-reported ec none = refl
state_of-reported ec (some a) = refl

module _ (again : ℕ → ErrorCode → List (ℕ × ℕ)) (fuel : ℕ) where
  unfoldable pub step : Event → Acceptor → Option Acceptor
  step listening_event a = some (listen a)
  step (closing_event ec) a = state_of (close again fuel ec a)
  step (accept mq handler) a = async_accept again fuel mq handler a
  step (opening con) a = handle_open con a
  step (running transport_ec) a = run_posted again fuel transport_ec a

  unfoldable pub run : List Event → Acceptor → Option Acceptor
  run [] a = some a
  run (e ∷ es) a = elim (step e a) [ none ↦ none | some a' ↦ run es a' ]

  abbrev Sound : Acceptor → Type 0
  Sound a = Served a.m_connection_queue

  with_queue-Sound :
      (a a' : Acceptor) (o : Option (Queue Acceptance Arrival))
      → ((q : Queue Acceptance Arrival) → o ≡ some q → Served q)
      → with_queue a o ≡ some a'
      → Sound a'
  with_queue-Sound a a' none h e = absurd (none-ne-some e)
  with_queue-Sound a a' (some q) h e = subst Sound (some-injective _ a' e) (h q refl)

  deliver-Sound :
      (transport_ec : ℕ → ErrorCode) (cons : List ℕ) (a a' : Acceptor)
      → Sound a
      → deliver again fuel transport_ec cons a ≡ some a'
      → Sound a'
  deliver-Sound transport_ec [] a a' v e = subst Sound (some-injective a a' e) v
  deliver-Sound transport_ec (con ∷ cons) a a' v e =
      with_queue-Sound (record a { posted = cons; cleared = a.cleared ++ (con ∷ []) }) a' _
        (λ q f.
          produce-Served (react again) fuel (transport_ec con, some con) a.m_connection_queue q v f)
        e

  handle_open-Sound :
      (ec : ErrorCode) (con : Option ℕ) (a a' : Acceptor)
      → Sound a
      → handle_open (ec, con) a ≡ some a'
      → Sound a'
  unfolding handle_open
  handle_open-Sound ec con a a' v e = cases (is_error ec) con e
    where
      cases :
          (b : Bool) (o : Option ℕ)
          → (if b then some a else elim o [
            | none ↦ none
            | some c ↦ some (record a { posted = a.posted ++ (c ∷ []) })
          ])
            ≡ some a'
          → Sound a'
      cases true o f = subst Sound (some-injective a a' f) v
      cases false none f = absurd (none-ne-some f)
      cases false (some c) f =
          subst Sound (some-injective (record a { posted = a.posted ++ (c ∷ []) }) a' f) v

  drain-Served :
      (q q' : Queue Acceptance Arrival) → Served q → drain again fuel q ≡ some q' → Served q'
  unfolding drain
  drain-Served q q' v e =
      let (q1, first, rest) =
        some-inv (abort_demand (react again) fuel fuel (operation_aborted, none) q)
          (discard_supply (react again) fuel fuel discarding) e in
      discard_supply-Served (react again) fuel fuel discarding q1 q'
        (abort_demand-Served (react again) fuel fuel (operation_aborted, none) q q1 v first) rest

  step-Sound : (ev : Event) (a a' : Acceptor) → Sound a → step ev a ≡ some a' → Sound a'
  unfolding step close async_accept run_posted
  step-Sound listening_event a a' v e = subst Sound (some-injective (listen a) a' e) v
  step-Sound (closing_event ec) a a' v e =
      with_queue-Sound (record a { listening = false }) a' _
        (λ q f. drain-Served a.m_connection_queue q v f) (sym (state_of-reported ec _) ∙ e)
  step-Sound (accept mq handler) a a' v e =
      with_queue-Sound a a' _
        (λ q f. consume-Served (react again) fuel (accepting mq handler) a.m_connection_queue q v f)
        e
  step-Sound (opening (ec, con)) a a' v e = handle_open-Sound ec con a a' v e
  step-Sound (running transport_ec) a a' v e = deliver-Sound transport_ec a.posted a a' v e

  pub run-Sound : (es : List Event) (a a' : Acceptor) → Sound a → run es a ≡ some a' → Sound a'
  unfolding run
  run-Sound [] a a' v e = subst Sound (some-injective a a' e) v
  run-Sound (ev ∷ es) a a' v e =
      let (a1, first, rest) = some-inv (step ev a) (run es) e in
      run-Sound es a1 a' (step-Sound ev a a1 v first) rest
