-- ===== src/WebSocket/Connector/Runs.antt =====
-- Runs of a connector, as its users, its client and the context call it, and what every run keeps.
use cxx_util.Prelude.{
  ℕ, ◌≡◌, refl, ◌++◌, Bool, true, false, List, [], ◌∷◌, Option, none, some, some-inv, none-ne-some,
  some-injective, subst, if◌then◌else◌,
}
use cxx_util.WebSocket.ErrorCode.{ErrorCode, is_error}
use cxx_util.WebSocket.Connector.{
  Request, Task, connecting, closing, clearing, Connector, async_connect, close, run_task,
  run_posted, run_connecting, run_closing, handle_open, handle_fail, handle_open_or_fail,
  failure_code,
}

-- A call of a member, a call of the client's handlers, or the run of what was posted first, with what
-- the client reports.
pub data Event : Type 0 where
  requesting : Request → Event
  closing_event : Event
  running : ErrorCode × ℕ → Event
  opened : ErrorCode × Option ℕ → Event
  failed : (ℕ → ErrorCode) → ErrorCode × Option ℕ → Event

-- Each request of the users is of a kind.
abbrev pub Requests : (Request → Type 0) → List Event → Type 0
Requests R [] = Unit {0}
Requests R (requesting r ∷ es) = R r × Requests R es
Requests R (closing_event ∷ es) = Requests R es
Requests R (running got ∷ es) = Requests R es
Requests R (opened got ∷ es) = Requests R es
Requests R (failed transport_ec got ∷ es) = Requests R es

pub Requests-any : (es : List Event) → Requests (λ r. Unit {0}) es
Requests-any [] = tt
Requests-any (requesting r ∷ es) = (tt, Requests-any es)
Requests-any (closing_event ∷ es) = Requests-any es
Requests-any (running got ∷ es) = Requests-any es
Requests-any (opened got ∷ es) = Requests-any es
Requests-any (failed transport_ec got ∷ es) = Requests-any es

module _ (again : ℕ → ErrorCode → List Request) where
  unfoldable pub step : Event → Connector → Option Connector
  step (requesting r) c = some (async_connect r c)
  step closing_event c = some (close c).1
  step (running got) c = run_posted again got c.posted c
  step (opened got) c = handle_open again got c
  step (failed transport_ec got) c = handle_fail again transport_ec got c

  unfoldable pub run : List Event → Connector → Option Connector
  run [] c = some c
  run (e ∷ es) c = elim (step e c) [ none ↦ none | some c' ↦ run es c' ]

  -- What the members and the tasks keep, whatever the client reports.
  pub record IsKept (P : Connector → Type 0) (R : Request → Type 0) : Type 0 where
    pub requested : (r : Request) (c : Connector) → R r → P c → P (async_connect r c)
    pub closed : (c : Connector) → P c → P (close c).1
    pub connected :
        (con : ℕ) (ec : ErrorCode) (r : Request) (ts : List Task) (c c' : Connector)
        → c.posted ≡ connecting r ∷ ts
        → P c
        → run_connecting again (ec, con) r (record c { posted = ts }) ≡ some c'
        → P c'
    pub ended :
        (ts : List Task) (c : Connector)
        → c.posted ≡ closing ∷ ts
        → P c
        → P (run_closing again (record c { posted = ts }))
    pub cleared :
        (d : ℕ) (ts : List Task) (c : Connector)
        → c.posted ≡ clearing d ∷ ts
        → P c
        → P (record c { posted = ts; cleared = c.cleared ++ (d ∷ []) })
    pub answered :
        (con : ℕ) (ec : ErrorCode) (c : Connector) → P c → P (handle_open_or_fail again con ec c)

  module _ {P : Connector → Type 0} {R : Request → Type 0} (kept : IsKept P R) where
    run_posted-kept :
        (con : ℕ) (ec : ErrorCode) (ts : List Task) (c c' : Connector)
        → c.posted ≡ ts
        → P c
        → run_posted again (ec, con) ts c ≡ some c'
        → P c'
    unfolding run_task
    run_posted-kept con ec [] c c' p o e = subst P (some-injective c c' e) o
    run_posted-kept con ec (connecting r ∷ ts) c c' p o e = kept.connected con ec r ts c c' p o e
    run_posted-kept con ec (closing ∷ ts) c c' p o e =
        subst P (some-injective _ c' e) (kept.ended ts c p o)
    run_posted-kept con ec (clearing d ∷ ts) c c' p o e =
        subst P (some-injective _ c' e) (kept.cleared d ts c p o)

    -- The two handlers of the client, by the code that they go on with.
    lookup-kept :
        (b : Bool) (o : Option ℕ) (code : ℕ → ErrorCode) (c c' : Connector)
        → P c
        → (if b then some c else elim o [
          | none ↦ none
          | some con ↦ some (handle_open_or_fail again con (code con) c)
        ])
          ≡ some c'
        → P c'
    lookup-kept true o code c c' w e = subst P (some-injective c c' e) w
    lookup-kept false none code c c' w e = absurd (none-ne-some e)
    lookup-kept false (some con) code c c' w e =
        subst P (some-injective _ c' e) (kept.answered con (code con) c w)

    pub run-kept :
        (es : List Event) (c c' : Connector) → Requests R es → P c → run es c ≡ some c' → P c'
    unfolding run step handle_open handle_fail
    run-kept [] c c' q o e = subst P (some-injective c c' e) o
    run-kept (requesting r ∷ es) c c' q o e =
        let (c1, first, rest) = some-inv (step (requesting r) c) (run es) e in
        run-kept es c1 c' q.1 (subst P (some-injective _ c1 first) (kept.requested r c q.0 o)) rest
    run-kept (closing_event ∷ es) c c' q o e =
        let (c1, first, rest) = some-inv (step closing_event c) (run es) e in
        run-kept es c1 c' q (subst P (some-injective _ c1 first) (kept.closed c o)) rest
    run-kept (running (ec, con) ∷ es) c c' q o e =
        let (c1, first, rest) = some-inv (step (running (ec, con)) c) (run es) e in
        run-kept es c1 c' q (run_posted-kept con ec c.posted c c1 refl o first) rest
    run-kept (opened (ec, got) ∷ es) c c' q o e =
        let (c1, first, rest) = some-inv (step (opened (ec, got)) c) (run es) e in
        run-kept es c1 c' q (lookup-kept (is_error ec) got (λ _. ec) c c1 o first) rest
    run-kept (failed transport_ec (ec, got) ∷ es) c c' q o e =
        let (c1, first, rest) = some-inv (step (failed transport_ec (ec, got)) c) (run es) e in
        run-kept es c1 c' q
          (lookup-kept (is_error ec) got (λ con. failure_code (transport_ec con)) c c1 o first) rest
