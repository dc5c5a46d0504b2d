-- ===== src/WebSocket/Connector/Balance.antt =====
-- The users' handlers that a connector has called, and those that it still has to call.
use cxx_util.Prelude.{
  ℕ, ◌+◌, ◌≡◌, refl, sym, ap, ◌∙◌, arith, Bool, true, false, List, [], ◌∷◌, ◌++◌, map, Option, none,
  some, some-inv, none-ne-some, some-injective, subst, if◌then◌else◌, ◌==◌, ltb,
}
use cxx_util.Prelude.Count.{one_at, count, count-append}
use cxx_util.WebSocket.ErrorCode.{ErrorCode, operation_aborted, is_error}
use cxx_util.WebSocket.Connector.{
  Request, NascentConnection, Task, connecting, closing, clearing, Effect, connect, connection_set,
  connection_closed, called, Nascent, Connector, insert, find, erase, handlers_of, async_connect,
  call_handler, run_connecting, close_all, run_closing, handle_open_or_fail, add_effect, add_posted,
}

-- How often a handler stands in each list.
unfoldable pub count_called : ℕ → List Effect → ℕ
count_called x [] = 0
count_called x (called h ec ∷ es) = one_at x h + count_called x es
count_called x (connect con ∷ es) = count_called x es
count_called x (connection_set mq con ∷ es) = count_called x es
count_called x (connection_closed con ∷ es) = count_called x es

unfoldable pub count_nascent : ℕ → Nascent → ℕ
count_nascent x [] = 0
count_nascent x ((con, n) ∷ m) = one_at x n.handler + count_nascent x m

unfoldable pub count_posted : ℕ → List Task → ℕ
count_posted x [] = 0
count_posted x (connecting r ∷ ts) = one_at x r.request_handler + count_posted x ts
count_posted x (closing ∷ ts) = count_posted x ts
count_posted x (clearing con ∷ ts) = count_posted x ts

module _ (x : ℕ) where
  count_called-append :
      (l l' : List Effect) → count_called x (l ++ l') ≡ count_called x l + count_called x l'
  unfolding count_called
  count_called-append [] l' = omega arith
  count_called-append (called h ec ∷ l) l' = omega (arith, count_called-append l l')
  count_called-append (connect con ∷ l) l' = count_called-append l l'
  count_called-append (connection_set mq con ∷ l) l' = count_called-append l l'
  count_called-append (connection_closed con ∷ l) l' = count_called-append l l'

  count_posted-append :
      (l l' : List Task) → count_posted x (l ++ l') ≡ count_posted x l + count_posted x l'
  unfolding count_posted
  count_posted-append [] l' = omega arith
  count_posted-append (connecting r ∷ l) l' = omega (arith, count_posted-append l l')
  count_posted-append (closing ∷ l) l' = count_posted-append l l'
  count_posted-append (clearing con ∷ l) l' = count_posted-append l l'

  count_posted-requests :
      (rs : List Request) → count_posted x (map connecting rs) ≡ count x (handlers_of rs)
  unfolding count_posted count
  count_posted-requests [] = refl
  count_posted-requests (r ∷ rs) =
      ap (λ t. one_at x r.request_handler + t) (count_posted-requests rs)

  -- The calls, the nascent connections, the posted requests and `k` further ones are as many as the
  -- requests.
  unfoldable pub Owes : ℕ → Connector → Type 0
  Owes k c =
      count_called x c.effects
        + count_nascent x c.m_nascent_connections
        + count_posted x c.posted
        + k
      ≡ count x c.requested

  module _ (again : ℕ → ErrorCode → List Request) where
    -- A call of a handler settles one.
    call_handler-Owes :
        (k h : ℕ) (ec : ErrorCode) (c : Connector)
        → Owes (one_at x h + k) c
        → Owes k (call_handler again h ec c)
    unfolding call_handler Owes count_called
    call_handler-Owes k h ec c o = omega (
      arith,
      o,
      count_called-append c.effects (called h ec ∷ []),
      count_posted-append c.posted (map connecting (again h ec)),
      count_posted-requests (again h ec),
      count-append x c.requested (handlers_of (again h ec)),
    )

    close_all-Owes :
        (k : ℕ) (m : Nascent) (c : Connector)
        → Owes (count_nascent x m + k) c
        → Owes k (close_all again m c)
    unfolding close_all Owes count_nascent count_called
    close_all-Owes k [] c o = omega (arith, o)
    close_all-Owes k ((con, n) ∷ m) c o = close_all-Owes k m _ (
        call_handler-Owes (count_nascent x m + k) n.handler operation_aborted
          (add_effect (record c { cleared = c.cleared ++ (con ∷ []) }) (connection_closed con))
          (omega (arith, o, count_called-append c.effects (connection_closed con ∷ []))))

    clear-close_all :
        (m : Nascent) (c : Connector)
        → record (close_all again m c) { m_nascent_connections = [] }
          ≡ close_all again m (record c { m_nascent_connections = [] })
    unfolding close_all call_handler
    clear-close_all [] c = refl
    clear-close_all ((con, n) ∷ m) c = clear-close_all m (
        call_handler again n.handler operation_aborted
          (add_effect (record c { cleared = c.cleared ++ (con ∷ []) }) (connection_closed con)))

    pub run_closing-Owes : (k : ℕ) (c : Connector) → Owes k c → Owes k (run_closing again c)
    unfolding run_closing Owes count_nascent
    run_closing-Owes k c o =
        subst (λ r. Owes k r) (sym (clear-close_all c.m_nascent_connections c))
          (close_all-Owes k c.m_nascent_connections (record c { m_nascent_connections = [] })
            (omega (arith, o)))

  insert-count :
      (con : ℕ) (n : NascentConnection) (m m' : Nascent)
      → insert con n m ≡ some m'
      → count_nascent x m' ≡ one_at x n.handler + count_nascent x m
  unfolding insert count_nascent
  insert-count con n [] m' e = ap (count_nascent x) (sym (some-injective _ m' e))
  insert-count con n ((c, d) ∷ m) m' e = cases (c == con) (ltb con c) e (insert-count con n m)
    where
      cases :
          (b b' : Bool)
          → (if b
              then none
              else if b'
              then some ((con, n) ∷ (c, d) ∷ m)
              else elim (insert con n m) [ none ↦ none | some r ↦ some ((c, d) ∷ r) ])
            ≡ some m'
          → ((r : Nascent)
              → insert con n m ≡ some r
              → count_nascent x r ≡ one_at x n.handler + count_nascent x m)
          → count_nascent x m' ≡ one_at x n.handler + (one_at x d.handler + count_nascent x m)
      cases true b' f k = absurd (none-ne-some f)
      cases false true f k = ap (count_nascent x) (sym (some-injective _ m' f))
      cases false false f k =
          let (r, g, l) = some-inv (insert con n m) (λ r. some ((c, d) ∷ r)) f in
          ap (count_nascent x) (sym (some-injective ((c, d) ∷ r) m' l)) ∙ omega (arith, k r g)

  find-count :
      (con : ℕ) (m : Nascent) (n : NascentConnection)
      → find con m ≡ some n
      → count_nascent x m ≡ one_at x n.handler + count_nascent x (erase con m)
  unfolding find erase count_nascent
  find-count con [] n e = absurd (none-ne-some e)
  find-count con ((c, d) ∷ m) n e = cases (c == con) e (find-count con m n)
    where
      cases :
          (b : Bool)
          → (if b then some d else find con m) ≡ some n
          → (find con m ≡ some n
              → count_nascent x m ≡ one_at x n.handler + count_nascent x (erase con m))
          → one_at x d.handler + count_nascent x m
            ≡ one_at x n.handler + count_nascent x (if b then m else (c, d) ∷ erase con m)
      cases true f k = ap (λ t. one_at x t.handler + count_nascent x m) (some-injective d n f)
      cases false f k = omega (arith, k f)

  pub async_connect-Owes :
      (k : ℕ) (r : Request) (c : Connector) → Owes k c → Owes k (async_connect r c)
  unfolding async_connect Owes count_posted count
  async_connect-Owes k r c o = omega (
    arith,
    o,
    count_posted-append c.posted (connecting r ∷ []),
    count-append x c.requested (r.request_handler ∷ []),
  )

  pub closing-Owes : (k : ℕ) (c : Connector) → Owes k c → Owes k (add_posted c closing)
  unfolding Owes count_posted
  closing-Owes k c o = omega (arith, o, count_posted-append c.posted (closing ∷ []))

  module _ (again : ℕ → ErrorCode → List Request) where
    pub handle_open_or_fail-Owes :
        (k con : ℕ) (ec : ErrorCode) (c : Connector)
        → Owes k c
        → Owes k (handle_open_or_fail again con ec c)
    unfolding handle_open_or_fail Owes count_called count_posted
    handle_open_or_fail-Owes k con ec c o = cases (find con c.m_nascent_connections) refl
      where
        cases :
            (f : Option NascentConnection)
            → find con c.m_nascent_connections ≡ f
            → Owes k (handle_open_or_fail again con ec c)
        cases none e = rw (e, handle_open_or_fail) o
        cases (some n) e =
            rw (e, handle_open_or_fail)
              (call_handler-Owes again k n.handler ec _ (
                omega (
                  arith,
                  o,
                  find-count con c.m_nascent_connections n e,
                  count_called-append c.effects (connection_set n.mq con ∷ []),
                  count_posted-append c.posted (clearing con ∷ []),
                )))

    pub run_connecting-Owes :
        (k con : ℕ) (ec : ErrorCode) (r : Request) (c c' : Connector)
        → Owes (one_at x r.request_handler + k) c
        → run_connecting again (ec, con) r c ≡ some c'
        → Owes k c'
    unfolding run_connecting Owes count_called
    run_connecting-Owes k con ec r c c' o e = cases (is_error ec) e
      where
        n : NascentConnection
        n = record { handler = r.request_handler; mq = r.request_mq }

        cases :
            (b : Bool)
            → (if b
                then some (call_handler again r.request_handler ec c)
                else elim (insert con n c.m_nascent_connections) [
                  | none ↦ none
                  | some m ↦
                      some (add_effect (record c { m_nascent_connections = m }) (connect con))
                ])
              ≡ some c'
            → Owes k c'
        cases true f =
            subst (Owes k) (some-injective _ c' f)
              (call_handler-Owes again k r.request_handler ec c o)
        cases false f =
            let (m, g, l) =
              some-inv (insert con n c.m_nascent_connections)
                (λ m. some (add_effect (record c { m_nascent_connections = m }) (connect con))) f in
            subst (Owes k) (some-injective _ c' l) (
              omega (
                arith,
                o,
                insert-count con n c.m_nascent_connections m g,
                count_called-append c.effects (connect con ∷ []),
              ))
