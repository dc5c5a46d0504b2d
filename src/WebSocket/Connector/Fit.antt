-- ===== src/WebSocket/Connector/Fit.antt =====
-- Requests that give each handler one message queue, what a connector keeps of them, and a condition on
-- what it does.
use cxx_util.Prelude.{
  ℕ, ◌≡◌, refl, Bool, true, false, List, [], ◌∷◌, ◌++◌, map, Option, none, some, some-inv,
  some-injective, none-ne-some, subst, ◌⊎◌, ◌==◌, ltb, if◌then◌else◌,
}
use cxx_util.WebSocket.ErrorCode.{is_error}
use cxx_util.WebSocket.Connector.{
  Request, NascentConnection, Task, connecting, closing, clearing, Effect, connect, connection_set,
  connection_closed, called, Nascent, insert, find, erase,
}

-- The last of what was done.
abbrev pub last_of : Option Effect → List Effect → Option Effect
last_of p [] = p
last_of p (e ∷ l) = last_of (some e) l

pub last-snoc :
    (p : Option Effect) (l : List Effect) (e : Effect) → last_of p (l ++ (e ∷ [])) ≡ some e
last-snoc p [] e = refl
last-snoc p (d ∷ l) e = last-snoc (some d) l e

-- The message queue of each handler.
module _ (queue_of : ℕ → ℕ) where
  abbrev pub IsFit : Request → Type 0
  IsFit r = r.request_mq ≡ queue_of r.request_handler

  abbrev pub FitTasks : List Task → Type 0
  FitTasks [] = Unit {0}
  FitTasks (connecting r ∷ ts) = IsFit r × FitTasks ts
  FitTasks (closing ∷ ts) = FitTasks ts
  FitTasks (clearing d ∷ ts) = FitTasks ts

  abbrev pub FitRequests : List Request → Type 0
  FitRequests [] = Unit {0}
  FitRequests (r ∷ rs) = IsFit r × FitRequests rs

  abbrev pub FitNascent : Nascent → Type 0
  FitNascent [] = Unit {0}
  FitNascent ((c, d) ∷ m) = (d.mq ≡ queue_of d.handler) × FitNascent m

  -- Whether the message queue has just got a connection.
  abbrev pub Given : ℕ → Option Effect → Type 0
  Given mq p = (con : ℕ) × (p ≡ some (connection_set mq con))

  -- Each call without an error comes next after the message queue of its handler got a connection.
  abbrev pub Connected : Option Effect → List Effect → Type 0
  Connected p [] = Unit {0}
  Connected p (called h ec ∷ l) =
      ((is_error ec ≡ true) ⊎ Given (queue_of h) p) × Connected (some (called h ec)) l
  Connected p (connect con ∷ l) = Connected (some (connect con)) l
  Connected p (connection_set mq con ∷ l) = Connected (some (connection_set mq con)) l
  Connected p (connection_closed con ∷ l) = Connected (some (connection_closed con)) l

  pub Connected-append :
      (p : Option Effect) (l r : List Effect)
      → Connected p l
      → Connected (last_of p l) r
      → Connected p (l ++ r)
  Connected-append p [] r h k = k
  Connected-append p (called c ec ∷ l) r h k =
      (h.0, Connected-append (some (called c ec)) l r h.1 k)
  Connected-append p (connect con ∷ l) r h k = Connected-append (some (connect con)) l r h k
  Connected-append p (connection_set mq con ∷ l) r h k =
      Connected-append (some (connection_set mq con)) l r h k
  Connected-append p (connection_closed con ∷ l) r h k =
      Connected-append (some (connection_closed con)) l r h k

  pub FitTasks-append : (ts us : List Task) → FitTasks ts → FitTasks us → FitTasks (ts ++ us)
  FitTasks-append [] us h k = k
  FitTasks-append (connecting r ∷ ts) us h k = (h.0, FitTasks-append ts us h.1 k)
  FitTasks-append (closing ∷ ts) us h k = FitTasks-append ts us h k
  FitTasks-append (clearing d ∷ ts) us h k = FitTasks-append ts us h k

  pub FitTasks-connecting : (rs : List Request) → FitRequests rs → FitTasks (map connecting rs)
  FitTasks-connecting [] h = tt
  FitTasks-connecting (r ∷ rs) h = (h.0, FitTasks-connecting rs h.1)

  pub find-Fit :
      (con : ℕ) (m : Nascent) (n : NascentConnection)
      → FitNascent m
      → find con m ≡ some n
      → n.mq ≡ queue_of n.handler
  unfolding find
  find-Fit con [] n h e = absurd (none-ne-some e)
  find-Fit con ((c, d) ∷ m) n h e = found (c == con) e (find-Fit con m n h.1)
    where
      found :
          (b : Bool)
          → (if b then some d else find con m) ≡ some n
          → (find con m ≡ some n → n.mq ≡ queue_of n.handler)
          → n.mq ≡ queue_of n.handler
      found true f k = subst (λ x. x.mq ≡ queue_of x.handler) (some-injective d n f) h.0
      found false f k = k f

  pub erase-Fit : (con : ℕ) (m : Nascent) → FitNascent m → FitNascent (erase con m)
  unfolding erase
  erase-Fit con [] h = tt
  erase-Fit con ((c, d) ∷ m) h = kept (c == con) (erase-Fit con m h.1)
    where
      kept :
          (b : Bool) → FitNascent (erase con m) → FitNascent (if b then m else (c, d) ∷ erase con m)
      kept true k = h.1
      kept false k = (h.0, k)

  pub insert-Fit :
      (con : ℕ) (n : NascentConnection) (m m' : Nascent)
      → n.mq ≡ queue_of n.handler
      → FitNascent m
      → insert con n m ≡ some m'
      → FitNascent m'
  unfolding insert
  insert-Fit con n [] m' f h e = subst FitNascent (some-injective _ m' e) (f, tt)
  insert-Fit con n ((c, d) ∷ m) m' f h e =
      placed (c == con) (ltb con c) e (λ r. insert-Fit con n m r f h.1)
    where
      placed :
          (b l : Bool)
          → (if b
              then none
              else if l
              then some ((con, n) ∷ (c, d) ∷ m)
              else elim (insert con n m) [ none ↦ none | some r ↦ some ((c, d) ∷ r) ])
            ≡ some m'
          → ((r : Nascent) → insert con n m ≡ some r → FitNascent r)
          → FitNascent m'
      placed true l q ih = absurd (none-ne-some q)
      placed false true q ih = subst FitNascent (some-injective _ m' q) (f, (h.0, h.1))
      placed false false q ih =
          let (r, g, t) = some-inv (insert con n m) (λ r. some ((c, d) ∷ r)) q in
          subst FitNascent (some-injective _ m' t) (h.0, ih r g)
