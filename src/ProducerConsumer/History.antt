-- ===== src/ProducerConsumer/History.antt =====
-- The order in which `post` matches handlers and data.
use mathlib.Core.List.{append_assoc, map-append}
use cxx_util.Prelude.{
  ℕ, zero, suc, ◌≡◌, refl, sym, ap, ◌∙◌, ◌⊎◌, inl, inr, List, [], ◌∷◌, ◌++◌, map, Option, some,
  some-inv, none-ne-some, some-injective, subst,
}
use cxx_util.ProducerConsumer.{
  Call, consuming, producing, Queue, emplace_handler, emplace_data, take_pair, consume, produce,
  run_calls, post_with, post, run, empty,
}
use cxx_util.ProducerConsumer.Rule.{run-Keeps}

module _ {ℓ} {H D : Type ℓ} where
  abbrev pub handler_of : H × D → H
  handler_of p = p.0

  abbrev pub datum_of : H × D → D
  datum_of p = p.1

  -- The handlers invoked so far, then those that wait, are those that `consume` was called with,
  -- in order; and so for the data.
  pub record InOrder (q : Queue H D) : Type ℓ where
    pub handlers : q.consumed ≡ map handler_of q.invoked ++ q.m_handlers
    pub data_in_order : q.produced ≡ map datum_of q.invoked ++ q.m_data

  pub handler-InOrder : (q : Queue H D) (h : H) → InOrder q → InOrder (emplace_handler q h)
  handler-InOrder q h v = record {
    handlers =
        ap (λ l. l ++ (h ∷ [])) v.handlers
        ∙ append_assoc (map handler_of q.invoked) q.m_handlers (h ∷ []);
    data_in_order = v.data_in_order;
  }

  pub data-InOrder : (q : Queue H D) (d : D) → InOrder q → InOrder (emplace_data q d)
  data-InOrder q d v = record {
    handlers = v.handlers;
    data_in_order =
        ap (λ l. l ++ (d ∷ [])) v.data_in_order
        ∙ append_assoc (map datum_of q.invoked) q.m_data (d ∷ []);
  }

  pub pair-InOrder :
      (q : Queue H D) (h : H) (hs : List H) (d : D) (ds : List D)
      → q.m_handlers ≡ h ∷ hs
      → q.m_data ≡ d ∷ ds
      → InOrder q
      → InOrder (take_pair h hs d ds q)
  pair-InOrder q h hs d ds eh ed v = record {
    handlers =
        v.handlers
        ∙ ap (◌++◌ (map handler_of q.invoked)) eh
        ∙ sym (append_assoc _ (h ∷ []) hs)
        ∙ ap (λ l. l ++ hs) (sym (map-append handler_of q.invoked ((h, d) ∷ [])));
    data_in_order =
        v.data_in_order
        ∙ ap (◌++◌ (map datum_of q.invoked)) ed
        ∙ sym (append_assoc _ (d ∷ []) ds)
        ∙ ap (λ l. l ++ ds) (sym (map-append datum_of q.invoked ((h, d) ∷ [])));
  }

  -- One of the two queues is empty.
  abbrev pub IsDrained : Queue H D → Type ℓ
  IsDrained q = (q.m_handlers ≡ []) ⊎ (q.m_data ≡ [])

  module _ (react : H → D → List (Call H D)) where
    post_with-IsDrained :
        (p : Queue H D → Option (Queue H D)) (hs : List H) (ds : List D) (q q' : Queue H D)
        → ((r r' : Queue H D) → p r ≡ some r' → IsDrained r')
        → q.m_handlers ≡ hs
        → q.m_data ≡ ds
        → post_with react p hs ds q ≡ some q'
        → IsDrained q'
    post_with-IsDrained p [] ds q q' drained eh ed e =
        subst IsDrained (some-injective q q' e) (inl eh)
    post_with-IsDrained p (h ∷ hs) [] q q' drained eh ed e =
        subst IsDrained (some-injective q q' e) (inr ed)
    post_with-IsDrained p (h ∷ hs) (d ∷ ds) q q' drained eh ed e =
        let (q1, first, rest) = some-inv (run_calls p (react h d) (take_pair h hs d ds q)) p e in
        drained q1 q' rest

    pub post-IsDrained : (fuel : ℕ) (q q' : Queue H D) → post react fuel q ≡ some q' → IsDrained q'
    unfolding post
    post-IsDrained zero q q' e = absurd (none-ne-some e)
    post-IsDrained (suc fuel) q q' e =
        post_with-IsDrained (post react fuel) q.m_handlers q.m_data q q' (post-IsDrained fuel) refl
          refl e

    run-IsDrained :
        (fuel : ℕ) (cs : List (Call H D)) (q q' : Queue H D)
        → IsDrained q
        → run react fuel cs q ≡ some q'
        → IsDrained q'
    unfolding run run_calls consume produce
    run-IsDrained fuel [] q q' v e = subst IsDrained (some-injective q q' e) v
    run-IsDrained fuel (consuming h ∷ cs) q q' v e =
        let (q1, first, rest) =
          some-inv (post react fuel (emplace_handler q h)) (run_calls (post react fuel) cs) e in
        run-IsDrained fuel cs q1 q' (post-IsDrained fuel _ q1 first) rest
    run-IsDrained fuel (producing d ∷ cs) q q' v e =
        let (q1, first, rest) =
          some-inv (post react fuel (emplace_data q d)) (run_calls (post react fuel) cs) e in
        run-IsDrained fuel cs q1 q' (post-IsDrained fuel _ q1 first) rest

    -- After any calls on a new queue that end within the fuel, whatever the handlers themselves
    -- call: the n-th handler invoked is the n-th that was offered, with the n-th datum, and no handler
    -- waits while there is a datum.
    pub run_in_order :
        (fuel : ℕ) (cs : List (Call H D)) {q : Queue H D}
        → run react fuel cs empty ≡ some q
        → (q.consumed ≡ map handler_of q.invoked ++ q.m_handlers)
          × (q.produced ≡ map datum_of q.invoked ++ q.m_data)
          × ((q.m_handlers ≡ []) ⊎ (q.m_data ≡ []))
    unfolding empty
    run_in_order fuel cs {q} e =
        let v =
          run-Keeps InOrder handler-InOrder data-InOrder react pair-InOrder fuel cs empty q
            (record { handlers = refl; data_in_order = refl }) e in
        (v.handlers, v.data_in_order, run-IsDrained fuel cs empty q (inl refl) e)
