-- ===== src/ProducerConsumer/Served.antt =====
-- The queue between the calls of its members: what each of them keeps, the loops of `close` included.
use mathlib.Core.List.{append-nil}
use cxx_util.Prelude.{
  ℕ, zero, suc, ◌≡◌, refl, sym, ap, ap₂, ◌∙◌, inl, inr, Bool, true, false, List, [], ◌∷◌, ◌++◌, map,
  Option, none, some, some-inv, none-ne-some, some-injective, subst,
}
use cxx_util.Prelude.Int.{pos, ltb_ℤ}
use cxx_util.ProducerConsumer.{
  Call, Queue, emplace_handler, emplace_data, consume, produce, post, empty, depth,
}
use cxx_util.ProducerConsumer.Rule.{post-Keeps}
use cxx_util.ProducerConsumer.History.{
  handler_of, datum_of, InOrder, handler-InOrder, data-InOrder, pair-InOrder, IsDrained,
  post-IsDrained,
}
use cxx_util.ProducerConsumer.Quiet.{pairs}
use cxx_util.ProducerConsumer.Closing.{abort_demand, discard_supply}

module _ {ℓ} {H D : Type ℓ} where
  -- Matched in order, with nothing left to match.
  abbrev pub Served : Queue H D → Type ℓ
  Served q = InOrder q × IsDrained q

  pub empty-Served : Served empty
  unfolding empty
  empty-Served = (record { handlers = refl; data_in_order = refl }, inl refl)

  pairs-map :
      (log : List (H × D)) (hs : List H) (ds : List D)
      → pairs (map handler_of log ++ hs) (map datum_of log ++ ds) ≡ log ++ pairs hs ds
  pairs-map [] hs ds = refl
  pairs-map ((h, d) ∷ log) hs ds = ap (λ l. (h, d) ∷ l) (pairs-map log hs ds)

  pairs-nil : (hs : List H) → pairs {D = D} hs [] ≡ []
  pairs-nil [] = refl
  pairs-nil (h ∷ hs) = refl

  append-none : (log : List (H × D)) (l : List (H × D)) → l ≡ [] → log ++ l ≡ log
  append-none log l e = ap (λ m. log ++ m) e ∙ append-nil log

  -- The invocations are the handlers with the data, in their orders.
  pub invoked-pairs : (q : Queue H D) → Served q → q.invoked ≡ pairs q.consumed q.produced
  invoked-pairs q (v, drained) = sym (
      ap₂ pairs v.handlers v.data_in_order
      ∙ pairs-map q.invoked q.m_handlers q.m_data
      ∙ append-none q.invoked (pairs q.m_handlers q.m_data) (unmatched drained))
    where
      unmatched : IsDrained q → pairs q.m_handlers q.m_data ≡ []
      unmatched (inl e) = ap (λ l. pairs l q.m_data) e
      unmatched (inr e) = ap (λ l. pairs q.m_handlers l) e ∙ pairs-nil q.m_handlers

  -- One round of a loop, or its end.
  loop-Served :
      (b : Bool) (o : Option (Queue H D)) (rest : Queue H D → Option (Queue H D)) (q q' : Queue H D)
      → Served q
      → ((q1 : Queue H D) → o ≡ some q1 → Served q1)
      → ((q1 : Queue H D) → Served q1 → rest q1 ≡ some q' → Served q')
      → elim b [ false ↦ some q | true ↦ elim o [ none ↦ none | some q1 ↦ rest q1 ] ] ≡ some q'
      → Served q'
  loop-Served false o rest q q' v one more e = subst Served (some-injective q q' e) v
  loop-Served true o rest q q' v one more e =
      let (q1, first, f) = some-inv o rest e in more q1 (one q1 first) f

  module _ (react : H → D → List (Call H D)) where
    post-Served :
        (fuel : ℕ) (q q' : Queue H D) → InOrder q → post react fuel q ≡ some q' → Served q'
    post-Served fuel q q' v e = (
      post-Keeps InOrder handler-InOrder data-InOrder react pair-InOrder fuel q q' v e,
      post-IsDrained react fuel q q' e,
    )

    pub consume-Served :
        (fuel : ℕ) (h : H) (q q' : Queue H D)
        → Served q
        → consume (post react fuel) h q ≡ some q'
        → Served q'
    unfolding consume
    consume-Served fuel h q q' (v, _) e =
        post-Served fuel (emplace_handler q h) q' (handler-InOrder q h v) e

    pub produce-Served :
        (fuel : ℕ) (d : D) (q q' : Queue H D)
        → Served q
        → produce (post react fuel) d q ≡ some q'
        → Served q'
    unfolding produce
    produce-Served fuel d q q' (v, _) e =
        post-Served fuel (emplace_data q d) q' (data-InOrder q d v) e

    pub abort_demand-Served :
        (fuel pf : ℕ) (d : D) (q q' : Queue H D)
        → Served q
        → abort_demand react fuel pf d q ≡ some q'
        → Served q'
    unfolding abort_demand
    abort_demand-Served zero pf d q q' v e = absurd (none-ne-some e)
    abort_demand-Served (suc fuel) pf d q q' v e =
        loop-Served (ltb_ℤ (depth q) (pos 0)) (produce (post react pf) d q)
          (abort_demand react fuel pf d) q q' v (λ q1 f. produce-Served pf d q q1 v f)
          (λ q1 v1 f. abort_demand-Served fuel pf d q1 q' v1 f) e

    pub discard_supply-Served :
        (fuel pf : ℕ) (h : H) (q q' : Queue H D)
        → Served q
        → discard_supply react fuel pf h q ≡ some q'
        → Served q'
    unfolding discard_supply
    discard_supply-Served zero pf h q q' v e = absurd (none-ne-some e)
    discard_supply-Served (suc fuel) pf h q q' v e =
        loop-Served (ltb_ℤ (pos 0) (depth q)) (consume (post react pf) h q)
          (discard_supply react fuel pf h) q q' v (λ q1 f. consume-Served pf h q q1 v f)
          (λ q1 v1 f. discard_supply-Served fuel pf h q1 q' v1 f) e
