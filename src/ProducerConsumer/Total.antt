-- ===== src/ProducerConsumer/Total.antt =====
-- The fuel that `post` needs where no handler consumes.
use cxx_util.Prelude.{
  ℕ, zero, suc, ◌+◌, ◌<◌, ◌≤◌, ◌≡◌, refl, ap, arith, List, [], ◌∷◌, Option, some, length,
  length-append,
}
use cxx_util.ProducerConsumer.{
  Call, consuming, producing, Queue, emplace_handler, emplace_data, take_pair, consume, produce,
  run_calls, post_with, post, run,
}

module _ {ℓ} {H D : Type ℓ} where
  -- The calls of a handler's body are of `produce` only.
  abbrev pub OnlyProduces : List (Call H D) → Type 0
  OnlyProduces [] = Unit {0}
  OnlyProduces (consuming h ∷ cs) = ⊥
  OnlyProduces (producing d ∷ cs) = OnlyProduces cs

  -- A step that has a result, with at most `bound` handlers waiting after it.
  abbrev Ends : ℕ → Option (Queue H D) → Type ℓ
  Ends bound o = (q : Queue H D) × (o ≡ some q) × (length q.m_handlers ≤ bound)

  EndsFrom : (Queue H D → Option (Queue H D)) → ℕ → Type ℓ
  EndsFrom p limit =
      (q : Queue H D) → length q.m_handlers < limit → Ends (length q.m_handlers) (p q)

  module _ (p : Queue H D → Option (Queue H D)) (limit : ℕ) (ends : EndsFrom p limit) where
    run_calls-Ends :
        (cs : List (Call H D)) (q : Queue H D)
        → OnlyProduces cs
        → length q.m_handlers < limit
        → Ends (length q.m_handlers) (run_calls p cs q)
    unfolding run_calls produce EndsFrom
    run_calls-Ends [] q o h = (q, refl, omega arith)
    run_calls-Ends (consuming c ∷ cs) q o h = absurd o
    run_calls-Ends (producing d ∷ cs) q o h =
        let (q1, e1, l1) = ends (emplace_data q d) h in
        let (q2, e2, l2) = run_calls-Ends cs q1 o (omega arith) in
        (q2, rw (e1, run_calls, produce) e2, omega arith)

  module _ (react : H → D → List (Call H D))
      (quiet : (h : H) (d : D) → OnlyProduces (react h d)) where
    post_with-Ends :
        (p : Queue H D → Option (Queue H D)) (limit : ℕ) (hs : List H) (ds : List D) (q : Queue H D)
        → EndsFrom p limit
        → q.m_handlers ≡ hs
        → q.m_data ≡ ds
        → length hs < suc limit
        → Ends (length hs) (post_with react p hs ds q)
    unfolding EndsFrom
    post_with-Ends p limit [] ds q ends eh ed h = (q, refl, omega (arith, ap length eh))
    post_with-Ends p limit (x ∷ hs) [] q ends eh ed h = (q, refl, omega (arith, ap length eh))
    post_with-Ends p limit (x ∷ hs) (d ∷ ds) q ends eh ed h =
        let (q1, e1, l1) =
          run_calls-Ends p limit ends (react x d) (take_pair x hs d ds q) (quiet x d)
            (omega arith) in
        let (q2, e2, l2) = ends q1 (omega arith) in (q2, rw (e1, post_with) e2, omega arith)

    post_ends : (fuel : ℕ) → EndsFrom (post react fuel) fuel
    unfolding post EndsFrom
    post_ends zero q h = elim h [ ]
    post_ends (suc fuel) q h =
        post_with-Ends (post react fuel) fuel q.m_handlers q.m_data q (post_ends fuel) refl refl h

    -- Where no handler calls `consume`, any calls have a result, with more fuel than there are
    -- waiting handlers and calls.
    pub run_total :
        (fuel : ℕ) (cs : List (Call H D)) (q : Queue H D)
        → length q.m_handlers + length cs < fuel
        → (q' : Queue H D) × (run react fuel cs q ≡ some q')
    unfolding run run_calls consume produce EndsFrom
    run_total fuel [] q h = (q, refl)
    run_total fuel (consuming c ∷ cs) q h =
        let (q1, e1, l1) =
          post_ends fuel (emplace_handler q c)
            (omega (arith, length-append q.m_handlers (c ∷ []))) in
        let (q2, e2) = run_total fuel cs q1 (omega (arith, length-append q.m_handlers (c ∷ []))) in
        (q2, rw (e1, run_calls, consume) e2)
    run_total fuel (producing d ∷ cs) q h =
        let (q1, e1, l1) = post_ends fuel (emplace_data q d) (omega arith) in
        let (q2, e2) = run_total fuel cs q1 (omega arith) in (q2, rw (e1, run_calls, produce) e2)
