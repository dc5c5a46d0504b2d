-- ===== src/ProducerConsumer/Enough.antt =====
-- The fuel that `post` needs where no handler produces: a round for each datum.
use cxx_util.Prelude.{
  ℕ, zero, suc, ◌+◌, ◌<◌, ◌≤◌, ◌≡◌, refl, ap, arith, List, [], ◌∷◌, map, Option, some, length,
  length-append,
}
use cxx_util.ProducerConsumer.{
  Call, consuming, Queue, emplace_handler, emplace_data, take_pair, consume, produce, run_calls,
  post_with, post,
}

module _ {H D : Type 0} where
  -- A step that has a result, with at most `bound` data waiting after it.
  abbrev pub Ends : ℕ → Option (Queue H D) → Type 0
  Ends bound o = (q : Queue H D) × (o ≡ some q) × (length q.m_data ≤ bound)

  EndsFrom : (Queue H D → Option (Queue H D)) → ℕ → Type 0
  EndsFrom p limit = (q : Queue H D) → length q.m_data < limit → Ends (length q.m_data) (p q)

  run_calls-Ends :
      (p : Queue H D → Option (Queue H D)) (limit : ℕ) (ends : EndsFrom p limit) (l : List H)
      (q : Queue H D)
      → length q.m_data < limit
      → Ends (length q.m_data) (run_calls p (map consuming l) q)
  unfolding run_calls consume EndsFrom
  run_calls-Ends p limit ends [] q h = (q, refl, omega arith)
  run_calls-Ends p limit ends (c ∷ cs) q h =
      let (q1, e1, l1) = ends (emplace_handler q c) h in
      let (q2, e2, l2) = run_calls-Ends p limit ends cs q1 (omega arith) in
      (q2, rw (e1, run_calls, consume) e2, omega arith)

  module _ (asks : H → D → List H) (react : H → D → List (Call H D))
      (only : (h : H) (d : D) → react h d ≡ map consuming (asks h d)) where
    post_with-Ends :
        (p : Queue H D → Option (Queue H D)) (limit : ℕ) (hs : List H) (ds : List D) (q : Queue H D)
        → EndsFrom p limit
        → q.m_data ≡ ds
        → length ds < suc limit
        → Ends (length ds) (post_with react p hs ds q)
    unfolding EndsFrom
    post_with-Ends p limit [] ds q ends ed h = (q, refl, omega (arith, ap length ed))
    post_with-Ends p limit (x ∷ hs) [] q ends ed h = (q, refl, omega (arith, ap length ed))
    post_with-Ends p limit (x ∷ hs) (d ∷ ds) q ends ed h =
        let (q1, e1, l1) =
          run_calls-Ends p limit ends (asks x d) (take_pair x hs d ds q) (omega arith) in
        let (q2, e2, l2) = ends q1 (omega arith) in
        (q2, rw (only x d, e1, post_with) e2, omega arith)

    post_ends : (fuel : ℕ) → EndsFrom (post react fuel) fuel
    unfolding post EndsFrom
    post_ends zero q h = elim h [ ]
    post_ends (suc fuel) q h =
        post_with-Ends (post react fuel) fuel q.m_handlers q.m_data q (post_ends fuel) refl h

    pub consume-Ends :
        (fuel : ℕ) (h : H) (q : Queue H D)
        → length q.m_data < fuel
        → Ends (length q.m_data) (consume (post react fuel) h q)
    unfolding consume EndsFrom
    consume-Ends fuel h q k = post_ends fuel (emplace_handler q h) k

    pub produce-Ends :
        (fuel : ℕ) (d : D) (q : Queue H D)
        → length q.m_data + 1 < fuel
        → Ends (length q.m_data + 1) (produce (post react fuel) d q)
    unfolding produce EndsFrom
    produce-Ends fuel d q k =
        let (q1, e1, l1) =
          post_ends fuel (emplace_data q d) (omega (arith, length-append q.m_data (d ∷ []))) in
        (q1, e1, omega (arith, length-append q.m_data (d ∷ [])))
