-- ===== src/ProducerConsumer/Rule.antt =====
-- Induction over the runs of the queue, whose handlers may call back into it.
use cxx_util.Prelude.{
  ℕ, zero, suc, ◌≡◌, refl, subst, List, [], ◌∷◌, Option, some, some-inv, none-ne-some,
  some-injective,
}
use cxx_util.ProducerConsumer.{
  Call, consuming, producing, Queue, emplace_handler, emplace_data, take_pair, consume, produce,
  call, run_calls, post_with, post, run,
}

module _ {ℓ} {H D : Type ℓ} where
  -- A step that, where it has a result, keeps `P`.
  abbrev pub Keeps {κ} : (Queue H D → Type κ) → (Queue H D → Option (Queue H D)) → Type (ℓ ⊔ κ)
  Keeps P f = (q q' : Queue H D) → P q → f q ≡ some q' → P q'

  module _ {κ} (P : Queue H D → Type κ)
      (keep_handler : (q : Queue H D) (h : H) → P q → P (emplace_handler q h))
      (keep_data : (q : Queue H D) (d : D) → P q → P (emplace_data q d)) where
    call-Keeps :
        (p : Queue H D → Option (Queue H D)) (c : Call H D) → Keeps P p → Keeps P (call p c)
    unfolding consume produce
    call-Keeps p (consuming h) keep q q' v e = keep _ q' (keep_handler q h v) e
    call-Keeps p (producing d) keep q q' v e = keep _ q' (keep_data q d v) e

    run_calls-Keeps :
        (p : Queue H D → Option (Queue H D)) (cs : List (Call H D))
        → Keeps P p
        → Keeps P (run_calls p cs)
    unfolding run_calls
    run_calls-Keeps p [] keep q q' v e = subst P (some-injective q q' e) v
    run_calls-Keeps p (c ∷ cs) keep q q' v e =
        let (q1, first, rest) = some-inv (call p c q) (run_calls p cs) e in
        run_calls-Keeps p cs keep q1 q' (call-Keeps p c keep q q1 v first) rest

    module _ (react : H → D → List (Call H D))
        (keep_pair : (q : Queue H D) (h : H) (hs : List H) (d : D) (ds : List D)
          → q.m_handlers ≡ h ∷ hs
          → q.m_data ≡ d ∷ ds
          → P q
          → P (take_pair h hs d ds q)) where
      post_with-Keeps :
          (p : Queue H D → Option (Queue H D)) (hs : List H) (ds : List D) (q q' : Queue H D)
          → Keeps P p
          → q.m_handlers ≡ hs
          → q.m_data ≡ ds
          → P q
          → post_with react p hs ds q ≡ some q'
          → P q'
      post_with-Keeps p [] ds q q' keep eh ed v e = subst P (some-injective q q' e) v
      post_with-Keeps p (h ∷ hs) [] q q' keep eh ed v e = subst P (some-injective q q' e) v
      post_with-Keeps p (h ∷ hs) (d ∷ ds) q q' keep eh ed v e =
          let (q1, first, rest) = some-inv (run_calls p (react h d) (take_pair h hs d ds q)) p e in
          keep q1 q' (run_calls-Keeps p (react h d) keep _ q1 (keep_pair q h hs d ds eh ed v) first)
            rest

      pub post-Keeps : (fuel : ℕ) → Keeps P (post react fuel)
      unfolding post
      post-Keeps zero q q' v e = absurd (none-ne-some e)
      post-Keeps (suc fuel) q q' v e =
          post_with-Keeps (post react fuel) q.m_handlers q.m_data q q' (post-Keeps fuel) refl refl v
            e

      -- `run` keeps `P`, too.
      pub run-Keeps : (fuel : ℕ) (cs : List (Call H D)) → Keeps P (run react fuel cs)
      unfolding run
      run-Keeps fuel cs = run_calls-Keeps (post react fuel) cs (post-Keeps fuel)
