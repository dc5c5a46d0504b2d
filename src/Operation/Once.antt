-- ===== src/Operation/Once.antt =====
-- When the completion handler of an `Operation` is called, and with which result.
use cxx_util.Prelude.{
  ℕ, zero, suc, ◌+◌, ◌^◌, ◌<◌, ◌≡◌, refl, sym, ap, ◌∙◌, arith, Bool, true, false, List, [], ◌∷◌,
  Option, none, some, length, if◌then◌else◌, ◌==◌, some-injective, subst,
}
use cxx_util.Operation.{Operations, Action, make_operation, add_ref, run}
use cxx_util.Operation.Handles.{count}
use cxx_util.Operation.Spec
use cxx_util.Operation.Invariant.{shared, operations, concrete}
use cxx_util.Operation.Results.{latest, Stepped, step_steps, operations_refine}

module _ {R : Type 0} where
  -- What the state of a run must be, by who still holds it.
  abbrev pub CalledOnce : R → Operations R → Type 0
  CalledOnce result o =
      (o.state.called ≡ (if count o.handles == 0 then result ∷ [] else []))
      × (o.state.released ≡ (count o.handles == 0))
      × (o.state.m_refs ≡ count o.handles)

  shared_called :
      (result : R) (n : ℕ) → (shared result n).called ≡ (if n == 0 then result ∷ [] else [])
  shared_called result zero = refl
  shared_called result (suc n) = ap (λ b. if b then result ∷ [] else []) {x = false} (ground arith)

  shared_released : (result : R) (n : ℕ) → (shared result n).released ≡ (n == 0)
  shared_released result zero = refl
  shared_released result (suc n) = ground arith

  shared_refs : (result : R) (n : ℕ) → (shared result n).m_refs ≡ n
  shared_refs result zero = refl
  shared_refs result (suc n) = refl

  shared_result : (result : R) (n : ℕ) → (shared result n).m_result ≡ result
  shared_result result zero = refl
  shared_result result (suc n) = refl

  operations-CalledOnce : (result : R) (hs : List Bool) → CalledOnce result (operations result hs)
  operations-CalledOnce result hs = (
    shared_called result (count hs),
    shared_released result (count hs),
    shared_refs result (count hs),
  )

  -- The result that the promise ends with is the latest.
  Latest : List (Action R) → R → Option (R × List Bool) → Type 0
  Latest actions result none = Unit {0}
  Latest actions result (some r) = r.0 ≡ latest actions result

  after_step :
      (a : Action R) (actions : List (Action R)) (result : R) (hs : List Bool)
      (o : Option (R × List Bool))
      → Spec.step a result hs ≡ o
      → Stepped a result hs o
      → ((r : R) (hs' : List Bool) → Latest actions r (Spec.run actions r hs'))
      → Latest (a ∷ actions) result (Spec.run (a ∷ actions) result hs)
  unfolding Spec.run Latest
  after_step a actions result hs none e t k = rw (e, Spec.run, Latest) tt
  after_step a actions result hs (some (r, hs')) e (p, l) k =
      rw (e, Spec.run) (subst (λ x. Latest actions x (Spec.run actions r hs')) p (k r hs'))

  spec-Latest :
      (actions : List (Action R)) (result : R) (hs : List Bool)
      → Latest actions result (Spec.run actions result hs)
  unfolding Spec.run Latest
  spec-Latest [] result hs = refl
  spec-Latest (a ∷ actions) result hs =
      after_step a actions result hs (Spec.step a result hs) refl (step_steps a result hs)
        (λ r hs'. spec-Latest actions r hs')

  -- After fewer than 2 ^ 64 - 1 actions from `makeOperation` that do not fault, the count is that of
  -- the `Operation`s that hold the pointer. While there is one, the handler has not been called and
  -- the state is not released; once there is none, the state is released and the handler has been
  -- called once, with the result that was given last, or the default one where none was.
  pub called_once :
      (actions : List (Action R)) (default_result : R) {o : Operations R}
      → length actions + 1 < 2 ^ 64
      → run actions (make_operation default_result) ≡ some o
      → CalledOnce (latest actions default_result) o
  unfolding make_operation add_ref Latest
  called_once actions default_result {o} h e =
      go (Spec.run actions default_result (true ∷ []))
        (spec-Latest actions default_result (true ∷ []))
        (sym (operations_refine actions default_result (true ∷ []) h) ∙ e)
    where
      go :
          (r : Option (R × List Bool))
          → Latest actions default_result r
          → concrete r ≡ some o
          → CalledOnce (latest actions default_result) o
      go none l f = cc
      go (some (r, hs)) l f =
          subst (λ p. CalledOnce p o) l
            (subst (λ p. CalledOnce r p) (some-injective (operations r hs) o f)
              (operations-CalledOnce r hs))

  -- The same with the result that the state has.
  pub CalledOnce-last :
      (actions : List (Action R)) (default_result : R) {o : Operations R}
      → length actions + 1 < 2 ^ 64
      → run actions (make_operation default_result) ≡ some o
      → CalledOnce o.state.m_result o
  unfolding make_operation add_ref
  CalledOnce-last actions default_result {o} h e =
      go (Spec.run actions default_result (true ∷ []))
        (sym (operations_refine actions default_result (true ∷ []) h) ∙ e)
    where
      go : (r : Option (R × List Bool)) → concrete r ≡ some o → CalledOnce o.state.m_result o
      go none f = cc
      go (some (r, hs)) f =
          subst (λ p. CalledOnce p.state.m_result p) (some-injective (operations r hs) o f)
            (subst (λ q. CalledOnce q (operations r hs)) (sym (shared_result r (count hs)))
              (operations-CalledOnce r hs))
