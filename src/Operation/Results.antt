-- ===== src/Operation/Results.antt =====
-- The operations of the code against the promise of `Operation`.
use cxx_util.Prelude.{
  ℕ, zero, suc, ◌+◌, ◌^◌, ◌<◌, ◌≤◌, ◌≡◌, refl, sym, ap, ◌∙◌, arith, Bool, true, false, List, [],
  ◌∷◌, ◌++◌, Option, none, some, get_elem?, set, length, length-append, length-set, some-injective,
}
use cxx_util.Operation.{
  Action, entering, copying, moving, destroying, completing, leaving, reset, copy, move, complete,
  enter, step, run,
}
use cxx_util.Operation.Handles.{one_if, count, count-append, count-set, count-le_length}
use cxx_util.Operation.Spec
use cxx_util.Operation.Invariant.{
  counted, operations, concrete, reset-none, reset-false, reset-true, copy-none, copy-false,
  copy-true, move-none, move-some, complete-some, enter-some, complete-none, complete-false,
  enter-none, enter-false,
}

set-same : (hs : List Bool) (i : ℕ) (b : Bool) → get_elem? hs i ≡ some b → set hs i b ≡ hs
set-same [] i b e = refl
set-same (h ∷ hs) zero b e = ap (λ x. x ∷ hs) (sym (some-injective h b e))
set-same (h ∷ hs) (suc i) b e = ap (λ l. h ∷ l) (set-same hs i b e)

module _ {R : Type 0} (result : R) (hs : List Bool) (i : ℕ) (bound : suc (length hs) < 2 ^ 64) where
  positive : get_elem? hs i ≡ some true → count hs ≡ suc (count (set hs i false))
  positive e = omega (arith, count-set hs i true e)

  -- One of them holds, so the count is positive.
  holds :
      get_elem? hs i ≡ some true
      → counted result hs (count hs) ≡ counted result hs (suc (count (set hs i false)))
  holds e = ap (counted result hs) (positive e)

  small : suc (count (set hs i false)) < 2 ^ 64
  small = omega (arith, count-le_length (set hs i false), length-set hs i false)

  two_small : get_elem? hs i ≡ some true → suc (suc (count (set hs i false))) < 2 ^ 64
  two_small e = omega (arith, positive e, count-le_length hs)

  count_copied :
      (b : Bool)
      → get_elem? hs i ≡ some b
      → count (hs ++ (b ∷ [])) ≡ one_if b + (one_if b + count (set hs i false))
  count_copied b e = omega (arith, count-append hs b, count-set hs i b e)

  count_moved : (b : Bool) → get_elem? hs i ≡ some b → count (set hs i false ++ (b ∷ [])) ≡ count hs
  count_moved b e = omega (arith, count-append (set hs i false) b, count-set hs i b e)

  reset_refines :
      (o : Option Bool)
      → get_elem? hs i ≡ o
      → reset i (operations result hs) ≡ concrete (Spec.let_go hs i result)
  reset_refines none e = rw (e, concrete) (reset-none result hs i (count hs) e)
  reset_refines (some false) e =
      rw (e, concrete)
        (reset-false result hs i (count hs) e
          ∙ ap (λ l. some (operations result l)) (sym (set-same hs i false e)))
  reset_refines (some true) e =
      rw (e, concrete) (ap (reset i) (holds e) ∙ reset-true result hs i _ e small)

  copy_refines :
      (o : Option Bool)
      → get_elem? hs i ≡ o
      → copy i (operations result hs) ≡ concrete (Spec.step (copying i) result hs)
  unfolding Spec.step
  copy_refines none e = rw (e, concrete) (copy-none result hs i (count hs) e)
  copy_refines (some false) e =
      rw (e, concrete)
        (copy-false result hs i (count hs) e
          ∙ ap (λ n. some (counted result (hs ++ (false ∷ [])) n))
              (sym (count-append hs false ∙ omega arith)))
  copy_refines (some true) e =
      rw (e, concrete)
        (ap (copy i) (holds e)
          ∙ copy-true result hs i _ e (two_small e)
          ∙ ap (λ n. some (counted result (hs ++ (true ∷ [])) n))
              {x = suc (suc (count (set hs i false)))} (sym (count_copied true e ∙ omega arith)))

  move_refines :
      (o : Option Bool)
      → get_elem? hs i ≡ o
      → move i (operations result hs) ≡ concrete (Spec.step (moving i) result hs)
  unfolding Spec.step
  move_refines none e = rw (e, concrete) (move-none result hs i (count hs) e)
  move_refines (some b) e =
      rw (e, concrete)
        (move-some result hs i (count hs) b e
          ∙ ap (λ n. some (counted result (set hs i false ++ (b ∷ [])) n)) (sym (count_moved b e)))

  complete_refines :
      (r : R) (o : Option Bool)
      → get_elem? hs i ≡ o
      → complete i r (operations result hs) ≡ concrete (Spec.held hs i r)
  complete_refines r none e = rw (e, concrete) (complete-none result hs i (count hs) r e)
  complete_refines r (some false) e = rw (e, concrete) (complete-false result hs i (count hs) r e)
  complete_refines r (some true) e =
      rw (e, concrete)
        (ap (complete i r) (holds e)
          ∙ complete-some result hs i _ r e
          ∙ ap (λ n. some (counted r hs n)) (sym (positive e)))

  enter_refines :
      (o : Option Bool)
      → get_elem? hs i ≡ o
      → enter i (operations result hs) ≡ concrete (Spec.held hs i result)
  enter_refines none e = rw (e, concrete) (enter-none result hs i (count hs) e)
  enter_refines (some false) e = rw (e, concrete) (enter-false result hs i (count hs) e)
  enter_refines (some true) e =
      rw (e, concrete)
        (ap (enter i) (holds e)
          ∙ enter-some result hs i _ e
          ∙ ap (λ n. some (counted result hs n)) (sym (positive e)))

module _ {R : Type 0} where
  -- One step of the code is one step of the promise.
  step_refines :
      (a : Action R) (result : R) (hs : List Bool)
      → suc (length hs) < 2 ^ 64
      → step a (operations result hs) ≡ concrete (Spec.step a result hs)
  unfolding step Spec.step
  step_refines (entering i) result hs h = enter_refines result hs i h (get_elem? hs i) refl
  step_refines (copying i) result hs h = copy_refines result hs i h (get_elem? hs i) refl
  step_refines (moving i) result hs h = move_refines result hs i h (get_elem? hs i) refl
  step_refines (destroying i) result hs h = reset_refines result hs i h (get_elem? hs i) refl
  step_refines (completing i r) result hs h = complete_refines result hs i h r (get_elem? hs i) refl
  step_refines (leaving i true) result hs h = reset_refines result hs i h (get_elem? hs i) refl
  step_refines (leaving i false) result hs h = refl

  abbrev pub latest_of : Action R → R → R
  latest_of (completing i r) result = r
  latest_of a result = result

  -- The result that was given last, or the default one.
  abbrev pub latest : List (Action R) → R → R
  latest [] result = result
  latest (a ∷ actions) result = latest actions (latest_of a result)

  -- A step of the promise makes at most one holder, and keeps or gives the result.
  abbrev pub Stepped : Action R → R → List Bool → Option (R × List Bool) → Type 0
  Stepped a result hs none = Unit {0}
  Stepped a result hs (some r) = (r.0 ≡ latest_of a result) × (length r.1 ≤ suc (length hs))

  module _ (hs : List Bool) (i : ℕ) (result : R) where
    held_steps :
        (o : Option Bool)
        → get_elem? hs i ≡ o
        → Stepped (entering i) result hs (Spec.held hs i result)
    held_steps none e = rw (e, Stepped) tt
    held_steps (some false) e = rw (e, Stepped) tt
    held_steps (some true) e = rw (e, Stepped) (refl, omega arith)

    let_go_steps :
        (o : Option Bool)
        → get_elem? hs i ≡ o
        → Stepped (destroying i) result hs (Spec.let_go hs i result)
    let_go_steps none e = rw (e, Stepped) tt
    let_go_steps (some b) e = rw (e, Stepped) (refl, omega (arith, length-set hs i false))

    copy_steps :
        (o : Option Bool)
        → get_elem? hs i ≡ o
        → Stepped (copying i) result hs (Spec.step (copying i) result hs)
    unfolding Spec.step
    copy_steps none e = rw (e, Stepped) tt
    copy_steps (some b) e = rw (e, Stepped) (refl, omega (arith, length-append hs (b ∷ [])))

    move_steps :
        (o : Option Bool)
        → get_elem? hs i ≡ o
        → Stepped (moving i) result hs (Spec.step (moving i) result hs)
    unfolding Spec.step
    move_steps none e = rw (e, Stepped) tt
    move_steps (some b) e =
        rw (e, Stepped)
          (refl, omega (arith, length-append (set hs i false) (b ∷ []), length-set hs i false))

  pub step_steps :
      (a : Action R) (result : R) (hs : List Bool) → Stepped a result hs (Spec.step a result hs)
  unfolding Spec.step
  step_steps (entering i) result hs = held_steps hs i result (get_elem? hs i) refl
  step_steps (copying i) result hs = copy_steps hs i result (get_elem? hs i) refl
  step_steps (moving i) result hs = move_steps hs i result (get_elem? hs i) refl
  step_steps (destroying i) result hs = let_go_steps hs i result (get_elem? hs i) refl
  step_steps (completing i r) result hs = held_steps hs i r (get_elem? hs i) refl
  step_steps (leaving i true) result hs = let_go_steps hs i result (get_elem? hs i) refl
  step_steps (leaving i false) result hs = (refl, omega arith)

  run-step :
      (a : Action R) (actions : List (Action R)) (result : R) (hs : List Bool)
      (o : Option (R × List Bool))
      → Spec.step a result hs ≡ o
      → Stepped a result hs o
      → suc (length actions + length hs) < 2 ^ 64
      → ((r : R) (hs' : List Bool)
          → length actions + length hs' < 2 ^ 64
          → run actions (operations r hs') ≡ concrete (Spec.run actions r hs'))
      → run (a ∷ actions) (operations result hs) ≡ concrete (Spec.run (a ∷ actions) result hs)
  unfolding run Spec.run
  run-step a actions result hs none e t h k =
      rw (step_refines a result hs (omega arith), e, run, Spec.run, concrete) refl
  run-step a actions result hs (some (r, hs')) e (p, l) h k =
      rw (step_refines a result hs (omega arith), e, run, Spec.run, concrete)
        (k r hs' (omega arith))

  -- When the actions and the `Operation`s at their start are together fewer than 2 ^ 64, the code faults
  -- where the promise does, and else leaves the state that belongs to the promise's result and
  -- holders: its count is that of the holders, and once there is none, it has been released and its
  -- handler has been called, once, with the result.
  pub operations_refine :
      (actions : List (Action R)) (result : R) (hs : List Bool)
      → length actions + length hs < 2 ^ 64
      → run actions (operations result hs) ≡ concrete (Spec.run actions result hs)
  unfolding run Spec.run
  operations_refine [] result hs h = refl
  operations_refine (a ∷ actions) result hs h =
      run-step a actions result hs (Spec.step a result hs) refl (step_steps a result hs)
        (omega arith) (λ r hs' l. operations_refine actions r hs' l)
