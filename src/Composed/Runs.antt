-- ===== src/Composed/Runs.antt =====
-- What the runs of a composed operation do.
use cxx_util.Prelude.{◌≡◌, refl, ap, ◌∙◌, Bool, true, false, List, [], ◌∷◌, Option, none, some}
use cxx_util.Composed.{
  Use, continuing, completing, made, invoked, Flight, continue_task, complete, use_op, use_all, op,
  start_op, resume, run,
}
use cxx_util.Composed.Spec
use cxx_util.Composed.Spec.{Outcome, waits, completed}

module _ {S A R : Type 0} where
  -- The task lives and its one pointer is in the continuation, or it was freed and the handler then
  -- called.
  abbrev pub flight : Outcome S A R → Flight S A R
  flight (waits task results cont) = record {
    task = some task;
    op_task = false;
    waiting = some (record { results = results; cont = cont });
    effects = made ∷ [];
  }
  flight (completed result) = record {
    task = none;
    op_task = false;
    waiting = none;
    effects = made ∷ invoked result ∷ [];
  }

  abbrev pub flight_or_none : Option (Outcome S A R) → Option (Flight S A R)
  flight_or_none none = none
  flight_or_none (some o) = some (flight o)

  -- Once the pointer is gone, any use fails its assertion.
  used_up :
      (cont : Bool) (u : Use S A R) (uses : List (Use S A R)) (f : Flight S A R)
      → f.op_task ≡ false
      → use_all cont (u ∷ uses) f ≡ none
  unfolding use_all use_op continue_task complete
  used_up cont (continuing results) uses f e = rw (e, use_all, use_op, continue_task) refl
  used_up cont (completing result) uses f e = rw (e, use_all, use_op, complete) refl

  module _ (body : S → List (Use S A R) × S) where
    op-outcome :
        (cont : Bool) (task : S)
        → op body cont task (made ∷ []) ≡ flight_or_none (Spec.start body cont task)
    unfolding op Spec.start use_all use_op continue_task complete
    op-outcome cont task = by_uses (body task).0 refl
      where
        by_uses :
            (uses : List (Use S A R))
            → (body task).0 ≡ uses
            → op body cont task (made ∷ []) ≡ flight_or_none (Spec.start body cont task)
        by_uses [] e = rw (e, op, Spec.start) refl
        by_uses (continuing results ∷ []) e = rw (e, op, Spec.start) refl
        by_uses (completing result ∷ []) e = rw (e, op, Spec.start) refl
        by_uses (continuing results ∷ u ∷ uses) e =
            rw
              (
                e,
                op,
                Spec.start,
                used_up cont u uses
                    (record {
                      task = some task;
                      op_task = false;
                      waiting = some (record { results = results; cont = cont });
                      effects = made ∷ [];
                    })
                    refl,
              )
              refl
        by_uses (completing result ∷ u ∷ uses) e =
            rw (e, op, Spec.start, used_up cont u uses (flight (completed result)) refl) refl

    resume-outcome :
        (args : A) (o : Outcome S A R)
        → resume body args (flight o) ≡ flight_or_none (Spec.resume body args o)
    unfolding resume Spec.resume
    resume-outcome args (waits task results cont) = op-outcome true (results task args)
    resume-outcome args (completed result) = refl

    run-outcome :
        (calls : List A) (o : Outcome S A R)
        → run body calls (flight o) ≡ flight_or_none (Spec.run body calls o)
    unfolding run Spec.run
    run-outcome [] o = refl
    run-outcome (args ∷ calls) o = by_resume (Spec.resume body args o) refl (run-outcome calls)
      where
        by_resume :
            (r : Option (Outcome S A R))
            → Spec.resume body args o ≡ r
            → ((o' : Outcome S A R)
                → run body calls (flight o') ≡ flight_or_none (Spec.run body calls o'))
            → run body (args ∷ calls) (flight o) ≡ flight_or_none (Spec.run body (args ∷ calls) o)
        by_resume none e k = rw (resume-outcome args o ∙ ap flight_or_none e, e, run, Spec.run) refl
        by_resume (some o') e k =
            rw (resume-outcome args o ∙ ap flight_or_none e, e, run, Spec.run) (k o')

    -- An operation fails an assertion just where its task, called at the start or with a result, does
    -- not use its `op` exactly once, or where a result comes after its completion. Else it is as its
    -- promise says: it waits, with the task in memory, its continuation flagged as one if it was resumed
    -- or the handler is one; or it has no task and has invoked the pointer with the result, once.
    pub op_refines :
        (is_continuation : Bool) (task : S) (calls : List A)
        → elim (start_op body is_continuation task) [ none ↦ none | some f ↦ run body calls f ]
          ≡ flight_or_none (elim (Spec.start body is_continuation task) [
            | none ↦ none
            | some o ↦ Spec.run body calls o
          ])
    unfolding start_op
    op_refines is_continuation task calls =
        rw (op-outcome is_continuation task) (by_start (Spec.start body is_continuation task))
      where
        by_start :
            (r : Option (Outcome S A R))
            → elim (flight_or_none r) [ none ↦ none | some f ↦ run body calls f ]
              ≡ flight_or_none (elim r [ none ↦ none | some o ↦ Spec.run body calls o ])
        by_start none = refl
        by_start (some o) = run-outcome calls o
