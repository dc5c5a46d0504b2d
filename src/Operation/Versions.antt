-- ===== src/Operation/Versions.antt =====
-- The two versions of `Operation`. That of namespace v1 asks the base class for the result at the
-- end; a run of it has a run of the other, which is told the result at each change.
use cxx_util.Prelude.{
  suc, ◌+◌, ◌^◌, ◌<◌, ◌≤◌, ◌≡◌, refl, sym, ap, ◌∙◌, arith, true, false, List, [], ◌∷◌, Option, none,
  some, length, subst, some-injective,
}
use cxx_util.Operation
use cxx_util.Operation.Once.{CalledOnce, CalledOnce-last}
use cxx_util.Operation.Version1
use cxx_util.Operation.Version1.Steps.{as_version2, version2_or_none, action, step-agree}

module _ {B R : Type 0} (result : B → R) where
  -- The actions of version 2 on the way of a run of version 1.
  unfoldable pub actions_of :
      List (Version1.Action B) → Version1.Operations B R → List (Operation.Action R)
  actions_of [] o = []
  actions_of (a ∷ actions) o =
      action result a o
      ∷ elim (Version1.step result a o) [ none ↦ [] | some o' ↦ actions_of actions o' ]

  -- A run of version 1 and the run of version 2 that is told the results end alike.
  run-agree :
      (actions : List (Version1.Action B)) (o : Version1.Operations B R)
      → version2_or_none result (Version1.run result actions o)
        ≡ Operation.run (actions_of actions o) (as_version2 result o)
  unfolding Version1.run Operation.run actions_of
  run-agree [] o = refl
  run-agree (a ∷ actions) o = by_step (Version1.step result a o) refl (run-agree actions)
    where
      by_step :
          (s : Option (Version1.Operations B R))
          → Version1.step result a o ≡ s
          → ((o' : Version1.Operations B R)
              → version2_or_none result (Version1.run result actions o')
                ≡ Operation.run (actions_of actions o') (as_version2 result o'))
          → version2_or_none result (Version1.run result (a ∷ actions) o)
            ≡ Operation.run (actions_of (a ∷ actions) o) (as_version2 result o)
      by_step none e k =
          rw
            (
              e,
              sym (step-agree result a o) ∙ ap (version2_or_none result) e,
              Version1.run,
              actions_of,
              Operation.run,
            )
            refl
      by_step (some o') e k =
          rw
            (
              e,
              sym (step-agree result a o) ∙ ap (version2_or_none result) e,
              Version1.run,
              actions_of,
              Operation.run,
            )
            (rw (e) (k o'))

  length-actions_of :
      (actions : List (Version1.Action B)) (o : Version1.Operations B R)
      → length (actions_of actions o) ≤ length actions
  unfolding actions_of
  length-actions_of [] o = omega arith
  length-actions_of (a ∷ actions) o = by_step (Version1.step result a o) (length-actions_of actions)
    where
      by_step :
          (s : Option (Version1.Operations B R))
          → ((o' : Version1.Operations B R) → length (actions_of actions o') ≤ length actions)
          → suc (length (elim s [ none ↦ [] | some o' ↦ actions_of actions o' ]))
            ≤ suc (length actions)
      by_step none k = omega arith
      by_step (some o') k = omega (arith, k o')

  -- What `makeOperation` returns.
  abbrev pub made : B → Version1.Operations B R
  made b = record {
    state = record { base = b; refs = 1; released = false; called = [] };
    handles = true ∷ [];
  }

  make_operation-made : (b : B) → Version1.make_operation result b ≡ some (made b)
  unfolding Version1.make_operation Version1.make_operation_state Version1.add_ref Version1.release
  make_operation-made b = refl

  -- From `makeOperation` on, a run of version 1 ends as the run of version 2 does that starts with the
  -- result of the base class as the default, and gets the base class's result at each of its changes.
  pub versions_agree :
      (b : B) (actions : List (Version1.Action B))
      → (o : Version1.Operations B R) × (Version1.make_operation result b ≡ some o)
        × (version2_or_none result (Version1.run result actions o)
            ≡ Operation.run (actions_of actions o) (Operation.make_operation (result b)))
  unfolding Operation.make_operation Operation.add_ref
  versions_agree b actions = (made b, make_operation-made b, run-agree actions (made b))

  -- After fewer than 2 ^ 64 - 1 actions from `makeOperation` that do not fault, the
  -- handler of version 1 has been called once no `Operation` holds the pointer, with the base class's
  -- result, and not before; the state is released then, and the count is that of the pointers.
  pub CalledOnce-with_result :
      (b : B) (actions : List (Version1.Action B)) {o o' : Version1.Operations B R}
      → length actions + 1 < 2 ^ 64
      → Version1.make_operation result b ≡ some o
      → Version1.run result actions o ≡ some o'
      → CalledOnce (result o'.state.base) (as_version2 result o')
  unfolding Operation.make_operation Operation.add_ref
  CalledOnce-with_result b actions {o} {o'} h m e =
      CalledOnce-last (actions_of actions (made b)) (result b)
        (omega (arith, length-actions_of actions (made b)))
        (sym (run-agree actions (made b))
          ∙ ap (version2_or_none result)
              (subst (λ p. Version1.run result actions p ≡ some o') (sym (is_made)) e))
    where
      is_made : made b ≡ o
      is_made = some-injective (made b) o (sym (make_operation-made b) ∙ m)
