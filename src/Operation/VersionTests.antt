-- ===== src/Operation/VersionTests.antt =====
-- Version 1 over a base class that is a number, which is its result, and a fork of version 2.
use cxx_util.Prelude.{ℕ, ◌+◌, ◌≡◌, refl, true, false, List, [], ◌∷◌, ◌++◌, some}
use cxx_util.Operation
use cxx_util.Operation.{
  make_operation, run, completing, moving, destroying, run_child, async_dispatch, call,
}
use cxx_util.Operation.Version1
use cxx_util.Operation.Version1.Steps.{version2_or_none}
use cxx_util.Operation.Versions.{actions_of, made, versions_agree}

-- It moves into a wait, changes the state, resumes and ends.
abbrev waits : List (Version1.Action ℕ)
waits =
    Version1.entering 0
    ∷ Version1.moving 0
    ∷ Version1.leaving 0 false
    ∷ Version1.entering 1
    ∷ Version1.working 1 (λ n. n + 7)
    ∷ Version1.leaving 1 true
    ∷ Version1.destroying 1
    ∷ Version1.destroying 0
    ∷ []

abbrev same : ℕ → ℕ
same n = n

abbrev waited : Version1.Operations ℕ ℕ
waited = record {
  state = record { base = 12; refs = 0; released = true; called = 12 ∷ [] };
  handles = false ∷ false ∷ [];
}

waits-waited : Version1.run same waits (made same 5) ≡ some waited
unfolding Version1.run Version1.step Version1.enter Version1.move Version1.work Version1.reset
    Version1.release
waits-waited = refl

versions_agree_example :
    (o : Version1.Operations ℕ ℕ) × (Version1.make_operation same 5 ≡ some o)
    × (version2_or_none same (Version1.run same waits o)
        ≡ run (actions_of same waits o) (make_operation 5))
versions_agree_example = versions_agree same 5 waits

-- The child runs to its end, and then the parent goes on and completes.
forks : List (Operation.Action ℕ)
forks =
    async_dispatch
      (λ i. call i (run_child i 1 (completing 1 3 ∷ []) true ++ (completing 0 4 ∷ [])) true)

abbrev forked : Operation.Operations ℕ
forked = record {
  state = record { m_result = 4; m_refs = 0; released = true; called = 4 ∷ [] };
  handles = false ∷ false ∷ [];
}

forks-forked : run forks (make_operation 125) ≡ some forked
unfolding forks run Operation.step Operation.enter Operation.copy Operation.reset Operation.complete
    Operation.release make_operation Operation.add_ref
forks-forked = refl
