-- ===== src/Operation/Version1/Steps.antt =====
-- What `Operation`s of version 1 are in version 2, and each step of both.
use cxx_util.Prelude.{
  ℕ, ◌≡◌, refl, ap, ◌∙◌, Bool, true, false, List, [], ◌∷◌, ◌++◌, Option, none, some, get_elem?, set,
  ◌==◌, if◌then◌else◌,
}
use cxx_util.Prelude.Word.{sub_size}
use cxx_util.Operation
use cxx_util.Operation.Version1

module _ {B R : Type 0} (result : B → R) where
  abbrev pub with_result : Version1.OperationState B R → Operation.OperationState R
  with_result s = record {
    m_result = result s.base;
    m_refs = s.refs;
    released = s.released;
    called = s.called;
  }

  abbrev pub as_version2 : Version1.Operations B R → Operation.Operations R
  as_version2 o = record { state = with_result o.state; handles = o.handles }

  abbrev state_or_none : Option (Version1.OperationState B R) → Option (Operation.OperationState R)
  state_or_none none = none
  state_or_none (some s) = some (with_result s)

  abbrev pub version2_or_none : Option (Version1.Operations B R) → Option (Operation.Operations R)
  version2_or_none none = none
  version2_or_none (some o) = some (as_version2 o)

  abbrev pub action : Version1.Action B → Version1.Operations B R → Operation.Action R
  action (Version1.entering i) o = Operation.entering i
  action (Version1.copying i) o = Operation.copying i
  action (Version1.moving i) o = Operation.moving i
  action (Version1.destroying i) o = Operation.destroying i
  action (Version1.working i f) o = Operation.completing i (result (f o.state.base))
  action (Version1.leaving i c) o = Operation.leaving i c

  release-agree :
      (s : Version1.OperationState B R)
      → state_or_none (Version1.release result s) ≡ Operation.release (with_result s)
  unfolding Version1.release Operation.release
  release-agree s = by_tests s.released (sub_size s.refs 1 == 0)
    where
      A1 : Version1.OperationState B R
      A1 = record s {
        refs = sub_size s.refs 1;
        released = true;
        called = s.called ++ (result s.base ∷ []);
      }

      B1 : Version1.OperationState B R
      B1 = record s { refs = sub_size s.refs 1 }

      by_tests :
          (b c : Bool)
          → state_or_none (if b then none else if c then some A1 else some B1)
            ≡ (if b then none else if c then some (with_result A1) else some (with_result B1))
      by_tests true c = refl
      by_tests false true = refl
      by_tests false false = refl

  with_state-agree :
      (hs : List Bool) (s : Option (Version1.OperationState B R))
      → version2_or_none (Version1.with_state result hs s)
        ≡ Operation.with_state hs (state_or_none s)
  with_state-agree hs none = refl
  with_state-agree hs (some s) = refl

  if-agree :
      (b : Bool) (x y : Option (Version1.Operations B R)) {x' y' : Option (Operation.Operations R)}
      → version2_or_none x ≡ x'
      → version2_or_none y ≡ y'
      → version2_or_none (if b then x else y) ≡ (if b then x' else y')
  if-agree true x y p q = p
  if-agree false x y p q = q

  -- A failing test leaves no state.
  live-agree :
      (b : Bool) (o : Version1.Operations B R)
      → version2_or_none (if b then none else some o)
        ≡ Operation.with_state o.handles (if b then none else some (with_result o.state))
  live-agree true o = refl
  live-agree false o = refl

  module _ (i : ℕ) (o : Version1.Operations B R) where
    reset-agree : version2_or_none (Version1.reset result i o) ≡ Operation.reset i (as_version2 o)
    unfolding Version1.reset Operation.reset
    reset-agree = by_held (get_elem? o.handles i) refl
      where
        by_held :
            (h : Option Bool)
            → get_elem? o.handles i ≡ h
            → version2_or_none (Version1.reset result i o) ≡ Operation.reset i (as_version2 o)
        by_held none e = rw (e, Version1.reset, Operation.reset) refl
        by_held (some false) e = rw (e, Version1.reset, Operation.reset) refl
        by_held (some true) e =
            rw (e, Version1.reset, Operation.reset)
              (with_state-agree (set o.handles i false) (Version1.release result o.state)
                ∙ ap (Operation.with_state (set o.handles i false)) (release-agree o.state))

    copy-agree : version2_or_none (Version1.copy result i o) ≡ Operation.copy i (as_version2 o)
    unfolding Version1.copy Operation.copy Version1.add_ref Operation.add_ref
    copy-agree = by_held (get_elem? o.handles i) refl
      where
        by_held :
            (h : Option Bool)
            → get_elem? o.handles i ≡ h
            → version2_or_none (Version1.copy result i o) ≡ Operation.copy i (as_version2 o)
        by_held none e = rw (e, Version1.copy, Operation.copy) refl
        by_held (some false) e = rw (e, Version1.copy, Operation.copy) refl
        by_held (some true) e =
            rw (e, Version1.copy, Operation.copy) (if-agree o.state.released _ _ refl refl)

    move-agree : version2_or_none (Version1.move result i o) ≡ Operation.move i (as_version2 o)
    unfolding Version1.move Operation.move
    move-agree = by_held (get_elem? o.handles i) refl
      where
        by_held :
            (h : Option Bool)
            → get_elem? o.handles i ≡ h
            → version2_or_none (Version1.move result i o) ≡ Operation.move i (as_version2 o)
        by_held none e = rw (e, Version1.move, Operation.move) refl
        by_held (some b) e = rw (e, Version1.move, Operation.move) refl

    enter-agree : version2_or_none (Version1.enter result i o) ≡ Operation.enter i (as_version2 o)
    unfolding Version1.enter Operation.enter
    enter-agree = by_held (get_elem? o.handles i) refl
      where
        by_held :
            (h : Option Bool)
            → get_elem? o.handles i ≡ h
            → version2_or_none (Version1.enter result i o) ≡ Operation.enter i (as_version2 o)
        by_held none e = rw (e, Version1.enter, Operation.enter) refl
        by_held (some false) e = rw (e, Version1.enter, Operation.enter) refl
        by_held (some true) e =
            rw (e, Version1.enter, Operation.enter) (if-agree o.state.released _ _ refl refl)

    work-agree :
        (f : B → B)
        → version2_or_none (Version1.work result i f o)
          ≡ Operation.complete i (result (f o.state.base)) (as_version2 o)
    unfolding Version1.work Operation.complete
    work-agree f = by_held (get_elem? o.handles i) refl
      where
        by_held :
            (h : Option Bool)
            → get_elem? o.handles i ≡ h
            → version2_or_none (Version1.work result i f o)
              ≡ Operation.complete i (result (f o.state.base)) (as_version2 o)
        by_held none e = rw (e, Version1.work, Operation.complete) refl
        by_held (some false) e = rw (e, Version1.work, Operation.complete) refl
        by_held (some true) e =
            rw (e, Version1.work, Operation.complete)
              (live-agree o.state.released
                (record o { state = record o.state { base = f o.state.base } }))

  pub step-agree :
      (a : Version1.Action B) (o : Version1.Operations B R)
      → version2_or_none (Version1.step result a o) ≡ Operation.step (action a o) (as_version2 o)
  unfolding Version1.step Operation.step
  step-agree (Version1.entering i) o = enter-agree i o
  step-agree (Version1.copying i) o = copy-agree i o
  step-agree (Version1.moving i) o = move-agree i o
  step-agree (Version1.destroying i) o = reset-agree i o
  step-agree (Version1.working i f) o = work-agree i o f
  step-agree (Version1.leaving i c) o = if-agree c _ _ (reset-agree i o) refl
