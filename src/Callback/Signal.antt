-- ===== src/Callback/Signal.antt =====
-- `Signal` of include/util/callback.hpp, and the calls of what is connected to it.
use cxx_util.Prelude.{ℕ, ◌≡◌, refl, true, false, List, [], ◌∷◌, Option, none, some, get_elem?, set}
use cxx_util.Callback.{
  Callback, null_callback, copy, assign, wrapper, and_then, call, to_bool, bind_free, bind_member,
  bind_const_member,
}

and_then_assoc :
    {A B C : Type 0} (o : Option A) (f : A → Option B) (g : B → Option C)
    → and_then (and_then o f) g ≡ and_then o (λ a. and_then (f a) g)
and_then_assoc none f g = refl
and_then_assoc (some a) f g = refl

and_then-cong :
    {A B : Type 0} (o : Option A) {f g : A → Option B}
    → ((a : A) → f a ≡ g a)
    → and_then o f ≡ and_then o g
and_then-cong none h = refl
and_then-cong (some a) h = h a

module _ (T P : Type 0) where
  pub record Signal : Type 0 where
    pub m_callback : Callback T P (Unit {0})

  -- What a callback is bound to.
  pub data Target : Type 0 where
    nothing : Target
    function : (P → List T → Unit {0} × List T) → Target
    method : (T → P → Unit {0} × T) → ℕ → Target
    const_method : (T → P → Unit {0}) → ℕ → Target

  pub data Step : Type 0 where
    connecting : Target → Step
    emitting : P → Step

module _ {T P : Type 0} where
  abbrev pub initial : Signal T P
  initial = record { m_callback = null_callback }

  -- `operator()`.
  pub emit : Signal T P → P → List T → Option (List T)
  emit s p store = elim (to_bool s.m_callback) [
    | true ↦ and_then (call s.m_callback p store) (λ r. some r.1)
    | false ↦ some store
  ]

  -- The callback is passed by value.
  pub connect : Signal T P → Callback T P (Unit {0}) → Signal T P
  connect s callback = record { m_callback = assign s.m_callback (copy callback) }

  -- The callbacks that the macros make.
  abbrev pub bind : Target T P → Callback T P (Unit {0})
  bind nothing = null_callback
  bind (function f) = bind_free f
  bind (method f o) = bind_member f o
  bind (const_method f o) = bind_const_member f o

  pub run : List (Step T P) → Signal T P → List T → Option (List T)
  run [] s store = some store
  run (connecting t ∷ steps) s store = run steps (connect s (bind t)) store
  run (emitting p ∷ steps) s store = and_then (emit s p store) (run steps s)

  -- A call of the function itself.
  abbrev pub direct : Target T P → P → List T → Option (List T)
  direct nothing p store = some store
  direct (function f) p store = some (f p store).1
  direct (method f o) p store = and_then (get_elem? store o) (λ x. some (set store o (f x p).1))
  direct (const_method f o) p store = and_then (get_elem? store o) (λ x. some store)

  -- The steps with no callback: each emission calls the last target that was connected.
  unfoldable pub run_direct : List (Step T P) → Target T P → List T → Option (List T)
  run_direct [] t store = some store
  run_direct (connecting t' ∷ steps) t store = run_direct steps t' store
  run_direct (emitting p ∷ steps) t store = and_then (direct t p store) (run_direct steps t)

  emit-bind :
      (t : Target T P) (p : P) (store : List T)
      → emit (record { m_callback = bind t }) p store ≡ direct t p store
  unfolding emit to_bool call wrapper bind_free bind_member bind_const_member
  emit-bind nothing p store = refl
  emit-bind (function f) p store = refl
  emit-bind (method f o) p store = and_then_assoc (get_elem? store o) _ _
  emit-bind (const_method f o) p store = and_then_assoc (get_elem? store o) _ _

  connect-bind :
      (s : Signal T P) (t : Target T P) → connect s (bind t) ≡ record { m_callback = bind t }
  unfolding connect assign copy
  connect-bind s t = refl

  run-direct_of :
      (steps : List (Step T P)) (t : Target T P) (store : List T)
      → run steps (record { m_callback = bind t }) store ≡ run_direct steps t store
  unfolding run run_direct
  run-direct_of [] t store = refl
  run-direct_of (connecting t' ∷ steps) t store =
      rw (connect-bind (record { m_callback = bind t }) t') (run-direct_of steps t' store)
  run-direct_of (emitting p ∷ steps) t store =
      rw (emit-bind t p store, run)
        (and_then-cong (direct t p store) (λ store'. run-direct_of steps t store'))

  -- For any sequence of connections of bound or null callbacks and emissions, a new signal does what
  -- calling, at each emission, the function that was connected last does: nothing before the first
  -- connection or after a null callback.
  pub run-run_direct :
      (steps : List (Step T P)) (store : List T)
      → run steps initial store ≡ run_direct steps nothing store
  run-run_direct steps store = run-direct_of steps nothing store
