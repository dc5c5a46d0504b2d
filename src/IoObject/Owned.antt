-- ===== src/IoObject/Owned.antt =====
-- Which object has an implementation, and when it is closed and given up. `count_owners` counts the
-- pointers of I/O objects, and no other owner.
use cxx_util.Prelude.{
  ℕ, zero, suc, ◌+◌, ◌≤◌, ◌≡◌, refl, ap, arith, List, [], ◌∷◌, ◌++◌, Option, none, some,
  some-injective, get_elem?, set, ltb, if◌then◌else◌,
}
use cxx_util.Prelude.Count.{one_at, count, count-append}
use cxx_util.IoObject.{
  Objects, Action, constructing, moving, closing, destroying, initial, construct, move_construct,
  close, close_or_throw, destroy, step, run,
}

abbrev owns : ℕ → Option ℕ → ℕ
owns m none = 0
owns m (some k) = one_at m k

-- How many objects have the implementation.
unfoldable pub count_owners : ℕ → List (Option ℕ) → ℕ
count_owners m [] = 0
count_owners m (o ∷ os) = owns m o + count_owners m os

-- An implementation that was made is that of one object, or else one object has reset its pointer to
-- it, once; no other number is. It was closed as often as a pointer to it was reset, or more often.
abbrev pub IsOwned : Objects → Type 0
IsOwned o =
    (m : ℕ)
    → (count_owners m o.implementations + count m o.resets ≡ (if ltb m o.next then 1 else 0))
      × (count m o.resets ≤ count m o.closes)

abbrev pub HasOwned : Option Objects → Type 0
HasOwned none = Unit {0}
HasOwned (some o) = IsOwned o

module _ (m : ℕ) where
  count_owners-append :
      (os : List (Option ℕ)) (o : Option ℕ)
      → count_owners m (os ++ (o ∷ [])) ≡ count_owners m os + owns m o
  unfolding count_owners
  count_owners-append [] o = omega arith
  count_owners-append (o' ∷ os) o = omega (arith, count_owners-append os o)

  pub count_owners-set :
      (os : List (Option ℕ)) (i : ℕ) (o : Option ℕ)
      → get_elem? os i ≡ some o
      → count_owners m os ≡ owns m o + count_owners m (set os i none)
  unfolding count_owners
  count_owners-set [] i o e = cc
  count_owners-set (o' ∷ os) zero o e = omega (arith, ap (owns m) (some-injective o' o e))
  count_owners-set (o' ∷ os) (suc i) o e = omega (arith, count_owners-set os i o e)

next_made : (m n : ℕ) → (if ltb m n then 1 else 0) + one_at m n ≡ (if ltb m (n + 1) then 1 else 0)
unfolding one_at
next_made m n = ground arith

construct-IsOwned : (o : Objects) → IsOwned o → IsOwned (construct o)
unfolding construct
construct-IsOwned o k m = (
  omega (arith, (k m).0, count_owners-append m o.implementations (some o.next), next_made m o.next),
  (k m).1,
)

move_construct-HasOwned : (i : ℕ) (o : Objects) → IsOwned o → HasOwned (move_construct i o)
unfolding move_construct
move_construct-HasOwned i o k = by_object (get_elem? o.implementations i) refl
  where
    by_object :
        (impl : Option (Option ℕ))
        → get_elem? o.implementations i ≡ impl
        → HasOwned (move_construct i o)
    by_object none e = rw (e, move_construct) tt
    by_object (some impl) e =
        rw (e, move_construct)
          (λ m. (
            omega (
              arith,
              (k m).0,
              count_owners-append m (set o.implementations i none) impl,
              count_owners-set m o.implementations i impl e,
            ),
            (k m).1,
          ))

module _ (impl_close : List ℕ → ℕ → ℕ) where
  close-IsOwned : (impl : Option ℕ) (o : Objects) → IsOwned o → IsOwned (close impl_close impl o).0
  close-IsOwned none o k m = k m
  close-IsOwned (some x) o k m = ((k m).0, omega (arith, (k m).1, count-append m o.closes (x ∷ [])))

  closing-HasOwned : (i : ℕ) (o : Objects) → IsOwned o → HasOwned (step impl_close (closing i) o)
  unfolding step close_or_throw
  closing-HasOwned i o k = by_object (get_elem? o.implementations i) refl
    where
      by_object :
          (impl : Option (Option ℕ))
          → get_elem? o.implementations i ≡ impl
          → HasOwned (step impl_close (closing i) o)
      by_object none e = rw (e, step, close_or_throw) tt
      by_object (some impl) e = rw (e, step, close_or_throw) (close-IsOwned impl o k)

  destroy-HasOwned : (i : ℕ) (o : Objects) → IsOwned o → HasOwned (destroy impl_close i o)
  unfolding destroy count
  destroy-HasOwned i o k = by_object (get_elem? o.implementations i) refl
    where
      by_object :
          (impl : Option (Option ℕ))
          → get_elem? o.implementations i ≡ impl
          → HasOwned (destroy impl_close i o)
      by_object none e = rw (e, destroy) tt
      by_object (some none) e = rw (e, destroy) k
      by_object (some (some x)) e =
          rw (e, destroy)
            (λ m. (
              omega (
                arith,
                (k m).0,
                count-append m o.resets (x ∷ []),
                count_owners-set m o.implementations i (some x) e,
              ),
              omega (
                arith,
                (k m).1,
                count-append m o.resets (x ∷ []),
                count-append m o.closes (x ∷ []),
              ),
            ))

  step-HasOwned : (a : Action) (o : Objects) → IsOwned o → HasOwned (step impl_close a o)
  unfolding step
  step-HasOwned constructing o k = construct-IsOwned o k
  step-HasOwned (moving i) o k = move_construct-HasOwned i o k
  step-HasOwned (closing i) o k = closing-HasOwned i o k
  step-HasOwned (destroying i) o k = destroy-HasOwned i o k

  run-HasOwned :
      (actions : List Action) (o : Objects) → IsOwned o → HasOwned (run impl_close actions o)
  unfolding run
  run-HasOwned [] o k = k
  run-HasOwned (a ∷ actions) o k =
      by_step (step impl_close a o) (step-HasOwned a o k) (run-HasOwned actions)
    where
      by_step :
          (r : Option Objects)
          → HasOwned r
          → ((o' : Objects) → IsOwned o' → HasOwned (run impl_close actions o'))
          → HasOwned (elim r [ none ↦ none | some o' ↦ run impl_close actions o' ])
      by_step none h rest = tt
      by_step (some o') h rest = rest o' h

  -- Unless a null or missing object is used, after any constructions, moves, closings and destructions
  -- of I/O objects each implementation that was made is that of one object, or else one object has
  -- reset its pointer to it, once, and no other is; and it was closed at least as often as a pointer to it
  -- was reset.
  pub objects-IsOwned : (actions : List Action) → HasOwned (run impl_close actions initial)
  unfolding count count_owners
  objects-IsOwned actions = run-HasOwned actions initial (λ m. (ground arith, omega arith))
