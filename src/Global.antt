-- ===== src/Global.antt =====
-- `util::global` of include/util/global.hpp. An object is a number, given in the order of construction.
-- The pointers of an object are owned together: the object lives as long as one of them is held, and the
-- function's weak pointer locks while the object lives.
mod Single
mod Tests
use cxx_util.Prelude.{
  ℕ, zero, suc, ◌+◌, Bool, true, false, List, [], ◌∷◌, ◌++◌, Option, none, some, ◌==◌,
  if◌then◌else◌,
}

pub record Store : Type 0 where
  -- The objects made so far.
  pub made : ℕ
  -- What `wp` observes.
  pub observed : Option ℕ
  -- The shared pointers held, in the order they were given out.
  pub held : List ℕ

abbrev pub initial : Store
initial = record { made = 0; observed = none; held = [] }

-- Whether an object has an owner.
abbrev pub lives : ℕ → List ℕ → Bool
lives o [] = false
lives o (p ∷ ps) = if p == o then true else lives o ps

-- A list less the item at a place.
abbrev pub erase : ℕ → List ℕ → List ℕ
erase i [] = []
erase zero (p ∷ ps) = ps
erase (suc i) (p ∷ ps) = p ∷ erase i ps

-- `weak_ptr::lock`.
abbrev pub lock : Option ℕ → List ℕ → Option ℕ
lock none held = none
lock (some o) held = if lives o held then some o else none

-- Holding a pointer to an object more.
abbrev pub hold : ℕ → Store → Store
hold p s = record s { held = s.held ++ (p ∷ []) }

-- `std::make_shared<T>()` returns, or the constructor throws; then there is no pointer.
abbrev pub get : Bool → Store → Option ℕ → Option ℕ × Store
get constructs s (some o) = (some o, hold o s)
get constructs s none =
    if constructs
    then (some s.made, hold s.made (record s { made = s.made + 1; observed = some s.made }))
    else (none, s)

unfoldable pub global : Bool → Store → Option ℕ × Store
global constructs s = get constructs s (lock s.observed s.held)

-- A holder lets go of its pointer, the one at a place.
unfoldable pub release : ℕ → Store → Store
release i s = record s { held = erase i s.held }

pub data Action : Type 0 where
  access : Bool → Action
  let_go : ℕ → Action

unfoldable pub step : Store → Action → Store
step s (access constructs) = (global constructs s).1
step s (let_go i) = release i s

unfoldable pub run : List Action → Store → Store
run [] s = s
run (a ∷ l) s = run l (step s a)
