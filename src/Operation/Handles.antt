-- ===== src/Operation/Handles.antt =====
-- The `Operation`s that hold a pointer, counted.
use cxx_util.Prelude.{
  ℕ, zero, suc, ◌+◌, ◌≤◌, ◌≡◌, ap, arith, Bool, true, false, List, [], ◌∷◌, ◌++◌, some, get_elem?,
  set, length, some-injective,
}

abbrev pub one_if : Bool → ℕ
one_if true = 1
one_if false = 0

abbrev pub count : List Bool → ℕ
count [] = 0
count (b ∷ hs) = one_if b + count hs

pub count-append : (hs : List Bool) (b : Bool) → count (hs ++ (b ∷ [])) ≡ count hs + one_if b
count-append [] b = omega arith
count-append (h ∷ hs) b = omega (arith, count-append hs b)

-- Letting one go takes one off.
pub count-set :
    (hs : List Bool) (i : ℕ) (b : Bool)
    → get_elem? hs i ≡ some b
    → count hs ≡ one_if b + count (set hs i false)
count-set [] i b e = cc
count-set (h ∷ hs) zero b e = omega (arith, ap one_if (some-injective h b e))
count-set (h ∷ hs) (suc i) b e = omega (arith, count-set hs i b e)

pub count-le_length : (hs : List Bool) → count hs ≤ length hs
count-le_length [] = omega arith
count-le_length (true ∷ hs) = omega (arith, count-le_length hs)
count-le_length (false ∷ hs) = omega (arith, count-le_length hs)
