-- ===== src/Prelude/Count.antt =====
-- How often a number stands in a list.
use Prim.Native.Nat.{ℕ, ◌+◌}
use mathlib.Core.Path.{◌≡◌}
use mathlib.Core.List.{List, [], ◌∷◌, ◌++◌}
use native.Mathlib.Omega.{arith}
use cxx_util.Prelude.Tests.{◌==◌, if◌then◌else◌}

unfoldable pub one_at : ℕ → ℕ → ℕ
one_at x h = if h == x then 1 else 0

unfoldable pub count : ℕ → List ℕ → ℕ
count x [] = 0
count x (h ∷ hs) = one_at x h + count x hs

pub count-append : (x : ℕ) (l l' : List ℕ) → count x (l ++ l') ≡ count x l + count x l'
unfolding count
count-append x [] l' = omega arith
count-append x (h ∷ l) l' = omega (arith, count-append x l l')
