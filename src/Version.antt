-- ===== src/Version.antt =====
-- `Version` of include/util/version.hpp and src/version.cpp: its comparisons, with those of vectors of
-- numbers that they call, and in Grammar its texts. The comparisons of `boost::optional`, of lists of
-- `boost::variant`s, are parameters. A string is a list of the numbers of its characters.
pub mod Order
pub mod Laws
pub mod Identifiers
pub mod Operators
pub mod Spirit
pub mod Grammar
pub mod Classes
pub mod Text
pub mod Parsing
pub mod Printing
pub mod RoundTrip
mod Engine
mod Tests
use cxx_util.Prelude.{
  ℕ, Bool, true, false, not, ◌&&◌, ◌||◌, List, [], ◌∷◌, Option, none, some, ltb, ◌==◌,
  if◌then◌else◌,
}

module _ {A : Type 0} where
  -- Of vectors and of strings.
  unfoldable pub equal : (A → A → Bool) → List A → List A → Bool
  equal eq [] [] = true
  equal eq [] (y ∷ ys) = false
  equal eq (x ∷ xs) [] = false
  equal eq (x ∷ xs) (y ∷ ys) = eq x y && equal eq xs ys

  unfoldable pub less : (A → A → Bool) → List A → List A → Bool
  less lt [] [] = false
  less lt [] (y ∷ ys) = true
  less lt (x ∷ xs) [] = false
  less lt (x ∷ xs) (y ∷ ys) =
      let rest = less lt xs ys in if lt x y then true else if lt y x then false else rest

  abbrev pub to_bool : Option A → Bool
  to_bool none = false
  to_bool (some a) = true

-- `boost::variant<unsigned, std::string>`.
pub data Identifier : Type 0 where
  number : ℕ → Identifier
  text : List ℕ → Identifier

pub record Version : Type 0 where
  pub numbers : List ℕ
  pub pre_release : Option (List Identifier)
  pub build_metadata : Option (List (List ℕ))

module _
    (less_pre_release equal_pre_release : Option (List Identifier)
      → Option (List Identifier)
      → Bool) where
  unfoldable pub equal_to : Version → Version → Bool
  equal_to a b = equal ◌==◌ a.numbers b.numbers && equal_pre_release a.pre_release b.pre_release

  -- The ternary operator on the pre-releases.
  abbrev pub before_release : Option (List Identifier) → Option (List Identifier) → Bool
  before_release a b =
      if less_pre_release a b then to_bool a && to_bool b else to_bool a && not (to_bool b)

  unfoldable pub less_than : Version → Version → Bool
  less_than a b =
      if equal ◌==◌ a.numbers b.numbers
      then before_release a.pre_release b.pre_release
      else less ltb a.numbers b.numbers

  unfoldable pub not_equal_to : Version → Version → Bool
  not_equal_to a b = not (equal_to a b)

  unfoldable pub greater : Version → Version → Bool
  greater a b = less_than b a

  unfoldable pub less_equal : Version → Version → Bool
  less_equal a b = less_than a b || equal_to a b

  unfoldable pub greater_equal : Version → Version → Bool
  greater_equal a b = greater a b || equal_to a b
