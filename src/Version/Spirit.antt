-- ===== src/Version/Spirit.antt =====
-- What src/version.cpp uses of Boost.Spirit: the parsers of Qi and the generators of Karma, and what is
-- documented of them. A parser takes a prefix of a text, or fails. The expectation operator is that of a
-- rule with an error handler that fails, as the grammar gives to each of its rules.
use cxx_util.Prelude.{
  ℕ, ◌^◌, ◌<◌, ◌≡◌, Bool, true, false, List, [], ◌∷◌, ◌++◌, Option, none, some, ◌⊎◌, inl, inr,
  length, ◌==◌,
}
use cxx_util.Prelude.Digits.{starts, decimal, is_digit}

abbrev pub Parser : Type 0 → Type 0
Parser A = List ℕ → Option (A × List ℕ)

pub record Qi : Type 1 where
  pub lit : ℕ → Parser (Unit {0})
  pub uint_ : Parser ℕ
  pub char_ : (ℕ → Bool) → Parser ℕ
  pub eoi : Parser (Unit {0})
  pub optional : (A : Type 0) → Parser A → Parser (Option A)
  pub plus : (A : Type 0) → Parser A → Parser (List A)
  pub separated : (A : Type 0) → Parser A → Parser (Unit {0}) → Parser (List A)
  pub alternative : (A B : Type 0) → Parser A → Parser B → Parser (A ⊎ B)
  pub expect : (A B : Type 0) → Parser A → Parser B → Parser (A × B)
  pub sequence : (A B : Type 0) → Parser A → Parser B → Parser (A × B)

-- `lit`, `uint_`, which reads all the digits there are, `char_` and `eoi`.
pub record Primitives (qi : Qi) : Type 0 where
  pub lit_same : (c : ℕ) (s : List ℕ) → qi.lit c (c ∷ s) ≡ some (tt, s)
  pub lit_other : (c : ℕ) (s : List ℕ) → starts (λ d. c == d) s ≡ false → qi.lit c s ≡ none
  pub uint_decimal :
      (n : ℕ) (s : List ℕ)
      → n < 2 ^ 32
      → starts is_digit s ≡ false
      → qi.uint_ (decimal n ++ s) ≡ some (n, s)
  pub uint_other : (s : List ℕ) → starts is_digit s ≡ false → qi.uint_ s ≡ none
  pub char_in : (p : ℕ → Bool) (c : ℕ) (s : List ℕ) → p c ≡ true → qi.char_ p (c ∷ s) ≡ some (c, s)
  pub char_other : (p : ℕ → Bool) (s : List ℕ) → starts p s ≡ false → qi.char_ p s ≡ none
  pub eoi_end : qi.eoi [] ≡ some (tt, [])
  pub eoi_more : (c : ℕ) (s : List ℕ) → qi.eoi (c ∷ s) ≡ none

-- `-p`, `p | q`, `p > q` and `p >> q`.
pub record Operators (qi : Qi) : Type 1 where
  pub optional_some :
      (A : Type 0) (p : Parser A) (s r : List ℕ) (a : A)
      → p s ≡ some (a, r)
      → qi.optional A p s ≡ some (some a, r)
  pub optional_none :
      (A : Type 0) (p : Parser A) (s : List ℕ) → p s ≡ none → qi.optional A p s ≡ some (none, s)
  pub first :
      (A B : Type 0) (p : Parser A) (q : Parser B) (s r : List ℕ) (a : A)
      → p s ≡ some (a, r)
      → qi.alternative A B p q s ≡ some (inl a, r)
  pub second :
      (A B : Type 0) (p : Parser A) (q : Parser B) (s r : List ℕ) (b : B)
      → p s ≡ none
      → q s ≡ some (b, r)
      → qi.alternative A B p q s ≡ some (inr b, r)
  pub expect_both :
      (A B : Type 0) (p : Parser A) (q : Parser B) (s r t : List ℕ) (a : A) (b : B)
      → p s ≡ some (a, r)
      → q r ≡ some (b, t)
      → qi.expect A B p q s ≡ some ((a, b), t)
  pub expect_none :
      (A B : Type 0) (p : Parser A) (q : Parser B) (s : List ℕ)
      → p s ≡ none
      → qi.expect A B p q s ≡ none
  pub sequence_both :
      (A B : Type 0) (p : Parser A) (q : Parser B) (s r t : List ℕ) (a : A) (b : B)
      → p s ≡ some (a, r)
      → q r ≡ some (b, t)
      → qi.sequence A B p q s ≡ some ((a, b), t)
  pub sequence_second :
      (A B : Type 0) (p : Parser A) (q : Parser B) (s r : List ℕ) (a : A)
      → p s ≡ some (a, r)
      → q r ≡ none
      → qi.sequence A B p q s ≡ none

-- `+p` and `p % q`, for parsers that take something.
pub record Repetitions (qi : Qi) : Type 1 where
  pub plus_one :
      (A : Type 0) (p : Parser A) (s r : List ℕ) (a : A)
      → p s ≡ some (a, r)
      → p r ≡ none
      → qi.plus A p s ≡ some (a ∷ [], r)
  pub plus_more :
      (A : Type 0) (p : Parser A) (s r t : List ℕ) (a : A) (l : List A)
      → p s ≡ some (a, r)
      → length r < length s
      → qi.plus A p r ≡ some (l, t)
      → qi.plus A p s ≡ some (a ∷ l, t)
  pub plus_none : (A : Type 0) (p : Parser A) (s : List ℕ) → p s ≡ none → qi.plus A p s ≡ none
  pub separated_one :
      (A : Type 0) (p : Parser A) (q : Parser (Unit {0})) (s r : List ℕ) (a : A)
      → p s ≡ some (a, r)
      → q r ≡ none
      → qi.separated A p q s ≡ some (a ∷ [], r)
  pub separated_more :
      (A : Type 0) (p : Parser A) (q : Parser (Unit {0})) (s r t u : List ℕ) (a : A) (l : List A)
      → p s ≡ some (a, r)
      → q r ≡ some (tt, t)
      → length t < length s
      → qi.separated A p q t ≡ some (l, u)
      → qi.separated A p q s ≡ some (a ∷ l, u)

-- A generator writes a text, or fails.
abbrev pub Generator : Type 0 → Type 0
Generator A = A → Option (List ℕ)

-- `after c g` is `c << g`, `separated g c` is `g % c`, and `format` writes three attributes by their
-- generators one after the other.
pub record Karma : Type 1 where
  pub uint_ : Generator ℕ
  pub string : Generator (List ℕ)
  pub optional : (A : Type 0) → Generator A → Generator (Option A)
  pub separated : (A : Type 0) → Generator A → ℕ → Generator (List A)
  pub after : (A : Type 0) → ℕ → Generator A → Generator A
  pub format : (A B C : Type 0) → Generator A → Generator B → Generator C → Generator (A × B × C)

pub record Generators (karma : Karma) : Type 1 where
  pub uint_decimal : (n : ℕ) → n < 2 ^ 32 → karma.uint_ n ≡ some (decimal n)
  pub string_same : (t : List ℕ) → karma.string t ≡ some t
  pub optional_none : (A : Type 0) (g : Generator A) → karma.optional A g none ≡ some []
  pub optional_some :
      (A : Type 0) (g : Generator A) (a : A) (s : List ℕ)
      → g a ≡ some s
      → karma.optional A g (some a) ≡ some s
  pub separated_one :
      (A : Type 0) (g : Generator A) (c : ℕ) (a : A) (s : List ℕ)
      → g a ≡ some s
      → karma.separated A g c (a ∷ []) ≡ some s
  pub separated_more :
      (A : Type 0) (g : Generator A) (c : ℕ) (a b : A) (l : List A) (s t : List ℕ)
      → g a ≡ some s
      → karma.separated A g c (b ∷ l) ≡ some t
      → karma.separated A g c (a ∷ b ∷ l) ≡ some (s ++ (c ∷ t))
  pub after_same :
      (A : Type 0) (c : ℕ) (g : Generator A) (a : A) (s : List ℕ)
      → g a ≡ some s
      → karma.after A c g a ≡ some (c ∷ s)
  pub format_all :
      (A B C : Type 0) (g : Generator A) (h : Generator B) (k : Generator C) (a : A) (b : B) (c : C)
      (s t u : List ℕ)
      → g a ≡ some s
      → h b ≡ some t
      → k c ≡ some u
      → karma.format A B C g h k (a, b, c) ≡ some (s ++ (t ++ u))
