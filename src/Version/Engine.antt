-- ===== src/Version/Engine.antt =====
-- Parsers and generators that behave as src/version.cpp expects those of Boost.Spirit to, so that the
-- laws of Spirit.antt can hold.
mod Laws
mod Tests
use cxx_util.Prelude.{
  ℕ, zero, suc, ◌+◌, ◌-◌, ◌*◌, ◌/◌, ◌%◌, ◌^◌, ◌<◌, ◌≡◌, refl, sym, ap, ◌∙◌, arith, Bool, true,
  false, false≢true, List, [], ◌∷◌, ◌++◌, Option, none, some, Option-cases, ◌⊎◌, inl, inr, length,
  ltb, lt→ltb, ◌==◌, if◌then◌else◌,
}
use cxx_util.Prelude.Digits.{
  starts, digit, is_digit, digits_of, digits_small, digits_big, split_ten, decimal, decimal-starts,
}
use cxx_util.Version.Spirit.{
  Parser, Qi, Primitives, Operators, Repetitions, Generator, Karma, Generators,
}

lit : ℕ → Parser (Unit {0})
lit c [] = none
lit c (d ∷ s) = if c == d then some (tt, s) else none

char_ : (ℕ → Bool) → Parser ℕ
char_ p [] = none
char_ p (c ∷ s) = if p c then some (c, s) else none

eoi : Parser (Unit {0})
eoi [] = some (tt, [])
eoi (c ∷ s) = none

-- The value of the digits, and what follows them.
scan : ℕ → List ℕ → ℕ × List ℕ
scan n [] = (n, [])
scan n (c ∷ s) = let rest = scan (n * 10 + (c - b'0')) s in if is_digit c then rest else (n, c ∷ s)

below : ℕ × List ℕ → Option (ℕ × List ℕ)
below r = if ltb r.0 (2 ^ 32) then some r else none

uint_ : Parser ℕ
uint_ s = if starts is_digit s then below (scan 0 s) else none

module _ (A : Type 0) where
  continue : A → List ℕ → Option (List A × List ℕ) → Option (List A × List ℕ)
  continue a r none = some (a ∷ [], r)
  continue a r (some (l, t)) = some (a ∷ l, t)

  -- Another `p` after what `again` takes, as long as the text gets shorter.
  repeated : (f : ℕ) (p : Parser A) (again : List ℕ → Option (List ℕ)) → Parser (List A)
  repeated zero p again s = none
  repeated (suc f) p again s = elim (p s) [
    | none ↦ none
    | some ar ↦ elim (again ar.1) [
      | none ↦ some (ar.0 ∷ [], ar.1)
      | some t ↦
          let rest = repeated f p again t in
          if ltb (length t) (length s) then continue ar.0 ar.1 rest else some (ar.0 ∷ [], ar.1)
    ]
  ]

  optional : Parser A → Parser (Option A)
  optional p s = elim (p s) [ none ↦ some (none, s) | some ar ↦ some (some ar.0, ar.1) ]

abbrev plus : (A : Type 0) → Parser A → Parser (List A)
plus A p s = repeated A (suc (length s)) p (λ r. some r) s

-- What the separator leaves.
abbrev left_by : Parser (Unit {0}) → List ℕ → Option (List ℕ)
left_by q r = elim (q r) [ none ↦ none | some ur ↦ some ur.1 ]

abbrev separated : (A : Type 0) → Parser A → Parser (Unit {0}) → Parser (List A)
separated A p q s = repeated A (suc (length s)) p (left_by q) s

abbrev alternative : (A B : Type 0) → Parser A → Parser B → Parser (A ⊎ B)
alternative A B p q s = elim (p s) [
  | some ar ↦ some (inl ar.0, ar.1)
  | none ↦ elim (q s) [ none ↦ none | some br ↦ some (inr br.0, br.1) ]
]

abbrev sequence : (A B : Type 0) → Parser A → Parser B → Parser (A × B)
sequence A B p q s = elim (p s) [
  | none ↦ none
  | some ar ↦ elim (q ar.1) [ none ↦ none | some br ↦ some ((ar.0, br.0), br.1) ]
]

abbrev engine : Qi
engine = record {
  lit = lit;
  uint_ = uint_;
  char_ = char_;
  eoi = eoi;
  optional = optional;
  plus = plus;
  separated = separated;
  alternative = alternative;
  expect = sequence;
  sequence = sequence;
}

put_uint_ : Generator ℕ
put_uint_ n = if ltb n (2 ^ 32) then some (decimal n) else none

abbrev put_optional : (A : Type 0) → Generator A → Generator (Option A)
put_optional A g none = some []
put_optional A g (some a) = g a

abbrev joins : Option (List ℕ) → ℕ → Option (List ℕ) → Option (List ℕ)
joins o c q = elim o [
  | none ↦ none
  | some s ↦ elim q [ none ↦ none | some t ↦ some (s ++ (c ∷ t)) ]
]

abbrev put_separated : (A : Type 0) → Generator A → ℕ → Generator (List A)
put_separated A g c [] = none
put_separated A g c (a ∷ []) = g a
put_separated A g c (a ∷ b ∷ l) = joins (g a) c (put_separated A g c (b ∷ l))

abbrev put_after : (A : Type 0) → ℕ → Generator A → Generator A
put_after A c g a = elim (g a) [ none ↦ none | some s ↦ some (c ∷ s) ]

abbrev put_all : (A B C : Type 0) → Generator A → Generator B → Generator C → Generator (A × B × C)
put_all A B C g h k x = elim (g x.0) [
  | none ↦ none
  | some s ↦ elim (h x.1) [
    | none ↦ none
    | some t ↦ elim (k x.2) [ none ↦ none | some u ↦ some (s ++ (t ++ u)) ]
  ]
]

abbrev writer : Karma
writer = record {
  uint_ = put_uint_;
  string = λ t. some t;
  optional = put_optional;
  separated = put_separated;
  after = put_after;
  format = put_all;
}
