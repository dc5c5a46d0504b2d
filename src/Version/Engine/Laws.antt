-- ===== src/Version/Engine/Laws.antt =====
-- What the parsers and the generators of Engine.antt satisfy.
use cxx_util.Prelude.{
  ℕ, zero, suc, ◌+◌, ◌*◌, ◌/◌, ◌%◌, ◌^◌, ◌<◌, ◌≡◌, refl, ap, ◌∙◌, arith, Bool, true, false, List,
  [], ◌∷◌, ◌++◌, Option, none, some, Option-cases, inl, inr, length, ltb, lt→ltb, ◌==◌, ==_iff,
  if◌then◌else◌,
}
use mathlib.Core.List.{append_assoc}
use cxx_util.Prelude.Digits.{
  starts, digit, is_digit, digits_of, digits_small, digits_big, split_ten, decimal, decimal-starts,
}
use cxx_util.Version.Spirit.{Parser, Primitives, Operators, Repetitions, Generators}
use cxx_util.Version.Engine.{
  lit, char_, eoi, scan, below, uint_, continue, repeated, optional, left_by, alternative, sequence,
  engine, writer, put_uint_, put_separated, joins, put_after, put_all,
}

is_digit-digit : (d : ℕ) → d < 10 → is_digit (digit d) ≡ true
is_digit-digit d h = ground arith

scan-digits_of : (f n : ℕ) (s : List ℕ) → n < f → scan 0 (digits_of f n ++ s) ≡ scan n s
unfolding scan
scan-digits_of zero n s h = absurd (omega arith)
scan-digits_of (suc f) n s h = elim (split_ten n) [
  | inl e ↦ rw (digits_small f n e) (scan_digit 0 n s e ∙ ap (λ m. scan m s) (omega arith))
  | inr e ↦
      rw (digits_big f n e, append_assoc (digits_of f (n / 10)) (digit (n % 10) ∷ []) s)
        (scan-digits_of f (n / 10) (digit (n % 10) ∷ s) (omega arith)
          ∙ scan_digit (n / 10) (n % 10) s (omega arith)
          ∙ ap (λ m. scan m s) (omega arith))
]
  where
    scan_digit : (m d : ℕ) (t : List ℕ) → d < 10 → scan m (digit d ∷ t) ≡ scan (m * 10 + d) t
    scan_digit m d t k = rw (is_digit-digit d k) (ap (λ e. scan (m * 10 + e) t) (omega arith))

module _ (A : Type 0) where
  repeated-fuel :
      (f g : ℕ) (p : Parser A) (again : List ℕ → Option (List ℕ)) (s : List ℕ)
      → length s < f
      → length s < g
      → repeated A f p again s ≡ repeated A g p again s
  unfolding repeated
  repeated-fuel zero g p again s h k = absurd (omega arith)
  repeated-fuel (suc f) zero p again s h k = absurd (omega arith)
  repeated-fuel (suc f) (suc g) p again s h k = elim (Option-cases (p s)) [
    | inl e ↦ rw (repeated, e) refl
    | inr (ar, e) ↦ elim (Option-cases (again ar.1)) [
      | inl i ↦ rw (repeated, e, i) refl
      | inr (t, i) ↦
          rw (repeated, e, i)
            (by_test t (ltb (length t) (length s)) refl (repeated-fuel f g p again t) ar)
    ]
  ]
    where
      by_test :
          (t : List ℕ) (b : Bool)
          → ltb (length t) (length s) ≡ b
          → (length t < f → length t < g → repeated A f p again t ≡ repeated A g p again t)
          → (ar : A × List ℕ)
          → (if b then continue A ar.0 ar.1 (repeated A f p again t) else some (ar.0 ∷ [], ar.1))
            ≡ (if b then continue A ar.0 ar.1 (repeated A g p again t) else some (ar.0 ∷ [], ar.1))
      by_test t true u ih ar = ap (continue A ar.0 ar.1) (ih (ground arith) (ground arith))
      by_test t false u ih ar = refl

  repeated_last :
      (f : ℕ) (p : Parser A) (again : List ℕ → Option (List ℕ)) (s r : List ℕ) (a : A)
      → p s ≡ some (a, r)
      → again r ≡ none
      → repeated A (suc f) p again s ≡ some (a ∷ [], r)
  unfolding repeated
  repeated_last f p again s r a h k = rw (repeated, h, k) refl

  repeated_more :
      (f : ℕ) (p : Parser A) (again : List ℕ → Option (List ℕ)) (s r t : List ℕ) (a : A)
      → p s ≡ some (a, r)
      → again r ≡ some t
      → length t < length s
      → repeated A (suc f) p again s ≡ continue A a r (repeated A f p again t)
  unfolding repeated
  repeated_more f p again s r t a h k l = rw (repeated, h, k, lt→ltb (length t) (length s) l) refl

scan_stops : (n : ℕ) (s : List ℕ) → starts is_digit s ≡ false → scan n s ≡ (n, s)
unfolding scan
scan_stops n [] h = refl
scan_stops n (c ∷ s) h = rw (h) refl

lit_same_lem : (c : ℕ) (s : List ℕ) → lit c (c ∷ s) ≡ some (tt, s)
unfolding lit
lit_same_lem c s = rw ((==_iff c c).1 refl) refl

lit_other_lem : (c : ℕ) (s : List ℕ) → starts (λ d. c == d) s ≡ false → lit c s ≡ none
unfolding lit
lit_other_lem c [] h = refl
lit_other_lem c (d ∷ s) h = rw (h) refl

char_in_lem : (p : ℕ → Bool) (c : ℕ) (s : List ℕ) → p c ≡ true → char_ p (c ∷ s) ≡ some (c, s)
unfolding char_
char_in_lem p c s h = rw (h) refl

char_other_lem : (p : ℕ → Bool) (s : List ℕ) → starts p s ≡ false → char_ p s ≡ none
unfolding char_
char_other_lem p [] h = refl
char_other_lem p (c ∷ s) h = rw (h) refl

uint_decimal_lem :
    (n : ℕ) (s : List ℕ)
    → n < 2 ^ 32
    → starts is_digit s ≡ false
    → uint_ (decimal n ++ s) ≡ some (n, s)
unfolding uint_ below decimal
uint_decimal_lem n s h e =
    rw
      (
        decimal-starts n s,
        scan-digits_of (n + 1) n s (omega arith),
        scan_stops n s e,
        lt→ltb n (2 ^ 32) h,
      )
      refl

uint_other_lem : (s : List ℕ) → starts is_digit s ≡ false → uint_ s ≡ none
unfolding uint_
uint_other_lem s h = rw (h) refl

pub engine-Primitives : Primitives engine
unfolding eoi
engine-Primitives = record {
  lit_same = lit_same_lem;
  lit_other = lit_other_lem;
  uint_decimal = uint_decimal_lem;
  uint_other = uint_other_lem;
  char_in = char_in_lem;
  char_other = char_other_lem;
  eoi_end = refl;
  eoi_more = λ c s. refl;
}

pub engine-Operators : Operators engine
unfolding optional
engine-Operators = record {
  optional_some = λ A p s r a h. rw (engine, optional, h) refl;
  optional_none = λ A p s h. rw (engine, optional, h) refl;
  first = λ A B p q s r a h. rw (engine, alternative, h) refl;
  second = λ A B p q s r b h k. rw (engine, alternative, h, k) refl;
  expect_both = λ A B p q s r t a b h k. rw (engine, sequence, h, k) refl;
  expect_none = λ A B p q s h. rw (engine, sequence, h) refl;
  sequence_both = λ A B p q s r t a b h k. rw (engine, sequence, h, k) refl;
  sequence_second = λ A B p q s r a h k. rw (engine, sequence, h, k) refl;
}

left_by-none : (q : Parser (Unit {0})) (r : List ℕ) → q r ≡ none → left_by q r ≡ none
left_by-none q r h = rw (left_by, h) refl

left_by-some : (q : Parser (Unit {0})) (r t : List ℕ) → q r ≡ some (tt, t) → left_by q r ≡ some t
left_by-some q r t h = rw (left_by, h) refl

repeated-none :
    (A : Type 0) (f : ℕ) (p : Parser A) (again : List ℕ → Option (List ℕ)) (s : List ℕ)
    → p s ≡ none
    → repeated A (suc f) p again s ≡ none
unfolding repeated
repeated-none A f p again s h = rw (repeated, h) refl

rest_none :
    (A : Type 0) (f : ℕ) (p : Parser A) (again : List ℕ → Option (List ℕ)) (s : List ℕ)
    → p s ≡ none
    → repeated A f p again s ≡ none
unfolding repeated
rest_none A zero p again s h = refl
rest_none A (suc f) p again s h = repeated-none A f p again s h

repeated_ends :
    (A : Type 0) (f : ℕ) (p : Parser A) (again : List ℕ → Option (List ℕ)) (s r t : List ℕ) (a : A)
    → p s ≡ some (a, r)
    → again r ≡ some t
    → p t ≡ none
    → repeated A (suc f) p again s ≡ some (a ∷ [], r)
unfolding repeated continue
repeated_ends A f p again s r t a h k l =
    rw (repeated, h, k, rest_none A f p again t l)
      (both (some (a ∷ [], r)) (ltb (length t) (length s)))
  where
    both : (o : Option (List A × List ℕ)) (b : Bool) → (if b then o else o) ≡ o
    both o true = refl
    both o false = refl

repeated_continues :
    (A : Type 0) (p : Parser A) (again : List ℕ → Option (List ℕ)) (s r t u : List ℕ) (a : A)
    (l : List A)
    → p s ≡ some (a, r)
    → again r ≡ some t
    → length t < length s
    → repeated A (suc (length t)) p again t ≡ some (l, u)
    → repeated A (suc (length s)) p again s ≡ some (a ∷ l, u)
unfolding continue
repeated_continues A p again s r t u a l h k m n =
    repeated_more A (length s) p again s r t a h k m
    ∙ ap (continue A a r)
        (repeated-fuel A (length s) (suc (length t)) p again t m (omega arith) ∙ n)

pub engine-Repetitions : Repetitions engine
engine-Repetitions = record {
  plus_one = λ A p s r a h k. repeated_ends A (length s) p (λ q. some q) s r r a h refl k;
  plus_more = λ A p s r t a l h m n. repeated_continues A p (λ q. some q) s r r t a l h refl m n;
  plus_none = λ A p s h. repeated-none A (length s) p (λ q. some q) s h;
  separated_one =
      λ A p q s r a h k. repeated_last A (length s) p (left_by q) s r a h (left_by-none q r k);
  separated_more = λ A p q s r t u a l h k m n.
      repeated_continues A p (left_by q) s r t u a l h (left_by-some q r t k) m n;
}

joins_lem :
    (o q : Option (List ℕ)) (c : ℕ) (s t : List ℕ)
    → o ≡ some s
    → q ≡ some t
    → joins o c q ≡ some (s ++ (c ∷ t))
joins_lem o q c s t h k = rw (joins, h, k) refl

pub writer-Generators : Generators writer
unfolding put_uint_
writer-Generators = record {
  uint_decimal = λ n h. rw (lt→ltb n (2 ^ 32) h) refl;
  string_same = λ t. refl;
  optional_none = λ A g. refl;
  optional_some = λ A g a s h. h;
  separated_one = λ A g c a s h. h;
  separated_more = λ A g c a b l s t h k. joins_lem (g a) (put_separated A g c (b ∷ l)) c s t h k;
  after_same = λ A c g a s h. rw (writer, put_after, h) refl;
  format_all = λ A B C g h k a b c s t u e f i. rw (writer, put_all, e, f, i) refl;
}
