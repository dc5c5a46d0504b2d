-- ===== src/Version/RoundTrip.antt =====
-- Printing a `Version` and parsing the text, and a version that does not parse, of src/version.cpp.
use cxx_util.Prelude.{ℕ, ◌≡◌, refl, ap, true, false, List, [], ◌∷◌, ◌++◌, none, some, inl}
use cxx_util.Prelude.Digits.{starts, decimal, is_digit}
use cxx_util.Version.{Version}
use cxx_util.Version.Spirit.{Qi, Primitives, Operators, Repetitions, Karma, Generators}
use cxx_util.Version.Grammar.{
  print, parsed, optional_pre_release, optional_build_metadata, start, parse, in_identifier,
  numbers, number_or_text, pre_release, build_metadata,
}
use cxx_util.Version.Text.{version_text, Each, Small, Printable, joined}
use cxx_util.Version.Parsing.{parse-version_text, parse-v, numbers_read, not_lit, no_v}
use cxx_util.Version.Printing.{print-version_text}

module _ (qi : Qi) (operators : Operators qi) (repetitions : Repetitions qi)
    (primitives : Primitives qi) where
  -- A version prints to a text, and the text parses to the version, with or without a `v` in front of
  -- it, when the version has numbers, which fit in 32 bits, and its pre-release and its build metadata
  -- are absent or not empty lists, of numbers that fit in 32 bits and of not empty texts of the
  -- characters of an identifier, those of the pre-release not starting with a digit.
  pub parse-print :
      (karma : Karma) (generators : Generators karma) (v : Version)
      → Printable v
      → (t : List ℕ) × (print karma v ≡ some t)
        × (parse qi t ≡ some v)
        × (parse qi (b'v' ∷ t) ≡ some v)
  parse-print karma generators v h = (
    version_text v,
    print-version_text karma generators v h,
    parse-version_text qi operators repetitions primitives v h,
    parse-v qi operators repetitions primitives v h,
  )

  -- `uint_` takes the digits, and the list ends before the letter.
  digits_read :
      (n : ℕ) (s : List ℕ)
      → Small n
      → starts is_digit s ≡ false
      → qi.lit b'.' s ≡ none
      → pre_release qi (b'-' ∷ (decimal n ++ s)) ≡ some ((tt, inl n ∷ []), s)
  unfolding pre_release number_or_text
  digits_read n s h e d =
      operators.expect_both _ _ _ _ (b'-' ∷ (decimal n ++ s)) (decimal n ++ s) s tt (inl n ∷ [])
        (primitives.lit_same b'-' (decimal n ++ s))
        (repetitions.separated_one _ (number_or_text qi) (qi.lit b'.') (decimal n ++ s) s (inl n)
          (operators.first _ _ _ _ (decimal n ++ s) s n (primitives.uint_decimal n s h e)) d)

  -- A text of numbers and a pre-release whose first identifier is digits, which fit in 32 bits, and then
  -- a letter or a hyphen, does not parse, whatever follows.
  pub parse_digit_first :
      (l : List ℕ) (n c : ℕ) (s : List ℕ)
      → Each Small l
      → Small n
      → in_identifier c ≡ true
      → is_digit c ≡ false
      → parse qi (joined decimal b'.' l ++ (b'-' ∷ (decimal n ++ (c ∷ s)))) ≡ none
  unfolding parse start build_metadata
  parse_digit_first l n c s h k e d = ap parsed (
      operators.sequence_second _ _ (start qi) qi.eoi whole (c ∷ s) _
        (operators.expect_both _ _ _ (optional_build_metadata qi) whole (c ∷ s) (c ∷ s)
          ((none, l), some (tt, inl n ∷ [])) none
          (operators.expect_both _ _ _ (optional_pre_release qi) whole rest (c ∷ s) (none, l)
            (some (tt, inl n ∷ []))
            (operators.expect_both _ _ _ (numbers qi) whole whole rest none l
              (operators.optional_none _ _ whole
                (no_v qi operators repetitions primitives l rest h))
              (numbers_read qi operators repetitions primitives l rest h refl refl))
            (operators.optional_some _ (pre_release qi) rest (c ∷ s) (tt, inl n ∷ [])
              (digits_read n (c ∷ s) k d (no_literal b'.' refl))))
          (operators.optional_none _ (build_metadata qi) (c ∷ s)
            (operators.expect_none _ _ _ _ (c ∷ s) (no_literal b'+' refl))))
        (primitives.eoi_more c s))
    where
      rest : List ℕ
      rest = b'-' ∷ (decimal n ++ (c ∷ s))

      whole : List ℕ
      whole = joined decimal b'.' l ++ rest

      no_literal : (d : ℕ) → in_identifier d ≡ false → qi.lit d (c ∷ s) ≡ none
      no_literal d f = not_lit qi operators repetitions primitives d in_identifier (c ∷ s) f e
