-- ===== src/Version/Engine/Tests.antt =====
-- Texts of the tests of src/tests/version.cpp, parsed.
use cxx_util.Prelude.{ℕ, ◌≡◌, refl, arith, List, [], ◌∷◌, ◌++◌, none, some}
use cxx_util.Prelude.Digits.{decimal, digits_of}
use cxx_util.Version.{number, text, Version}
use cxx_util.Version.Grammar.{
  parse, start, numbers, pre_release, build_metadata, number_or_text, identifier, print,
  put_numbers, put_pre_release, put_build_metadata, auto_,
}
use cxx_util.Version.Text.{joined}
use cxx_util.Version.Engine.{
  engine, writer, lit, char_, eoi, scan, below, uint_, continue, repeated, optional, put_uint_,
}
use cxx_util.Version.Engine.Laws.{
  engine-Operators, engine-Repetitions, engine-Primitives, writer-Generators,
}
use cxx_util.Version.RoundTrip.{parse-print, parse_digit_first}

-- 1.9.0-a.2+b-
abbrev tagged : Version
tagged = record {
  numbers = 1 ∷ 9 ∷ 0 ∷ [];
  pre_release = some (text (b'a' ∷ []) ∷ number 2 ∷ []);
  build_metadata = some ((b'b' ∷ b'-' ∷ []) ∷ []);
}

abbrev tagged_text : List ℕ
tagged_text = b'1' ∷ b'.' ∷ b'9' ∷ b'.' ∷ b'0' ∷ b'-' ∷ b'a' ∷ b'.' ∷ b'2' ∷ b'+' ∷ b'b' ∷ b'-' ∷ []

tagged_parses : parse engine tagged_text ≡ some tagged
unfolding parse start numbers pre_release build_metadata number_or_text identifier lit char_ eoi
    scan below uint_ continue repeated optional
tagged_parses = refl

tagged_prints : print writer tagged ≡ some tagged_text
unfolding print put_numbers put_pre_release put_build_metadata auto_ put_uint_ decimal digits_of
tagged_prints = refl

-- 1.-0
hyphen_parses : parse engine (b'1' ∷ b'.' ∷ b'-' ∷ b'0' ∷ []) ≡ none
unfolding parse start numbers pre_release build_metadata number_or_text identifier lit char_ eoi
    scan below uint_ continue repeated optional
hyphen_parses = refl

parse-print_example :
    (t : List ℕ) × (print writer tagged ≡ some t)
    × (parse engine t ≡ some tagged)
    × (parse engine (b'v' ∷ t) ≡ some tagged)
parse-print_example =
    parse-print engine engine-Operators engine-Repetitions engine-Primitives writer
      writer-Generators tagged
      ((omega arith, (omega arith, omega arith)), ((refl, refl), omega arith), (refl, refl))

-- 1.0-1a
parse_digit_first_example :
    parse engine (joined decimal b'.' (1 ∷ 0 ∷ []) ++ (b'-' ∷ (decimal 1 ++ (b'a' ∷ [])))) ≡ none
parse_digit_first_example =
    parse_digit_first engine engine-Operators engine-Repetitions engine-Primitives (1 ∷ 0 ∷ []) 1
      b'a' [] (omega arith, omega arith) (omega arith) refl refl
