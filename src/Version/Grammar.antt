-- ===== src/Version/Grammar.antt =====
-- `VersionGrammar`, `Version::parse` and `operator<<` of src/version.cpp, over the parsers and the
-- generators of Boost.Spirit. A failed parse leaves the members of the `Version` unspecified.
use cxx_util.Prelude.{
  ℕ, Bool, ◌&&◌, ◌||◌, List, [], ◌∷◌, Option, none, some, ◌⊎◌, inl, inr, length, ltb, leb, ◌==◌,
  if◌then◌else◌,
}
use cxx_util.Prelude.Digits.{is_digit}
use cxx_util.Version.{Identifier, number, text, Version}
use cxx_util.Version.Spirit.{Parser, Qi, Generator, Karma}

-- `"0-9A-Za-z-"`.
abbrev pub in_identifier : ℕ → Bool
in_identifier c = is_digit c || leb b'A' c && leb c b'Z' || leb b'a' c && leb c b'z' || c == b'-'

-- The attribute of an alternative as a variant.
abbrev pub to_identifier : ℕ ⊎ List ℕ → Identifier
to_identifier (inl n) = number n
to_identifier (inr t) = text t

abbrev pub to_identifiers : List (ℕ ⊎ List ℕ) → List Identifier
to_identifiers [] = []
to_identifiers (i ∷ l) = to_identifier i ∷ to_identifiers l

-- The attributes, less those that the literals do not have.
abbrev pub pre_release_of : Option (Unit {0} × List (ℕ ⊎ List ℕ)) → Option (List Identifier)
pre_release_of none = none
pre_release_of (some (_, l)) = some (to_identifiers l)

abbrev pub build_metadata_of : Option (Unit {0} × List (List ℕ)) → Option (List (List ℕ))
build_metadata_of none = none
build_metadata_of (some (_, l)) = some l

abbrev pub Data : Type 0
Data =
    ((Option (Unit {0}) × List ℕ) × Option (Unit {0} × List (ℕ ⊎ List ℕ)))
    × Option (Unit {0} × List (List ℕ))

abbrev pub to_version : Data → Version
to_version (((_, n), p), b) = record {
  numbers = n;
  pre_release = pre_release_of p;
  build_metadata = build_metadata_of b;
}

abbrev pub parsed : Option ((Data × Unit {0}) × List ℕ) → Option Version
parsed none = none
parsed (some ((d, _), _)) = some (to_version d)

module _ (qi : Qi) where
  unfoldable pub numbers : Parser (List ℕ)
  numbers = qi.separated ℕ qi.uint_ (qi.lit b'.')

  unfoldable pub identifier : Parser (List ℕ)
  identifier = qi.plus ℕ (qi.char_ in_identifier)

  unfoldable pub number_or_text : Parser (ℕ ⊎ List ℕ)
  number_or_text = qi.alternative ℕ (List ℕ) qi.uint_ identifier

  unfoldable pub pre_release : Parser (Unit {0} × List (ℕ ⊎ List ℕ))
  pre_release =
      qi.expect (Unit {0}) (List (ℕ ⊎ List ℕ)) (qi.lit b'-')
        (qi.separated (ℕ ⊎ List ℕ) number_or_text (qi.lit b'.'))

  unfoldable pub build_metadata : Parser (Unit {0} × List (List ℕ))
  build_metadata =
      qi.expect (Unit {0}) (List (List ℕ)) (qi.lit b'+')
        (qi.separated (List ℕ) identifier (qi.lit b'.'))

  abbrev pub optional_pre_release : Parser (Option (Unit {0} × List (ℕ ⊎ List ℕ)))
  optional_pre_release = qi.optional (Unit {0} × List (ℕ ⊎ List ℕ)) pre_release

  abbrev pub optional_build_metadata : Parser (Option (Unit {0} × List (List ℕ)))
  optional_build_metadata = qi.optional (Unit {0} × List (List ℕ)) build_metadata

  unfoldable pub start : Parser Data
  start =
      qi.expect ((Option (Unit {0}) × List ℕ) × Option (Unit {0} × List (ℕ ⊎ List ℕ)))
        (Option (Unit {0} × List (List ℕ)))
        (qi.expect (Option (Unit {0}) × List ℕ) (Option (Unit {0} × List (ℕ ⊎ List ℕ)))
          (qi.expect (Option (Unit {0})) (List ℕ) (qi.optional (Unit {0}) (qi.lit b'v')) numbers)
          optional_pre_release)
        optional_build_metadata

  unfoldable pub parse : List ℕ → Option Version
  parse s = parsed (qi.sequence Data (Unit {0}) start qi.eoi s)

module _ (karma : Karma) where
  -- `auto_`: that of the variant's member.
  unfoldable pub auto_ : Generator Identifier
  auto_ (number n) = karma.uint_ n
  auto_ (text t) = karma.string t

  unfoldable pub put_numbers : Generator (List ℕ)
  put_numbers = karma.separated ℕ karma.uint_ b'.'

  unfoldable pub put_pre_release : Generator (Option (List Identifier))
  put_pre_release =
      karma.optional (List Identifier)
        (karma.after (List Identifier) b'-' (karma.separated Identifier auto_ b'.'))

  unfoldable pub put_build_metadata : Generator (Option (List (List ℕ)))
  put_build_metadata =
      karma.optional (List (List ℕ))
        (karma.after (List (List ℕ)) b'+' (karma.separated (List ℕ) karma.string b'.'))

  abbrev pub put_data : Generator (List ℕ × Option (List Identifier) × Option (List (List ℕ)))
  put_data =
      karma.format (List ℕ) (Option (List Identifier)) (Option (List (List ℕ))) put_numbers
        put_pre_release put_build_metadata

  unfoldable pub print : Generator Version
  print v =
      if ltb 0 (length v.numbers)
      then put_data (v.numbers, v.pre_release, v.build_metadata)
      else some []
