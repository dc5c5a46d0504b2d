-- ===== src/Version/Printing.antt =====
-- What `operator<<` of src/version.cpp writes.
use cxx_util.Prelude.{ℕ, ◌≡◌, List, [], ◌∷◌, Option, none, some}
use cxx_util.Prelude.Digits.{decimal}
use cxx_util.Version.{Identifier, number, text, Version}
use cxx_util.Version.Spirit.{Generator, Karma, Generators}
use cxx_util.Version.Grammar.{auto_, put_numbers, put_pre_release, put_build_metadata, print}
use cxx_util.Version.Text.{
  Each, Small, Word, Readable, Absent, Printable, joined, show_identifier, pre_release_text,
  build_metadata_text, version_text, some_numbers,
}

module _ (karma : Karma) (generators : Generators karma) where
  separated_puts :
      {A : Type 0} (g : Generator A) (show : A → List ℕ) (P : A → Type 0)
      → ((a : A) → P a → g a ≡ some (show a))
      → (c : ℕ) (l : List A) → Each P l
      → karma.separated A g c l ≡ some (joined show c l)
  separated_puts g show P puts c [] h = absurd h
  separated_puts {A} g show P puts c (a ∷ []) h =
      generators.separated_one A g c a (show a) (puts a h)
  separated_puts {A} g show P puts c (a ∷ b ∷ l) h =
      generators.separated_more A g c a b l (show a) (joined show c (b ∷ l)) (puts a h.0)
        (separated_puts g show P puts c (b ∷ l) h.1)

  auto_puts : (i : Identifier) → Readable i → auto_ karma i ≡ some (show_identifier i)
  unfolding auto_
  auto_puts (number n) h = generators.uint_decimal n h
  auto_puts (text t) h = generators.string_same t

  pre_release_puts :
      (o : Option (List Identifier))
      → Absent (Each Readable) o
      → put_pre_release karma o ≡ some (pre_release_text o)
  unfolding put_pre_release
  pre_release_puts none h = generators.optional_none _ _
  pre_release_puts (some l) h = generators.optional_some _ _ l _ (
      generators.after_same _ b'-' _ l _
        (separated_puts (auto_ karma) show_identifier Readable auto_puts b'.' l h))

  build_metadata_puts :
      (o : Option (List (List ℕ)))
      → Absent (Each Word) o
      → put_build_metadata karma o ≡ some (build_metadata_text o)
  unfolding put_build_metadata
  build_metadata_puts none h = generators.optional_none _ _
  build_metadata_puts (some l) h = generators.optional_some _ _ l _ (
      generators.after_same _ b'+' _ l _
        (separated_puts karma.string (λ t. t) Word (λ t _. generators.string_same t) b'.' l h))

  pub print-version_text : (v : Version) → Printable v → print karma v ≡ some (version_text v)
  unfolding print put_numbers
  print-version_text v h = rw (some_numbers v.numbers h.0) (
      generators.format_all _ _ _ (put_numbers karma) (put_pre_release karma)
        (put_build_metadata karma) v.numbers v.pre_release v.build_metadata _ _ _
        (separated_puts karma.uint_ decimal Small generators.uint_decimal b'.' v.numbers h.0)
        (pre_release_puts v.pre_release h.1) (build_metadata_puts v.build_metadata h.2))
