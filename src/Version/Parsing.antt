-- ===== src/Version/Parsing.antt =====
-- What `Version::parse` of src/version.cpp makes of the texts of versions.
use cxx_util.Prelude.{
  ℕ, ◌≡◌, refl, sym, ap, subst, ◌∙◌, arith, Bool, true, false, map, List, [], ◌∷◌, ◌++◌, Option,
  none, some, ◌⊎◌, inl, inr, length-append, ◌==◌, ==_iff, false≢true,
}
use cxx_util.Prelude.Digits.{starts, decimal, is_digit, decimal-starts}
use mathlib.Core.List.{append_assoc, append-nil}
use cxx_util.Version.{Identifier, Version}
use cxx_util.Version.Spirit.{Parser, Qi, Primitives, Operators, Repetitions}
use cxx_util.Version.Grammar.{
  parsed, optional_pre_release, optional_build_metadata, start, parse, in_identifier, numbers,
  identifier, number_or_text, pre_release, build_metadata,
}
use cxx_util.Version.Text.{
  Each, Small, Word, Readable, Absent, Printable, joined, show_identifier, show_part, ReadablePart,
  part, pre_release_text, build_metadata_text, version_text, joined-map, Each-part,
  pre_release_data, build_metadata_data, tail_starts, tails_start, to_version_data,
}

module _ (qi : Qi) (operators : Operators qi) (repetitions : Repetitions qi)
    (primitives : Primitives qi) where
  pub not_lit :
      (c : ℕ) (p : ℕ → Bool) (s : List ℕ) → p c ≡ false → starts p s ≡ true → qi.lit c s ≡ none
  not_lit c p [] h e = absurd (false≢true e)
  not_lit c p (d ∷ s) h e = primitives.lit_other c (d ∷ s) (differs (c == d) refl)
    where
      differs : (b : Bool) → (c == d) ≡ b → b ≡ false
      differs false u = refl
      differs true u = absurd (false≢true (sym h ∙ ap p ((==_iff c d).0 u) ∙ e))

  plus-char_ :
      (p : ℕ → Bool) (t s : List ℕ)
      → Each (λ c. p c ≡ true) t
      → starts p s ≡ false
      → qi.plus ℕ (qi.char_ p) (t ++ s) ≡ some (t, s)
  plus-char_ p [] s h e = absurd h
  plus-char_ p (c ∷ []) s h e =
      repetitions.plus_one ℕ (qi.char_ p) (c ∷ s) s c (primitives.char_in p c s h)
        (primitives.char_other p s e)
  plus-char_ p (c ∷ d ∷ t) s h e =
      repetitions.plus_more ℕ (qi.char_ p) (c ∷ d ∷ (t ++ s)) (d ∷ (t ++ s)) s c (d ∷ t)
        (primitives.char_in p c (d ∷ (t ++ s)) h.0) (omega arith) (plus-char_ p (d ∷ t) s h.1 e)

  separated-joined :
      {A : Type 0} (p : Parser A) (show : A → List ℕ) (P : A → Type 0) (bad : ℕ → Bool)
      (reads : (a : A) (s : List ℕ) → P a → starts bad s ≡ false → p (show a ++ s) ≡ some (a, s))
      → bad b'.' ≡ false
      → (l : List A) (s : List ℕ) → Each P l
      → starts bad s ≡ false
      → starts (λ d. b'.' == d) s ≡ false
      → qi.separated A p (qi.lit b'.') (joined show b'.' l ++ s) ≡ some (l, s)
  separated-joined p show P bad reads stops [] s h e d = absurd h
  separated-joined {A} p show P bad reads stops (a ∷ []) s h e d =
      repetitions.separated_one A p (qi.lit b'.') (show a ++ s) s a (reads a s h e)
        (primitives.lit_other b'.' s d)
  separated-joined {A} p show P bad reads stops (a ∷ b ∷ l) s h e d =
      rw (append_assoc (show a) (b'.' ∷ joined show b'.' (b ∷ l)) s) (
        repetitions.separated_more A p (qi.lit b'.') (show a ++ (b'.' ∷ rest)) (b'.' ∷ rest) rest s
          a (b ∷ l) (reads a (b'.' ∷ rest) h.0 stops) (primitives.lit_same b'.' rest)
          (omega (arith, length-append (show a) (b'.' ∷ rest)))
          (separated-joined p show P bad reads stops (b ∷ l) s h.1 e d))
    where
      rest : List ℕ
      rest = joined show b'.' (b ∷ l) ++ s

  Word-not_digit : (t s : List ℕ) → Word t → starts is_digit (t ++ s) ≡ starts is_digit t
  Word-not_digit [] s h = absurd h
  Word-not_digit (c ∷ t) s h = refl

  digit_in_identifier : (s : List ℕ) → starts in_identifier s ≡ false → starts is_digit s ≡ false
  digit_in_identifier [] h = refl
  digit_in_identifier (c ∷ s) h = ground arith

  identifier_reads :
      (t s : List ℕ)
      → Word t
      → starts in_identifier s ≡ false
      → identifier qi (t ++ s) ≡ some (t, s)
  unfolding identifier
  identifier_reads = plus-char_ in_identifier

  part_reads :
      (i : ℕ ⊎ List ℕ) (s : List ℕ)
      → ReadablePart i
      → starts in_identifier s ≡ false
      → number_or_text qi (show_part i ++ s) ≡ some (i, s)
  unfolding number_or_text
  part_reads (inl n) s h e =
      operators.first ℕ (List ℕ) qi.uint_ (identifier qi) (decimal n ++ s) s n
        (primitives.uint_decimal n s h (digit_in_identifier s e))
  part_reads (inr t) s h e =
      operators.second ℕ (List ℕ) qi.uint_ (identifier qi) (t ++ s) s t
        (primitives.uint_other (t ++ s) (Word-not_digit t s h.0 ∙ h.1)) (identifier_reads t s h.0 e)

  pub numbers_read :
      (l s : List ℕ)
      → Each Small l
      → starts is_digit s ≡ false
      → starts (λ d. b'.' == d) s ≡ false
      → numbers qi (joined decimal b'.' l ++ s) ≡ some (l, s)
  unfolding numbers
  numbers_read = separated-joined qi.uint_ decimal Small is_digit primitives.uint_decimal refl

  pre_release_reads :
      (o : Option (List Identifier)) (s : List ℕ)
      → Absent (Each Readable) o
      → starts in_identifier s ≡ false
      → starts (λ d. b'.' == d) s ≡ false
      → starts (λ d. b'-' == d) s ≡ false
      → optional_pre_release qi (pre_release_text o ++ s) ≡ some (pre_release_data o, s)
  unfolding pre_release
  pre_release_reads none s h e d f =
      operators.optional_none _ _ s
        (operators.expect_none _ _ _ _ s (primitives.lit_other b'-' s f))
  pre_release_reads (some l) s h e d f =
      operators.optional_some _ (pre_release qi) (b'-' ∷ (joined show_identifier b'.' l ++ s)) s
        (tt, map part l)
        (operators.expect_both _ _ (qi.lit b'-') _ (b'-' ∷ (joined show_identifier b'.' l ++ s))
          (joined show_identifier b'.' l ++ s) s tt (map part l)
          (primitives.lit_same b'-' (joined show_identifier b'.' l ++ s))
          (subst
            (λ t.
              qi.separated (ℕ ⊎ List ℕ) (number_or_text qi) (qi.lit b'.') (t ++ s)
              ≡ some (map part l, s))
            (joined-map show_part part b'.' l)
            (separated-joined (number_or_text qi) show_part ReadablePart in_identifier part_reads
              refl (map part l) s (Each-part l h) e d)))

  build_metadata_reads :
      (o : Option (List (List ℕ)))
      → Absent (Each Word) o
      → optional_build_metadata qi (build_metadata_text o ++ []) ≡ some (build_metadata_data o, [])
  unfolding build_metadata
  build_metadata_reads none h =
      operators.optional_none _ _ []
        (operators.expect_none _ _ _ _ [] (primitives.lit_other b'+' [] refl))
  build_metadata_reads (some l) h =
      operators.optional_some _ (build_metadata qi) (b'+' ∷ (joined (λ t. t) b'.' l ++ [])) []
        (tt, l)
        (operators.expect_both _ _ (qi.lit b'+') _ (b'+' ∷ (joined (λ t. t) b'.' l ++ []))
          (joined (λ t. t) b'.' l ++ []) [] tt l
          (primitives.lit_same b'+' (joined (λ t. t) b'.' l ++ []))
          (separated-joined (identifier qi) (λ t. t) Word in_identifier identifier_reads refl l [] h
            refl refl))

  pub no_v : (l s : List ℕ) → Each Small l → qi.lit b'v' (joined decimal b'.' l ++ s) ≡ none
  no_v [] s h = absurd h
  no_v (n ∷ []) s h = not_lit b'v' is_digit (decimal n ++ s) refl (decimal-starts n s)
  no_v (n ∷ m ∷ l) s h =
      rw (append_assoc (decimal n) (b'.' ∷ joined decimal b'.' (m ∷ l)) s) (
        not_lit b'v' is_digit _ refl (decimal-starts n (b'.' ∷ (joined decimal b'.' (m ∷ l) ++ s))))

  -- After a `v`, or without one.
  start_reads :
      (v : Version) (o : Option (Unit {0})) (s : List ℕ)
      → Printable v
      → qi.optional (Unit {0}) (qi.lit b'v') s ≡ some (o, version_text v)
      → start qi s
        ≡ some (
          (((o, v.numbers), pre_release_data v.pre_release), build_metadata_data v.build_metadata),
          [],
        )
  unfolding start
  start_reads v o s h e =
      operators.expect_both _ _ _ (optional_build_metadata qi) s b []
        ((o, v.numbers), pre_release_data v.pre_release) (build_metadata_data v.build_metadata)
        (operators.expect_both _ _ _ (optional_pre_release qi) s
          (pre_release_text v.pre_release ++ b) b (o, v.numbers) (pre_release_data v.pre_release)
          (operators.expect_both _ _ _ (numbers qi) s (version_text v)
            (pre_release_text v.pre_release ++ b) o v.numbers e
            (numbers_read v.numbers (pre_release_text v.pre_release ++ b) h.0
              (tails_start is_digit v.pre_release v.build_metadata refl refl)
              (tails_start (λ d. b'.' == d) v.pre_release v.build_metadata refl refl)))
          (pre_release_reads v.pre_release b h.1 (tail_starts in_identifier v.build_metadata refl)
            (tail_starts (λ d. b'.' == d) v.build_metadata refl)
            (tail_starts (λ d. b'-' == d) v.build_metadata refl)))
        (subst (λ t. optional_build_metadata qi t ≡ some (build_metadata_data v.build_metadata, []))
          (append-nil b) (build_metadata_reads v.build_metadata h.2))
    where
      b : List ℕ
      b = build_metadata_text v.build_metadata

  parse_after :
      (v : Version) (o : Option (Unit {0})) (s : List ℕ)
      → Printable v
      → qi.optional (Unit {0}) (qi.lit b'v') s ≡ some (o, version_text v)
      → parse qi s ≡ some v
  unfolding parse
  parse_after v o s h e =
      ap parsed (
        operators.sequence_both _ _ (start qi) qi.eoi s [] [] _ tt (start_reads v o s h e)
          primitives.eoi_end)
      ∙ ap some (to_version_data v o)

  pub parse-version_text : (v : Version) → Printable v → parse qi (version_text v) ≡ some v
  parse-version_text v h = parse_after v none (version_text v) h (
      operators.optional_none _ _ (version_text v) (
        no_v v.numbers (pre_release_text v.pre_release ++ build_metadata_text v.build_metadata)
          h.0))

  pub parse-v : (v : Version) → Printable v → parse qi (b'v' ∷ version_text v) ≡ some v
  parse-v v h = parse_after v (some tt) (b'v' ∷ version_text v) h (
      operators.optional_some _ _ (b'v' ∷ version_text v) (version_text v) tt
        (primitives.lit_same b'v' (version_text v)))
