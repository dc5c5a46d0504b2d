-- ===== src/Version/Text.antt =====
-- The texts of the versions that src/version.cpp prints and reads back.
use cxx_util.Prelude.{
  ℕ, ◌^◌, ◌<◌, ◌≡◌, refl, ap, arith, Bool, true, false, map, List, [], ◌∷◌, ◌++◌, Option, none,
  some, ◌⊎◌, inl, inr, length, ltb,
}
use cxx_util.Prelude.Digits.{starts, decimal, is_digit}
use cxx_util.Version.{Identifier, number, text, Version}
use cxx_util.Version.Grammar.{
  pre_release_of, build_metadata_of, to_version, to_identifier, to_identifiers, in_identifier,
}

-- Not empty, and each element good.
abbrev pub Each : {A : Type 0} → (A → Type 0) → List A → Type 0
Each P [] = ⊥
Each P (a ∷ []) = P a
Each P (a ∷ b ∷ l) = P a × Each P (b ∷ l)

abbrev pub Small : ℕ → Type 0
Small n = n < 2 ^ 32

abbrev pub Word : List ℕ → Type 0
Word = Each (λ c. in_identifier c ≡ true)

-- A text that starts with a digit is not one that the grammar reads as a text.
abbrev pub Readable : Identifier → Type 0
Readable (number n) = Small n
Readable (text t) = Word t × (starts is_digit t ≡ false)

abbrev pub Absent : {A : Type 0} → (A → Type 0) → Option A → Type 0
Absent P none = Unit {0}
Absent P (some a) = P a

abbrev pub Printable : Version → Type 0
Printable v =
    Each Small v.numbers
    × Absent (Each Readable) v.pre_release
    × Absent (Each Word) v.build_metadata

-- A list's text, from those of its elements.
abbrev pub joined : {A : Type 0} → (A → List ℕ) → ℕ → List A → List ℕ
joined show c [] = []
joined show c (a ∷ []) = show a
joined show c (a ∷ b ∷ l) = show a ++ (c ∷ joined show c (b ∷ l))

abbrev pub show_part : ℕ ⊎ List ℕ → List ℕ
show_part (inl n) = decimal n
show_part (inr t) = t

abbrev pub part : Identifier → ℕ ⊎ List ℕ
part (number n) = inl n
part (text t) = inr t

abbrev pub show_identifier : Identifier → List ℕ
show_identifier i = show_part (part i)

abbrev pub ReadablePart : ℕ ⊎ List ℕ → Type 0
ReadablePart i = Readable (to_identifier i)

abbrev pub pre_release_text : Option (List Identifier) → List ℕ
pre_release_text none = []
pre_release_text (some l) = b'-' ∷ joined show_identifier b'.' l

abbrev pub build_metadata_text : Option (List (List ℕ)) → List ℕ
build_metadata_text none = []
build_metadata_text (some l) = b'+' ∷ joined (λ t. t) b'.' l

abbrev pub version_text : Version → List ℕ
version_text v =
    joined decimal b'.' v.numbers
    ++ (pre_release_text v.pre_release ++ build_metadata_text v.build_metadata)

pub joined-map :
    {A B : Type 0} (show : B → List ℕ) (f : A → B) (c : ℕ) (l : List A)
    → joined show c (map f l) ≡ joined (λ a. show (f a)) c l
joined-map show f c [] = refl
joined-map show f c (a ∷ []) = refl
joined-map show f c (a ∷ b ∷ l) = ap (λ t. show (f a) ++ (c ∷ t)) (joined-map show f c (b ∷ l))

pub Each-part : (l : List Identifier) → Each Readable l → Each ReadablePart (map part l)
Each-part [] h = h
Each-part (number n ∷ []) h = h
Each-part (text t ∷ []) h = h
Each-part (number n ∷ b ∷ l) h = (h.0, Each-part (b ∷ l) h.1)
Each-part (text t ∷ b ∷ l) h = (h.0, Each-part (b ∷ l) h.1)

pub to_identifiers-part : (l : List Identifier) → to_identifiers (map part l) ≡ l
to_identifiers-part [] = refl
to_identifiers-part (number n ∷ l) = ap (λ t. number n ∷ t) (to_identifiers-part l)
to_identifiers-part (text t ∷ l) = ap (λ u. text t ∷ u) (to_identifiers-part l)

abbrev pub pre_release_data : Option (List Identifier) → Option (Unit {0} × List (ℕ ⊎ List ℕ))
pre_release_data none = none
pre_release_data (some l) = some (tt, map part l)

abbrev pub build_metadata_data : Option (List (List ℕ)) → Option (Unit {0} × List (List ℕ))
build_metadata_data none = none
build_metadata_data (some l) = some (tt, l)

pub some_numbers : (l : List ℕ) → Each Small l → ltb 0 (length l) ≡ true
some_numbers [] h = absurd h
some_numbers (n ∷ l) h = ground arith

pub tail_starts :
    (p : ℕ → Bool) (o : Option (List (List ℕ)))
    → p b'+' ≡ false
    → starts p (build_metadata_text o) ≡ false
tail_starts p none h = refl
tail_starts p (some l) h = h

pub tails_start :
    (p : ℕ → Bool) (o : Option (List Identifier)) (b : Option (List (List ℕ)))
    → p b'-' ≡ false
    → p b'+' ≡ false
    → starts p (pre_release_text o ++ build_metadata_text b) ≡ false
tails_start p none b h k = tail_starts p b k
tails_start p (some l) b h k = h

pre_release_of-data : (o : Option (List Identifier)) → pre_release_of (pre_release_data o) ≡ o
pre_release_of-data none = refl
pre_release_of-data (some l) = ap some (to_identifiers-part l)

build_metadata_of-data :
    (o : Option (List (List ℕ))) → build_metadata_of (build_metadata_data o) ≡ o
build_metadata_of-data none = refl
build_metadata_of-data (some l) = refl

pub to_version_data :
    (v : Version) (o : Option (Unit {0}))
    → to_version
        (((o, v.numbers), pre_release_data v.pre_release), build_metadata_data v.build_metadata)
      ≡ v
to_version_data v o = λ i. record {
  numbers = v.numbers;
  pre_release = pre_release_of-data v.pre_release i;
  build_metadata = build_metadata_of-data v.build_metadata i;
}
