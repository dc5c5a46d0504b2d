-- ===== src/TimeStamp/Order.antt =====
-- The order of the texts of clocks, as of their fields.
use mathlib.Core.List.{append_assoc, append-nil}
use cxx_util.Prelude.{
  ℕ, zero, suc, ◌+◌, ◌/◌, ◌%◌, ◌<◌, ◌≡◌, refl, sym, ap, ap₂, ◌∙◌, arith, true, false, List, [], ◌∷◌,
  ◌++◌, length, length-append, ltb, if◌then◌else◌,
}
use cxx_util.Prelude.Digits.{digit, fixed, tens, padded-fixed}
use cxx_util.Version.{less}
use cxx_util.TimeStamp.{Clock, fresh, put_timer, put_clock}

-- The text of a clock with a number in each of its fields' widths.
abbrev part : ℕ → ℕ → ℕ → List ℕ → List ℕ
part w n separator rest = fixed w n ++ (separator ∷ rest)

abbrev parts : Clock → List ℕ
parts t = part 4 t.year b'-' (
    part 2 t.month b'-' (
      part 2 t.day b'T' (
        part 2 t.time_of_day.hours b':' (
          part 2 t.time_of_day.minutes b':'
            (part 2 t.time_of_day.seconds b'.' (fixed 6 t.time_of_day.fractional_seconds ++ []))))))

abbrev pub fields : Clock → List ℕ
fields t =
    t.year ∷ t.month ∷ t.day ∷ t.time_of_day.hours ∷ t.time_of_day.minutes ∷ t.time_of_day.seconds
    ∷ t.time_of_day.fractional_seconds ∷ []

-- The fields fit their widths.
abbrev pub IsInRange : Clock → Type 0
IsInRange t =
    (t.year < 10000)
    × (t.month < 100)
    × (t.day < 100)
    × (t.time_of_day.hours < 100)
    × (t.time_of_day.minutes < 100)
    × (t.time_of_day.seconds < 100)
    × (t.time_of_day.fractional_seconds < 1000000)

less-same : (c : ℕ) (xs ys : List ℕ) → less ltb (c ∷ xs) (c ∷ ys) ≡ less ltb xs ys
unfolding less
less-same c xs ys = rw (irreflexive, less) refl
  where
    irreflexive : ltb c c ≡ false
    irreflexive = ground arith

last_digit :
    (m n : ℕ) (xs ys : List ℕ)
    → less ltb ((m / 10) ∷ digit (m % 10) ∷ xs) ((n / 10) ∷ digit (n % 10) ∷ ys)
      ≡ less ltb (m ∷ xs) (n ∷ ys)
unfolding less
last_digit m n xs ys = ground arith

-- Digits of the same width are compared as their numbers.
less-fixed :
    (w m n : ℕ) (xs ys : List ℕ)
    → m < tens w
    → n < tens w
    → less ltb (fixed w m ++ xs) (fixed w n ++ ys) ≡ less ltb (m ∷ xs) (n ∷ ys)
unfolding fixed
less-fixed zero m n xs ys h k = sym (
    ap (λ a. less ltb (a ∷ xs) (n ∷ ys)) {y = 0} (omega arith)
    ∙ ap (λ b. less ltb (0 ∷ xs) (b ∷ ys)) {y = 0} (omega arith)
    ∙ less-same 0 xs ys)
less-fixed (suc w) m n xs ys h k =
    ap₂ (less ltb) (append_assoc (fixed w (m / 10)) (digit (m % 10) ∷ []) xs)
      (append_assoc (fixed w (n / 10)) (digit (n % 10) ∷ []) ys)
    ∙ less-fixed w (m / 10) (n / 10) (digit (m % 10) ∷ xs) (digit (n % 10) ∷ ys) (omega arith)
        (omega arith)
    ∙ last_digit m n xs ys

less-cons :
    (m n : ℕ) (xs ys xs' ys' : List ℕ)
    → less ltb xs ys ≡ less ltb xs' ys'
    → less ltb (m ∷ xs) (n ∷ ys) ≡ less ltb (m ∷ xs') (n ∷ ys')
unfolding less
less-cons m n xs ys xs' ys' e = ap (λ r. if ltb m n then true else if ltb n m then false else r) e

less-part :
    (w m n separator : ℕ) (xs ys xs' ys' : List ℕ)
    → m < tens w
    → n < tens w
    → less ltb xs ys ≡ less ltb xs' ys'
    → less ltb (part w m separator xs) (part w n separator ys) ≡ less ltb (m ∷ xs') (n ∷ ys')
less-part w m n separator xs ys xs' ys' h k e =
    less-fixed w m n (separator ∷ xs) (separator ∷ ys) h k
    ∙ less-cons m n (separator ∷ xs) (separator ∷ ys) xs' ys' (less-same separator xs ys ∙ e)

less-parts :
    (a b : Clock)
    → IsInRange a
    → IsInRange b
    → less ltb (parts a) (parts b) ≡ less ltb (fields a) (fields b)
less-parts a b (y, m, d, h, i, s, f) (y', m', d', h', i', s', f') =
    less-part 4 a.year b.year b'-' _ _ _ _ y y' (
      less-part 2 a.month b.month b'-' _ _ _ _ m m' (
        less-part 2 a.day b.day b'T' _ _ _ _ d d' (
          less-part 2 a.time_of_day.hours b.time_of_day.hours b':' _ _ _ _ h h' (
            less-part 2 a.time_of_day.minutes b.time_of_day.minutes b':' _ _ _ _ i i' (
              less-part 2 a.time_of_day.seconds b.time_of_day.seconds b'.' _ _ _ _ s s' (
                less-fixed 6 a.time_of_day.fractional_seconds b.time_of_day.fractional_seconds [] []
                  f f'))))))

text-parts : (t : Clock) → IsInRange t → (put_clock t fresh).text ≡ parts t
unfolding put_clock put_timer
text-parts t (y, m, d, h, i, s, f) =
    rw
      (
        padded-fixed 3 t.year y,
        padded-fixed 1 t.month m,
        padded-fixed 1 t.day d,
        padded-fixed 1 t.time_of_day.hours h,
        padded-fixed 1 t.time_of_day.minutes i,
        padded-fixed 1 t.time_of_day.seconds s,
        padded-fixed 5 t.time_of_day.fractional_seconds f,
      )
      (simp (append_assoc, append-nil) refl)

length-fixed : (w n : ℕ) → length (fixed w n) ≡ w
unfolding fixed
length-fixed zero n = refl
length-fixed (suc w) n =
    length-append (fixed w (n / 10)) (digit (n % 10) ∷ [])
    ∙ ap (λ k. k + 1) (length-fixed w (n / 10))
    ∙ omega arith

length-part :
    (w n separator k : ℕ) (rest : List ℕ)
    → length rest ≡ k
    → length (part w n separator rest) ≡ w + suc k
length-part w n separator k rest h =
    length-append (fixed w n) (separator ∷ rest) ∙ ap₂ (λ a b. a + suc b) (length-fixed w n) h

pub length-put_clock : (t : Clock) → IsInRange t → length (put_clock t fresh).text ≡ 26
length-put_clock t h =
    ap length (text-parts t h)
    ∙ length-part 4 t.year b'-' 21 _ (
        length-part 2 t.month b'-' 18 _ (
          length-part 2 t.day b'T' 15 _ (
            length-part 2 t.time_of_day.hours b':' 12 _ (
              length-part 2 t.time_of_day.minutes b':' 9 _ (
                length-part 2 t.time_of_day.seconds b'.' 6 _ (
                  ap length (append-nil (fixed 6 t.time_of_day.fractional_seconds))
                  ∙ length-fixed 6 t.time_of_day.fractional_seconds))))))

-- The texts of two clocks whose fields have at most 4, 2, 2, 2, 2, 2 and 6 digits are in the order of
-- strings just as the clocks are in the order of time.
pub clock_texts_ordered :
    (a b : Clock)
    → IsInRange a
    → IsInRange b
    → less ltb (put_clock a fresh).text (put_clock b fresh).text ≡ less ltb (fields a) (fields b)
clock_texts_ordered a b ra rb = rw (text-parts a ra, text-parts b rb) (less-parts a b ra rb)
