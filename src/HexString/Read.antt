-- ===== src/HexString/Read.antt =====
-- Reading back the texts of include/util/tohexstring.hpp.
use cxx_util.Prelude.{
  ℕ, zero, suc, ◌+◌, ◌-◌, ◌*◌, ◌/◌, ◌%◌, ◌<◌, ◌≡◌, refl, sym, ap, ◌∙◌, arith, false, Bool-cases,
  List, [], ◌∷◌, ◌++◌, Option, none, some, inl, inr, map, length, replicate, ltb, ltb→lt, ◌==◌,
  if◌then◌else◌,
}
use mathlib.Core.List.{append_assoc, append-nil}
use cxx_util.Prelude.Int.{ℤ}
use cxx_util.TimeStamp.{Stream, fresh, put, setw}
use cxx_util.HexString.{to_unsigned, hex_digit, hex_digits, put_hex, put_rest, to_hex_string}

abbrev value : ℕ → ℕ
value c = if ltb c b'a' then c - b'0' else c - b'a' + 10

-- The number read so far, if there is one.
abbrev so_far : Option ℕ → List ℕ
so_far none = []
so_far (some n) = n ∷ []

abbrev more : Option ℕ → ℕ → Option ℕ
more none c = some (value c)
more (some n) c = some (n * 16 + value c)

-- Hexadecimal numbers between any spaces.
abbrev pub read_hex : Option ℕ → List ℕ → List ℕ
read_hex o [] = so_far o
read_hex o (c ∷ s) =
    let next = read_hex none s in
    let on = read_hex (more o c) s in if c == b' ' then so_far o ++ next else on

value-hex_digit : (d : ℕ) → d < 16 → value (hex_digit d) ≡ d
value-hex_digit d h = elim (Bool-cases (ltb d 10)) [
  | inl e ↦ rw (e) (ground arith)
  | inr e ↦ rw (e) (ground arith)
]

not_space : (d : ℕ) → (hex_digit d == b' ') ≡ false
not_space d = elim (Bool-cases (ltb d 10)) [
  | inl e ↦ rw (e) (ground arith)
  | inr e ↦ rw (e) (ground arith)
]

read_digit :
    (o : Option ℕ) (d : ℕ) (s : List ℕ)
    → read_hex o (hex_digit d ∷ s) ≡ read_hex (more o (hex_digit d)) s
read_digit o d s = rw (not_space d, read_hex) refl

read-hex_digits :
    (f n : ℕ) (s : List ℕ) → n < f → read_hex none (hex_digits f n ++ s) ≡ read_hex (some n) s
unfolding hex_digits
read-hex_digits zero n s h = absurd (omega arith)
read-hex_digits (suc f) n s h = elim (Bool-cases (ltb n 16)) [
  | inl e ↦
      rw (hex_digits, e)
        (read_digit none n s ∙ ap (λ m. read_hex (some m) s) (value-hex_digit n (ltb→lt n 16 e)))
  | inr e ↦
      rw (hex_digits, e, append_assoc (hex_digits f (n / 16)) (hex_digit (n % 16) ∷ []) s)
        (read-hex_digits f (n / 16) (hex_digit (n % 16) ∷ s) (ground arith)
          ∙ read_digit (some (n / 16)) (n % 16) s
          ∙ ap (λ m. read_hex (some (n / 16 * 16 + m)) s) (value-hex_digit (n % 16) (omega arith))
          ∙ ap (λ m. read_hex (some m) s) (omega arith))
]

read_spaces : (n : ℕ) (s : List ℕ) → read_hex none (replicate n b' ' ++ s) ≡ read_hex none s
read_spaces zero s = refl
read_spaces (suc n) s = read_spaces n s

-- What follows the first number.
abbrev tail_text : List ℤ → List ℕ
tail_text [] = []
tail_text (v ∷ vs) = b' ' ∷ (hex_digits (to_unsigned v + 1) (to_unsigned v) ++ tail_text vs)

put-unpadded : (s : List ℕ) (os : Stream) → os.width ≡ 0 → (put s os).text ≡ os.text ++ s
put-unpadded s os h =
    ap (λ n. os.text ++ (replicate n os.fill ++ s)) {x = os.width - length s} {y = 0}
      (omega (arith, h))

put_rest-text :
    (vs : List ℤ) (os : Stream) → os.width ≡ 0 → (put_rest vs os).text ≡ os.text ++ tail_text vs
unfolding put_rest
put_rest-text [] os h = sym (append-nil os.text)
put_rest-text (v ∷ vs) os h =
    put_rest-text vs (put_hex v (put (b' ' ∷ []) os)) refl
    ∙ ap (λ l. l ++ tail_text vs)
        (put-unpadded digits (put (b' ' ∷ []) os) refl
          ∙ ap (λ l. l ++ digits) (put-unpadded (b' ' ∷ []) os h))
    ∙ append_assoc (os.text ++ (b' ' ∷ [])) digits (tail_text vs)
    ∙ append_assoc os.text (b' ' ∷ []) (digits ++ tail_text vs)
  where
    digits : List ℕ
    digits = hex_digits (to_unsigned v + 1) (to_unsigned v)

read_tail : (n : ℕ) (vs : List ℤ) → read_hex (some n) (tail_text vs) ≡ n ∷ map to_unsigned vs
read_tail n [] = refl
read_tail n (v ∷ vs) =
    ap (λ l. n ∷ l)
      (read-hex_digits (to_unsigned v + 1) (to_unsigned v) (tail_text vs) (omega arith)
        ∙ read_tail (to_unsigned v) vs)

-- The text of any items reads back, as hexadecimal numbers between spaces, to the items as unsigned
-- numbers of 32 bits.
pub read_hex-to_hex_string : (vs : List ℤ) → read_hex none (to_hex_string vs) ≡ map to_unsigned vs
unfolding to_hex_string
read_hex-to_hex_string [] = refl
read_hex-to_hex_string (v ∷ vs) =
    ap (read_hex none) (
      put_rest-text vs (put_hex v (setw 2 fresh)) refl
      ∙ append_assoc (replicate (2 - length digits) b' ') digits (tail_text vs))
    ∙ read_spaces (2 - length digits) (digits ++ tail_text vs)
    ∙ read-hex_digits (to_unsigned v + 1) (to_unsigned v) (tail_text vs) (omega arith)
    ∙ read_tail (to_unsigned v) vs
  where
    digits : List ℕ
    digits = hex_digits (to_unsigned v + 1) (to_unsigned v)
