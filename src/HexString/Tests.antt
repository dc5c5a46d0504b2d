-- ===== src/HexString/Tests.antt =====
-- Only the first number is padded, with a space, and a negative item has all eight digits.
use cxx_util.Prelude.{◌≡◌, refl, [], ◌∷◌, none, map}
use cxx_util.Prelude.Int.{pos, negsuc}
use cxx_util.HexString.{to_unsigned, hex_digits, put_rest, to_hex_string}
use cxx_util.HexString.Read.{read_hex, read_hex-to_hex_string}

text_of_two : to_hex_string (pos 10 ∷ pos 5 ∷ []) ≡ b' ' ∷ b'a' ∷ b' ' ∷ b'5' ∷ []
unfolding to_hex_string put_rest hex_digits
text_of_two = refl

text_of_minus_one :
    to_hex_string (negsuc 0 ∷ []) ≡ b'f' ∷ b'f' ∷ b'f' ∷ b'f' ∷ b'f' ∷ b'f' ∷ b'f' ∷ b'f' ∷ []
unfolding to_hex_string put_rest hex_digits
text_of_minus_one = refl

read_hex-to_hex_string_example :
    read_hex none (to_hex_string (pos 10 ∷ pos 200 ∷ [])) ≡ map to_unsigned (pos 10 ∷ pos 200 ∷ [])
read_hex-to_hex_string_example = read_hex-to_hex_string (pos 10 ∷ pos 200 ∷ [])
