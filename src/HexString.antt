-- ===== src/HexString.antt =====
-- `toHexString` of include/util/tohexstring.hpp, on the stream of TimeStamp.antt. The items are given as
-- the `int`s that they are cast to, and `std::hex` prints an `int` as the unsigned number of its 32 bits.
mod Read
mod Tests
use cxx_util.Prelude.{
  ℕ, zero, suc, ◌+◌, ◌-◌, ◌/◌, ◌%◌, ◌^◌, List, [], ◌∷◌, ◌++◌, ltb, if◌then◌else◌,
}
use cxx_util.Prelude.Int.{ℤ, pos, negsuc}
use cxx_util.TimeStamp.{Stream, fresh, put, setw}

abbrev pub to_unsigned : ℤ → ℕ
to_unsigned (pos n) = n
to_unsigned (negsuc n) = 2 ^ 32 - 1 - n

abbrev pub hex_digit : ℕ → ℕ
hex_digit d = if ltb d 10 then b'0' + d else b'a' + (d - 10)

-- With fuel above the number.
unfoldable pub hex_digits : ℕ → ℕ → List ℕ
hex_digits zero n = []
hex_digits (suc fuel) n =
    let rest = hex_digits fuel (n / 16) in
    if ltb n 16 then hex_digit n ∷ [] else rest ++ (hex_digit (n % 16) ∷ [])

abbrev pub put_hex : ℤ → Stream → Stream
put_hex v os = put (hex_digits (to_unsigned v + 1) (to_unsigned v)) os

-- The loop.
unfoldable pub put_rest : List ℤ → Stream → Stream
put_rest [] os = os
put_rest (v ∷ vs) os = put_rest vs (put_hex v (put (b' ' ∷ []) os))

unfoldable pub to_hex_string : List ℤ → List ℕ
to_hex_string [] = (setw 2 fresh).text
to_hex_string (v ∷ vs) = (put_rest vs (put_hex v (setw 2 fresh))).text
