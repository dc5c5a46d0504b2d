-- ===== src/TimeStamp.antt =====
-- The formatting of clocks and timers of include/util/logsafely.hpp. A time of Boost.DateTime is its
-- fields. A stream has a fill character, which stays, and a width, which the next output uses up; a
-- number has at least that many characters, filled on the left. Characters are their ASCII codes.
pub mod Order
mod Tests
use cxx_util.Prelude.{ℕ, ◌-◌, List, [], ◌∷◌, ◌++◌, length, replicate}
use cxx_util.Prelude.Digits.{decimal}

pub record Stream : Type 0 where
  pub text : List ℕ
  pub fill : ℕ
  pub width : ℕ

pub record Timer : Type 0 where
  pub hours : ℕ
  pub minutes : ℕ
  pub seconds : ℕ
  pub fractional_seconds : ℕ

pub record Clock : Type 0 where
  pub year : ℕ
  pub month : ℕ
  pub day : ℕ
  pub time_of_day : Timer

abbrev pub fresh : Stream
fresh = record { text = []; fill = b' '; width = 0 }

-- `std::setfill` and `std::setw`.
abbrev pub setfill : ℕ → Stream → Stream
setfill c os = record os { fill = c }

abbrev pub setw : ℕ → Stream → Stream
setw n os = record os { width = n }

-- The output of a text, and of a number.
abbrev pub put : List ℕ → Stream → Stream
put s os = record os { text = os.text ++ (replicate (os.width - length s) os.fill ++ s); width = 0 }

abbrev pub put_number : ℕ → Stream → Stream
put_number n os = put (decimal n) os

unfoldable pub put_timer : Timer → Stream → Stream
put_timer t os =
    let os = setfill b'0' os in
    let os = put (b':' ∷ []) (put_number t.hours (setw 2 os)) in
    let os = put (b':' ∷ []) (put_number t.minutes (setw 2 os)) in
    let os = put (b'.' ∷ []) (put_number t.seconds (setw 2 os)) in
    put_number t.fractional_seconds (setw 6 os)

unfoldable pub put_clock : Clock → Stream → Stream
put_clock t os =
    let os = setfill b'0' os in
    let os = put (b'-' ∷ []) (put_number t.year (setw 4 os)) in
    let os = put (b'-' ∷ []) (put_number t.month (setw 2 os)) in
    let os = put (b'T' ∷ []) (put_number t.day (setw 2 os)) in put_timer t.time_of_day os
