-- ===== src/TimeStamp/Tests.antt =====
-- The texts of a timer and of a clock.
use cxx_util.Prelude.{◌≡◌, refl, [], ◌∷◌}
use cxx_util.Prelude.Digits.{decimal, digits_of}
use cxx_util.TimeStamp.{Timer, fresh, put_timer, put_clock}

abbrev timer : Timer
timer = record { hours = 7; minutes = 5; seconds = 30; fractional_seconds = 42 }

timer_text :
    (put_timer timer fresh).text
    ≡ b'0' ∷ b'7' ∷ b':' ∷ b'0' ∷ b'5' ∷ b':' ∷ b'3' ∷ b'0' ∷ b'.' ∷ b'0' ∷ b'0' ∷ b'0' ∷ b'0'
      ∷ b'4' ∷ b'2' ∷ []
unfolding put_timer decimal digits_of
timer_text = refl

clock_text :
    (put_clock (record { year = 2016; month = 3; day = 9; time_of_day = timer }) fresh).text
    ≡ b'2'
      ∷ b'0'
      ∷ b'1'
      ∷ b'6'
      ∷ b'-'
      ∷ b'0'
      ∷ b'3'
      ∷ b'-'
      ∷ b'0'
      ∷ b'9'
      ∷ b'T'
      ∷ (put_timer timer fresh).text
unfolding put_clock put_timer decimal digits_of
clock_text = refl
