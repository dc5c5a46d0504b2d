-- ===== src/SerialPort/TermiosTests.antt =====
-- A terminal that takes every option and attribute, with the flag ICANON of Linux.
use cxx_util.Prelude.{
  ℕ, zero, suc, ◌<◌, ◌≡◌, ◌≢◌, refl, ap, ◌∙◌, arith, Bool, true, false, Bool-cases, ◌&&◌, ◌||◌,
  Option, some, inl, inr, ◌==◌, ==_iff,
}
use cxx_util.WebSocket.ErrorCode.{ErrorCode, success}
use cxx_util.SerialPort.Options.{
  SerialOption, returned, set_serial_port_options, set_all, tenacious_set_option, attempt_loop,
}
use cxx_util.SerialPort.Termios.{Termios, bit_at, configure, returned_raw}

abbrev not_icanon : ℕ
not_icanon = 4294967293

-- Whether the bits below a number are set but the one of ICANON.
abbrev set_below : ℕ → Bool
set_below zero = true
set_below (suc n) = (n == 1 || bit_at n not_icanon == 1) && set_below n

set_below-bit : (n j : ℕ) → set_below n ≡ true → j < n → j ≢ 1 → bit_at j not_icanon ≡ 1
set_below-bit zero j h k d = absurd (omega arith)
set_below-bit (suc n) j h k d = elim (Bool-cases (j == n)) [
  | inl e ↦ at_top ((==_iff j n).0 e)
  | inr e ↦
      set_below-bit n j (second (n == 1 || bit_at n not_icanon == 1) (set_below n) h) (ground arith)
        d
]
  where
    second : (a b : Bool) → (a && b) ≡ true → b ≡ true
    second a b q = ground arith

    first : (a b c : Bool) → ((a || b) && c) ≡ true → a ≡ false → b ≡ true
    first a b c q u = ground arith

    at_top : j ≡ n → bit_at j not_icanon ≡ 1
    at_top q =
        ap (λ i. bit_at i not_icanon) q
        ∙ (==_iff (bit_at n not_icanon) 1).0
            (first (n == 1) (bit_at n not_icanon == 1) (set_below n) h (ground arith))

abbrev terminal : Termios
terminal = record { c_lflag = 35387; vmin = 0; vtime = 5 }

abbrev set_option : Termios → SerialOption → ErrorCode × Termios
set_option s v = (success, s)

abbrev read : Termios → Option Termios
read s = some s

abbrev flush : Termios → Bool × Termios
flush s = (true, s)

abbrev write : Termios → Termios → Bool × Termios
write s tio = (true, tio)

returned_raw_example :
    (set_serial_port_options set_option
        (configure not_icanon terminal read flush write)
        terminal
        9600
      ≡ some (returned (configure not_icanon terminal read flush write terminal)))
    × (tio : Termios) × (read (configure not_icanon terminal read flush write terminal) ≡ some tio)
    × (tio.vmin ≡ 1)
    × (tio.vtime ≡ 0)
    × (bit_at 1 tio.c_lflag ≡ 0)
    × ((j : ℕ) → j < 32 → j ≢ 1 → bit_at j tio.c_lflag ≡ bit_at j terminal.c_lflag)
unfolding set_all tenacious_set_option attempt_loop
returned_raw_example =
    returned_raw not_icanon terminal read flush write set_option 1 9600 terminal terminal terminal
      refl (λ j h d. set_below-bit 32 j refl h d) refl refl (λ u tio. refl)
