-- ===== src/SerialPort/Termios.antt =====
-- The terminal's attributes in include/util/asio/setserialportoptions.hpp, on Unix. The system calls are
-- parameters, on a device with a state: `tcgetattr` gives no attributes where it fails, and then those of
-- the variable are indeterminate. The errors are only logged.
use cxx_util.Prelude.{
  ℕ, zero, suc, ◌/◌, ◌%◌, ◌<◌, ◌≤◌, min, bit_and, ◌≡◌, ◌≢◌, refl, ap, ◌∙◌, arith, Bool, Option,
  none, some,
}
use cxx_util.Prelude.Bits.{bit_and_step}
use cxx_util.WebSocket.ErrorCode.{ErrorCode}
use cxx_util.SerialPort.Options.{
  SerialOption, returned, set_serial_port_options, set_all, serial_options,
}

pub record Termios : Type 0 where
  pub c_lflag : ℕ
  pub vmin : ℕ
  pub vtime : ℕ

-- A bit of a number, the lowest at zero.
abbrev pub bit_at : ℕ → ℕ → ℕ
bit_at zero x = x % 2
bit_at (suc k) x = bit_at k (x / 2)

bit_at-bit_and : (k a b : ℕ) → bit_at k (bit_and a b) ≡ min (bit_at k a) (bit_at k b)
bit_at-bit_and zero a b = omega (arith, bit_and_step a b)
bit_at-bit_and (suc k) a b =
    ap (bit_at k) {y = bit_and (a / 2) (b / 2)} (omega (arith, bit_and_step a b))
    ∙ bit_at-bit_and k (a / 2) (b / 2)

bit_at_le : (k x : ℕ) → bit_at k x ≤ 1
bit_at_le zero x = omega arith
bit_at_le (suc k) x = bit_at_le k (x / 2)

module _ {S : Type 0} (not_icanon : ℕ) (indeterminate : Termios) (tcgetattr : S → Option Termios)
    (tcflush : S → Bool × S) (tcsetattr : S → Termios → Bool × S) where
  abbrev pub attributes : Option Termios → Termios
  attributes none = indeterminate
  attributes (some tio) = tio

  abbrev pub raw : Termios → Termios
  raw tio = record { c_lflag = bit_and tio.c_lflag not_icanon; vmin = 1; vtime = 0 }

  unfoldable pub configure : S → S
  configure s = (tcsetattr (tcflush s).1 (raw (attributes (tcgetattr s)))).1

  -- When the options are set without an error, `setSerialPortOptions` returns, and then on a device whose
  -- attributes could be read and set, reads wait for one character, without a time limit, and of the 32
  -- local flags that of canonical input is off and the others are as they were; `not_icanon` is the number
  -- with all 32 bits but that one.
  pub returned_raw :
      (set_option : S → SerialOption → ErrorCode × S) (canonical baud : ℕ) (s t : S)
      (before : Termios)
      → bit_at canonical not_icanon ≡ 0
      → ((j : ℕ) → j < 32 → j ≢ canonical → bit_at j not_icanon ≡ 1)
      → set_all set_option (serial_options baud) s ≡ some (returned t)
      → tcgetattr t ≡ some before
      → ((u : S) (tio : Termios) → tcgetattr (tcsetattr u tio).1 ≡ some tio)
      → (set_serial_port_options set_option configure s baud ≡ some (returned (configure t)))
        × (tio : Termios) × (tcgetattr (configure t) ≡ some tio)
        × (tio.vmin ≡ 1)
        × (tio.vtime ≡ 0)
        × (bit_at canonical tio.c_lflag ≡ 0)
        × ((j : ℕ) → j < 32 → j ≢ canonical → bit_at j tio.c_lflag ≡ bit_at j before.c_lflag)
  unfolding configure set_serial_port_options
  returned_raw set_option canonical baud s t before z ones e f set = (
    rw (e, set_serial_port_options) refl,
    raw before,
    rw (configure, f) (set (tcflush t).1 (raw before)),
    refl,
    refl,
    bit_at-bit_and canonical before.c_lflag not_icanon ∙ omega (arith, z),
    λ j h n.
        bit_at-bit_and j before.c_lflag not_icanon
        ∙ omega (arith, ones j h n, bit_at_le j before.c_lflag),
  )
