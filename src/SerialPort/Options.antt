-- ===== src/SerialPort/Options.antt =====
-- include/util/asio/setserialportoptions.hpp. The device has a state of a type `S`, and
-- `set_option` is Asio's: its error code, and the device after it. `none` is no fuel for the loop.
pub mod Attempts
pub mod Order
pub mod Thrown
use cxx_util.Prelude.{
  ℕ, zero, suc, ◌+◌, Bool, true, false, not, ◌&&◌, List, [], ◌∷◌, Option, none, some, if◌then◌else◌,
  ◌==◌,
}
use cxx_util.Prelude.Int.{ℤ, pos, negsuc, ltb_ℤ}
use cxx_util.WebSocket.ErrorCode.{ErrorCode, success, is_error}

pub data SerialOption : Type 0 where
  baud_rate : ℕ → SerialOption
  character_size : ℕ → SerialOption
  parity_none stop_bits_one flow_control_none : SerialOption

-- How a call ends: it returns, or it throws `system_error`.
pub data Outcome (S : Type 0) : Type 0 where
  returned : S → Outcome S
  thrown : ErrorCode → S → Outcome S

abbrev pub max_serial_set_option_attempts : ℤ
max_serial_set_option_attempts = pos 100

-- A counter of attempts against `maxAttempts`.
abbrev pub reached : ℕ → ℤ → Bool
reached attempts (pos n) = attempts == n
reached attempts (negsuc n) = false

abbrev pub throw_if : {S : Type 0} → ErrorCode → S → Outcome S
throw_if ec s = if is_error ec then thrown ec s else returned s

abbrev pub serial_options : ℕ → List SerialOption
serial_options baud =
    baud_rate baud ∷ character_size 8 ∷ parity_none ∷ stop_bits_one ∷ flow_control_none ∷ []

abbrev pub caught : {S : Type 0} → ErrorCode → Outcome S → ErrorCode × S
caught ec (returned s) = (ec, s)
caught ec (thrown ec' s) = (ec', s)

module _ {S : Type 0} (set_option : S → SerialOption → ErrorCode × S) where
  abbrev pub code : S → SerialOption → ErrorCode
  code s value = (set_option s value).0

  abbrev pub after : S → SerialOption → S
  after s value = (set_option s value).1

  -- The loop, from its body on: the last error code, and the device.
  unfoldable pub attempt_loop : ℕ → SerialOption → ℤ → ℕ → S → Option (ErrorCode × S)
  attempt_loop zero value max attempts s = none
  attempt_loop (suc fuel) value max attempts s =
      elim (ltb_ℤ (pos 0) max && (not (reached (attempts + 1) max) && is_error (code s value))) [
        | false ↦ some (code s value, after s value)
        | true ↦ attempt_loop fuel value max (attempts + 1) (after s value)
      ]

  -- Fuel: the loop makes at most `maxAttempts` attempts, and one where that is not positive.
  abbrev pub attempts_fuel : ℤ → ℕ
  attempts_fuel (pos n) = n + 1
  attempts_fuel (negsuc n) = 1

  unfoldable pub tenacious_set_option : S → SerialOption → ℤ → Option (Outcome S)
  tenacious_set_option s value max = elim (attempt_loop (attempts_fuel max) value max 0 s) [
    | none ↦ none
    | some r ↦ some (throw_if r.0 r.1)
  ]

  unfoldable pub set_all : List SerialOption → S → Option (Outcome S)
  set_all [] s = some (returned s)
  set_all (v ∷ vs) s = elim (tenacious_set_option s v max_serial_set_option_attempts) [
    | none ↦ none
    | some (thrown ec s') ↦ some (thrown ec s')
    | some (returned s') ↦ set_all vs s'
  ]

  -- `configure` is what follows the options: the system calls on the terminal's attributes, whose
  -- errors are only logged.
  unfoldable pub set_serial_port_options : (S → S) → S → ℕ → Option (Outcome S)
  set_serial_port_options configure s baud = elim (set_all (serial_options baud) s) [
    | none ↦ none
    | some (thrown ec s') ↦ some (thrown ec s')
    | some (returned s') ↦ some (returned (configure s'))
  ]

  -- The overload with an error code: the caller's error code is written only where one is thrown.
  unfoldable pub set_serial_port_options_with : (S → S) → S → ℕ → ErrorCode → Option (ErrorCode × S)
  set_serial_port_options_with configure s baud ec =
      elim (set_serial_port_options configure s baud) [ none ↦ none | some o ↦ some (caught ec o) ]
