-- ===== src/SerialPort/Opener.antt =====
-- `SerialPortOpener` of include/util/asio/serialportopener.hpp: the coroutine of `asyncOpen`, the
-- timer that `close` sets to the least time point, and the context that runs what is ready. The
-- timer is Asio's: a new expiry ends the pending wait with `operation_aborted`, and a wait that has
-- ended already is not changed. A coroutine that returns without `complete` gives the default
-- result of its operation, `operation_aborted`. `open`, `set_option` and the terminal's calls are
-- parameters.
pub mod Safety
pub mod Cancel
use cxx_util.Prelude.{ℕ, Bool, true, false, List, [], ◌∷◌, Option, none, some, if◌then◌else◌}
use cxx_util.SerialPort.Options.{SerialOption, set_serial_port_options_with}
use cxx_util.WebSocket.ErrorCode.{ErrorCode, success, operation_aborted, is_error}

-- `time_point::min()`, or a time from now.
pub data Expiry : Type 0 where
  least : Expiry
  from_now : ℕ → Expiry

abbrev pub is_least : Expiry → Bool
is_least least = true
is_least (from_now d) = false

-- Where the coroutine resumes: at its start, after the settle delay, and after the write delay.
pub data Point : Type 0 where
  start settling writing : Point

-- The operation: waiting for the timer, ready to be run with an error code, or done.
pub data Stage : Type 0 where
  waiting : Point → Stage
  ready : Point → ErrorCode → Stage
  done : ErrorCode → Stage

pub record Opener (S : Type 0) : Type 0 where
  pub expiry : Expiry
  pub port : S
  pub stage : Stage

-- The context runs what is ready, the timer expires, or somebody calls `close`.
pub data Event : Type 0 where
  running firing closing : Event

abbrev pub cancelled : Stage → Stage
cancelled (waiting p) = ready p operation_aborted
cancelled (ready p ec) = ready p ec
cancelled (done ec) = done ec

abbrev pub fired : Stage → Stage
fired (waiting p) = ready p success
fired (ready p ec) = ready p ec
fired (done ec) = done ec

module _ {S : Type 0} where
  -- `close`.
  abbrev pub close : Opener S → Opener S
  close o = record o { expiry = least; stage = cancelled o.stage }

  -- `asyncOpen`: the timer is set to now, and the coroutine is dispatched.
  abbrev pub async_open : S → Opener S
  async_open s = record { expiry = from_now 0; port = s; stage = ready start success }

  -- `setSerialPortOptions` with its error code; `none` would be no fuel for its loops.
  unfoldable pub configure :
      (S → SerialOption → ErrorCode × S) → (S → S) → ℕ → S → ErrorCode → ErrorCode × S
  configure set_option terminal baud s ec =
      elim (set_serial_port_options_with set_option terminal s baud ec) [
        | none ↦ (ec, s)
        | some r ↦ r
      ]

  module _ (open_port : S → ErrorCode × S) (set_option : S → SerialOption → ErrorCode × S)
      (terminal : S → S) (baud settle_delay write_delay : ℕ) where
    -- After a call that gives an error code: completion with an error, the end without one if the
    -- timer says that the opener was closed, or the next wait.
    abbrev pub proceed : Expiry → ErrorCode × S → ℕ → Point → Opener S
    proceed expiry (ec, s) delay next =
        if is_error ec
        then record { expiry = expiry; port = s; stage = done ec }
        else if is_least expiry
        then record { expiry = expiry; port = s; stage = done operation_aborted }
        else record { expiry = from_now delay; port = s; stage = waiting next }

    unfoldable pub resume : Point → ErrorCode → Expiry → S → Opener S
    resume start ec expiry s = proceed expiry (open_port s) settle_delay settling
    resume settling ec expiry s =
        proceed expiry (configure set_option terminal baud s ec) write_delay writing
    resume writing ec expiry s = record { expiry = expiry; port = s; stage = done ec }

    abbrev pub run_stage : Opener S → Stage → Opener S
    run_stage o (ready p ec) = resume p ec o.expiry o.port
    run_stage o (waiting p) = o
    run_stage o (done ec) = o

    unfoldable pub step : Event → Opener S → Opener S
    step running o = run_stage o o.stage
    step firing o = record o { stage = fired o.stage }
    step closing o = close o

    unfoldable pub run : List Event → Opener S → Opener S
    run [] o = o
    run (e ∷ es) o = run es (step e o)
