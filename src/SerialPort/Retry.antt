-- ===== src/SerialPort/Retry.antt =====
-- `asyncOpenUntilSuccess` of include/util/asio/serialportopener.hpp: it opens with `asyncOpen`, and
-- after an error waits on the same timer and opens again. An `asyncOpen` that it starts again is
-- dispatched from the context, which runs it in place.
pub mod Success
pub mod Persistence
use cxx_util.Prelude.{ℕ, Bool, true, false, List, [], ◌∷◌, if◌then◌else◌}
use cxx_util.WebSocket.ErrorCode.{ErrorCode, success, operation_aborted, is_error}
use cxx_util.SerialPort.Options.{SerialOption}
use cxx_util.SerialPort.Opener
use cxx_util.SerialPort.Opener.{
  Expiry, from_now, is_least, Stage, waiting, ready, done, Opener, Event, running, firing, closing,
  async_open,
}

-- In an `asyncOpen`, in the pause before the next one, ready to start one, at first or after the pause,
-- or complete.
pub data Phase : Type 0 where
  opening pausing : Phase
  resuming : ErrorCode → Phase
  complete : ErrorCode → Phase

pub record Retry (S : Type 0) : Type 0 where
  pub opener : Opener S
  pub phase : Phase

abbrev phase_cancelled : Phase → Phase
phase_cancelled pausing = resuming operation_aborted
phase_cancelled p = p

abbrev phase_fired : Phase → Phase
phase_fired pausing = resuming success
phase_fired p = p

module _ {S : Type 0} where
  -- `asyncOpenUntilSuccess`: its coroutine is dispatched, and does not start an `asyncOpen` before its
  -- first run. Till then the timer is as it was, and no `asyncOpen` waits.
  abbrev pub open_until_success : Expiry → S → Retry S
  open_until_success expiry s = record {
    opener = record { expiry = expiry; port = s; stage = done operation_aborted };
    phase = resuming success;
  }

  module _ (open_port : S → ErrorCode × S) (set_option : S → SerialOption → ErrorCode × S)
      (terminal : S → S) (baud settle_delay write_delay retry_delay : ℕ) where
    -- The head of the `while` loop, with the error code of an `asyncOpen`.
    unfoldable pub opened : ErrorCode → Opener S → Retry S
    opened ec o =
        if is_error ec
        then (if is_least o.expiry
            then record { opener = o; phase = complete operation_aborted }
            else record { opener = record o { expiry = from_now retry_delay }; phase = pausing })
        else record { opener = o; phase = complete ec }

    -- An `asyncOpen` that is done resumes the loop.
    abbrev pub advance : Opener S → Stage → Retry S
    advance o (done ec) = opened ec o
    advance o t = record { opener = o; phase = opening }

    abbrev inner_step : Event → Opener S → Opener S
    inner_step e o = Opener.step open_port set_option terminal baud settle_delay write_delay e o

    -- At first, without an error, and after the pause.
    unfoldable pub open_again : ErrorCode → Opener S → Retry S
    open_again ec o =
        if is_error ec
        then record { opener = o; phase = complete ec }
        else (let o' = inner_step running (async_open o.port) in advance o' o'.stage)

    abbrev pub run_phase : Opener S → Phase → Retry S
    run_phase o opening = let o' = inner_step running o in advance o' o'.stage
    run_phase o (resuming ec) = open_again ec o
    run_phase o p = record { opener = o; phase = p }

    unfoldable pub step : Event → Retry S → Retry S
    step running r = run_phase r.opener r.phase
    step firing r = record { opener = inner_step firing r.opener; phase = phase_fired r.phase }
    step closing r = record {
      opener = inner_step closing r.opener;
      phase = phase_cancelled r.phase;
    }

    unfoldable pub run : List Event → Retry S → Retry S
    run [] r = r
    run (e ∷ es) r = run es (step e r)
