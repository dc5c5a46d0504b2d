-- ===== src/SerialPort/RetryTests.antt =====
-- A port that opens at the second attempt, and takes its options at once.
use cxx_util.Prelude.{◌≡◌, refl, List, [], ◌∷◌, ◌++◌, false}
use cxx_util.WebSocket.ErrorCode.{ErrorCode, success, other, is_error}
use cxx_util.SerialPort.Options.{
  SerialOption, attempt_loop, tenacious_set_option, set_all, set_serial_port_options,
  set_serial_port_options_with,
}
use cxx_util.SerialPort.Opener
use cxx_util.SerialPort.Opener.{
  Opener, Expiry, from_now, least, Point, start, settling, writing, Stage, waiting, ready, done,
  Event, running, firing, closing, async_open,
}
use cxx_util.SerialPort.Opener.Cancel.{Failed, close_fails}
use cxx_util.SerialPort.Retry
use cxx_util.SerialPort.Retry.{
  Retry, Phase, opening, pausing, resuming, complete, open_until_success,
}
use cxx_util.SerialPort.Retry.Success.{Configured, complete-Configured}
use cxx_util.SerialPort.Retry.Persistence.{complete_success}

-- The codes that `open` gives in turn, and the options that were set.
abbrev Port : Type 0
Port = List ErrorCode × List SerialOption

abbrev open_port : Port → ErrorCode × Port
open_port ([], l) = (success, ([], l))
open_port (ec ∷ ecs, l) = (ec, (ecs, l))

abbrev set_option : Port → SerialOption → ErrorCode × Port
set_option (ecs, l) v = (success, (ecs, l ++ (v ∷ [])))

abbrev same : Port → Port
same s = s

abbrev unopened : Port
unopened = ([], [])

abbrev one_failure : Port
one_failure = (other 2 ∷ [], [])

abbrev undisturbed : List Event
undisturbed = running ∷ firing ∷ running ∷ firing ∷ running ∷ []

abbrev opened_port : Opener Port
opened_port = Opener.run open_port set_option same 9600 500 100 undisturbed (async_open unopened)

opened_port_done : opened_port.stage ≡ done success
unfolding Opener.run Opener.step Opener.resume Opener.configure attempt_loop tenacious_set_option
    set_all set_serial_port_options set_serial_port_options_with
opened_port_done = refl

close_fails_example :
    Failed
      (Opener.run open_port set_option same 9600 500 100
        (closing ∷ running ∷ [])
        (record { expiry = from_now 500; port = unopened; stage = waiting settling })).stage
close_fails_example =
    close_fails open_port set_option same 9600 500 100
      (record { expiry = from_now 500; port = unopened; stage = waiting settling }) tt

-- The first attempt fails, and the second one succeeds.
abbrev twice : List Event
twice = running ∷ firing ∷ running ∷ firing ∷ running ∷ firing ∷ running ∷ []

abbrev retried : Retry Port
retried =
    Retry.run open_port set_option same 9600 500 100 1000 twice
      (open_until_success least one_failure)

retried_complete : retried.phase ≡ complete success
unfolding Retry.run Retry.step Retry.opened Retry.open_again Opener.step Opener.resume
    Opener.configure attempt_loop tenacious_set_option set_all set_serial_port_options
    set_serial_port_options_with
retried_complete = refl

complete-Configured_example :
    Configured open_port set_option same 9600 500 100 1000 retried.opener.port
complete-Configured_example =
    complete-Configured open_port set_option same 9600 500 100 1000 least one_failure twice success
      retried_complete refl

complete_success_example : is_error success ≡ false
complete_success_example =
    complete_success open_port set_option same 9600 500 100 1000 least one_failure twice success tt
      retried_complete

-- A `close` between the end of the pause and the resumption is lost: the next `asyncOpen` sets the
-- timer again.
abbrev closed_late : Retry Port
closed_late =
    Retry.run open_port set_option same 9600 500 100 1000
      (running ∷ firing ∷ closing ∷ running ∷ firing ∷ running ∷ firing ∷ running ∷ [])
      (open_until_success least one_failure)

closed_late_complete : closed_late.phase ≡ complete success
unfolding Retry.run Retry.step Retry.opened Retry.open_again Opener.step Opener.resume
    Opener.configure attempt_loop tenacious_set_option set_all set_serial_port_options
    set_serial_port_options_with
closed_late_complete = refl

-- A `close` before the coroutine's first run is lost, too.
abbrev closed_early : Retry Port
closed_early =
    Retry.run open_port set_option same 9600 500 100 1000
      (closing ∷ running ∷ firing ∷ running ∷ firing ∷ running ∷ [])
      (open_until_success (from_now 0) unopened)

closed_early_complete : closed_early.phase ≡ complete success
unfolding Retry.run Retry.step Retry.opened Retry.open_again Opener.step Opener.resume
    Opener.configure attempt_loop tenacious_set_option set_all set_serial_port_options
    set_serial_port_options_with
closed_early_complete = refl
