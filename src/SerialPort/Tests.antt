-- ===== src/SerialPort/Tests.antt =====
-- A device that fails as its list of error codes tells, and then no more.
use cxx_util.Prelude.{◌≡◌, refl, List, [], ◌∷◌, ◌++◌, if◌then◌else◌}
use cxx_util.WebSocket.ErrorCode.{ErrorCode, success, other, is_error}
use cxx_util.SerialPort.Options.{SerialOption, baud_rate, returned, thrown}
use cxx_util.SerialPort.Options.Attempts.{attempts}

abbrev Device : Type 0
Device = List ErrorCode × List SerialOption

abbrev note : ErrorCode → List SerialOption → SerialOption → List SerialOption
note ec l v = if is_error ec then l else l ++ (v ∷ [])

abbrev set_option : Device → SerialOption → ErrorCode × Device
set_option ([], l) v = (success, ([], l ++ (v ∷ [])))
set_option (ec ∷ ecs, l) v = (ec, (ecs, note ec l v))

abbrev taken : Device → List SerialOption
taken d = d.1

-- Two failures, and then the option is taken.
abbrev flaky : Device
flaky = (other 5 ∷ other 5 ∷ [], [])

third_time : attempts set_option (baud_rate 9600) 99 flaky ≡ returned ([], baud_rate 9600 ∷ [])
unfolding attempts
third_time = refl

-- Two attempts are too few.
only_twice : attempts set_option (baud_rate 9600) 1 flaky ≡ thrown (other 5) ([], [])
unfolding attempts
only_twice = refl
