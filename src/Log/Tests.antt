-- ===== src/Log/Tests.antt =====
-- Logging to a file and to the console, and the line of a record.
use cxx_util.Prelude.{ℕ, ◌≡◌, refl, arith, Bool, true, false, List, [], ◌∷◌, ◌++◌, none, some, ltb}
use cxx_util.Version.{less}
use cxx_util.Log.{
  Text, Record, default_formatter, file, Core, returned, Notification, log_file, log_console,
  log_syslog, Filesystem, options_description, init_file_sink, notify, init_console_sink,
  init_syslog_sink,
}
use cxx_util.Log.Sinks.{IsArmed, wanted, core_of, Left, notify-sinks}
use cxx_util.Log.Directory.{file_sink-is_directory}
use cxx_util.Log.Lines.{lines_ordered}

-- One directory, which is there or not.
abbrev one_directory : Filesystem Bool
one_directory = record {
  absolute = λ p. b'/' ∷ p;
  parent_path = λ p. b'/' ∷ [];
  weakly_canonical = λ f p. some p;
  exists = λ f p. f;
  is_directory = λ f p. f;
  create_directories = λ f p. (true, true);
}

abbrev started : Core Bool
started = record { sinks = []; logging_enabled = true; files = false }

abbrev options : List Notification
options = log_console false ∷ log_file (b'a' ∷ []) ∷ log_syslog [] ∷ []

abbrev with_file : Core Bool
with_file = record { sinks = file (b'/' ∷ b'a' ∷ []) ∷ []; logging_enabled = true; files = true }

options_notified : notify one_directory options (options_description started) ≡ returned with_file
unfolding notify options_description init_file_sink init_console_sink init_syslog_sink
options_notified = refl

notify-sinks_example :
    (front back : List Notification) × (options ≡ front ++ back)
    × ((core_of one_directory (notify one_directory options (options_description started))).sinks
        ≡ wanted one_directory front)
    × IsArmed (core_of one_directory (notify one_directory options (options_description started)))
    × Left one_directory (notify one_directory options (options_description started)) back
notify-sinks_example = notify-sinks one_directory options started refl

file_sink-is_directory_example :
    (parent : Text) × (one_directory.weakly_canonical false
        (one_directory.parent_path (one_directory.absolute (b'a' ∷ [])))
      ≡ some parent)
    × (one_directory.is_directory with_file.files parent ≡ true)
    × (with_file.sinks ≡ started.sinks ++ (file (one_directory.absolute (b'a' ∷ [])) ∷ []))
unfolding init_file_sink
file_sink-is_directory_example =
    file_sink-is_directory one_directory (λ f p h. refl) (b'a' ∷ []) started with_file (omega arith)
      refl

abbrev at : ℕ → Record
at us = record {
  time_stamp = record {
    year = 2016;
    month = 3;
    day = 9;
    time_of_day = record { hours = 7; minutes = 5; seconds = 30; fractional_seconds = us };
  };
  channel = some (b'c' ∷ []);
  role = none;
  protocol = none;
  device_path = some (b'd' ∷ []);
  remote_endpoint = none;
  serial_id = none;
  request_id = none;
  message = b'm' ∷ [];
}

lines_ordered_example : less ltb (default_formatter (at 9)) (default_formatter (at 10)) ≡ true
unfolding less
lines_ordered_example =
    lines_ordered (at 9) (at 10)
      (omega arith, omega arith, omega arith, omega arith, omega arith, omega arith, omega arith)
      (omega arith, omega arith, omega arith, omega arith, omega arith, omega arith, omega arith)
      refl
