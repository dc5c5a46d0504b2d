-- ===== src/Log.antt =====
-- The set-up of logging of src/log.cpp: the notifiers of the options add sinks to the core of Boost.Log,
-- and each sink writes records with the default formatter. Boost.Filesystem is a parameter, with the
-- state of the files; a directory that could not be created is a thrown error. Texts and paths are lists
-- of character codes.
mod Sinks
mod Directory
mod Lines
mod Tests
use cxx_util.Prelude.{
  ℕ, Bool, true, false, List, [], ◌∷◌, ◌++◌, Option, none, some, length, ltb, if◌then◌else◌,
}
use cxx_util.TimeStamp.{Clock, fresh, put_clock}

abbrev pub Text : Type 0
Text = List ℕ

-- The attributes of a record that the formatter reads.
pub record Record : Type 0 where
  pub time_stamp : Clock
  pub channel : Option Text
  pub role : Option Text
  pub protocol : Option Text
  pub device_path : Option Text
  pub remote_endpoint : Option Text
  pub serial_id : Option Text
  pub request_id : Option Text
  pub message : Text

-- `expr::if_(expr::has_attr<std::string>(...))[...]`, without brackets and with.
abbrev pub spaced : Option Text → Text
spaced none = []
spaced (some t) = b' ' ∷ t

abbrev pub bracketed : Text → Option Text → Text
bracketed label none = []
bracketed label (some t) = b' ' ∷ b'[' ∷ (label ++ (t ++ (b']' ∷ [])))

abbrev pub request_label : Text
request_label = b'R' ∷ b'e' ∷ b'q' ∷ b'u' ∷ b'e' ∷ b's' ∷ b't' ∷ b'I' ∷ b'd' ∷ b'=' ∷ []

-- What stands after the time stamp.
abbrev pub rest_of_line : Record → Text
rest_of_line r =
    spaced r.channel
    ++ (bracketed [] r.role
        ++ (spaced r.protocol
            ++ (bracketed [] r.device_path
                ++ (bracketed [] r.remote_endpoint
                    ++ (bracketed [] r.serial_id
                        ++ (bracketed request_label r.request_id ++ (b' ' ∷ r.message)))))))

unfoldable pub default_formatter : Record → Text
default_formatter r = b'[' ∷ ((put_clock r.time_stamp fresh).text ++ (b']' ∷ rest_of_line r))

pub data Sink : Type 0 where
  file : Text → Sink
  console : Sink
  syslog : Text → Sink

-- The core of Boost.Log, and the files.
pub record Core (S : Type 0) : Type 0 where
  pub sinks : List Sink
  pub logging_enabled : Bool
  pub files : S

pub data Outcome (S : Type 0) : Type 0 where
  returned : Core S → Outcome S
  threw : Core S → Outcome S

pub data Notification : Type 0 where
  log_file : Text → Notification
  log_console : Bool → Notification
  log_syslog : Text → Notification

pub record Filesystem (S : Type 0) : Type 0 where
  pub absolute : Text → Text
  pub parent_path : Text → Text
  -- No path when it throws.
  pub weakly_canonical : S → Text → Option Text
  pub exists : S → Text → Bool
  pub is_directory : S → Text → Bool
  -- Whether it made the directories, and the files after.
  pub create_directories : S → Text → Bool × S

module _ {S : Type 0} where
  -- Logging is off until there is a sink.
  unfoldable pub options_description : Core S → Core S
  options_description core = record core { logging_enabled = false }

  -- With the formatter set, and logging enabled.
  abbrev pub add_sink : Sink → Core S → Core S
  add_sink s core = record core { sinks = core.sinks ++ (s ∷ []); logging_enabled = true }

  unfoldable pub init_console_sink : Bool → Core S → Outcome S
  init_console_sink enabled core =
      if enabled then returned (add_sink console core) else returned core

  unfoldable pub init_syslog_sink : Text → Core S → Outcome S
  init_syslog_sink name core =
      if ltb 0 (length name) then returned (add_sink (syslog name) core) else returned core

module _ {S : Type 0} (fs : Filesystem S) where
  -- The files of a core after a call for the directories, which throws if they are not made.
  abbrev pub after_create : Sink → Core S → Bool × S → Outcome S
  after_create s core (made, files) =
      if made
      then returned (add_sink s (record core { files = files }))
      else threw (record core { files = files })

  abbrev pub in_directory : Sink → Core S → Text → Outcome S
  in_directory s core parent =
      if fs.exists core.files parent
      then if fs.is_directory core.files parent then returned (add_sink s core) else threw core
      else after_create s core (fs.create_directories core.files parent)

  abbrev pub in_parent : Sink → Core S → Option Text → Outcome S
  in_parent s core none = threw core
  in_parent s core (some parent) = in_directory s core parent

  unfoldable pub init_file_sink : Text → Core S → Outcome S
  init_file_sink path core =
      if ltb 0 (length path)
      then in_parent (file (fs.absolute path)) core
          (fs.weakly_canonical core.files (fs.parent_path (fs.absolute path)))
      else returned core

  -- The notifier of an option.
  abbrev pub notify_one : Notification → Core S → Outcome S
  notify_one (log_file path) = init_file_sink path
  notify_one (log_console enabled) = init_console_sink enabled
  notify_one (log_syslog name) = init_syslog_sink name

  -- Notifiers called in any order, until one throws.
  unfoldable pub notify : List Notification → Core S → Outcome S
  notify [] core = returned core
  notify (n ∷ ns) core = elim (notify_one n core) [ returned c ↦ notify ns c | threw c ↦ threw c ]
