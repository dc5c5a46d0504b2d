-- ===== src/Log/Sinks.antt =====
-- The sinks that the options of src/log.cpp ask for, and those that the notifiers add.
use cxx_util.Prelude.{
  ◌<◌, ◌≡◌, refl, sym, ap, ◌∙◌, arith, Bool, true, false, Bool-cases, List, [], ◌∷◌, ◌++◌, Option,
  none, some, inl, inr, length, length-append, ltb, ltb→lt, lt→ltb, if◌then◌else◌,
}
use mathlib.Core.List.{append_assoc, append-nil}
use cxx_util.Log.{
  Text, Sink, file, console, syslog, Core, Outcome, returned, threw, Notification, log_file,
  log_console, log_syslog, Filesystem, options_description, add_sink, init_console_sink,
  init_syslog_sink, after_create, in_parent, init_file_sink, notify_one, notify,
}

module _ {S : Type 0} where
  -- Logging is enabled just when there is a sink.
  abbrev pub IsArmed : Core S → Type 0
  IsArmed core = core.logging_enabled ≡ ltb 0 (length core.sinks)

  add_sink-IsArmed : (s : Sink) (core : Core S) → IsArmed (add_sink s core)
  add_sink-IsArmed s core = sym (lt→ltb 0 _ (omega (arith, length-append core.sinks (s ∷ []))))

module _ {S : Type 0} (fs : Filesystem S) where
  -- The sinks that an option asks for.
  abbrev pub asked : Notification → List Sink
  asked (log_file path) = if ltb 0 (length path) then file (fs.absolute path) ∷ [] else []
  asked (log_console enabled) = if enabled then console ∷ [] else []
  asked (log_syslog name) = if ltb 0 (length name) then syslog name ∷ [] else []

  abbrev pub wanted : List Notification → List Sink
  wanted [] = []
  wanted (n ∷ ns) = asked n ++ wanted ns

  abbrev IsFile : Notification → Type 0
  IsFile n = (path : Text) × (n ≡ log_file path) × (0 < length path)

  -- What a notifier makes of a core.
  abbrev Notified : Notification → Core S → Outcome S → Type 0
  Notified n core (returned c) = (c.sinks ≡ core.sinks ++ asked n) × (IsArmed core → IsArmed c)
  Notified n core (threw c) = (c.sinks ≡ core.sinks) × (IsArmed core → IsArmed c) × IsFile n

  added :
      (n : Notification) (s : Sink) (core c : Core S)
      → asked n ≡ s ∷ []
      → c.sinks ≡ core.sinks
      → Notified n core (returned (add_sink s c))
  added n s core c e f =
      (ap (λ l. l ++ (s ∷ [])) f ∙ ap (λ l. core.sinks ++ l) (sym e), λ h. add_sink-IsArmed s c)

  unchanged : (n : Notification) (core : Core S) → asked n ≡ [] → Notified n core (returned core)
  unchanged n core e = (sym (ap (λ l. core.sinks ++ l) e ∙ append-nil core.sinks), λ h. h)

  after_create-Notified :
      (n : Notification) (s : Sink) (core : Core S) (r : Bool × S)
      → IsFile n
      → asked n ≡ s ∷ []
      → Notified n core (after_create fs s core r)
  after_create-Notified n s core (true, files) h e =
      added n s core (record core { files = files }) e refl
  after_create-Notified n s core (false, files) h e = (refl, λ a. a, h)

  in_parent-Notified :
      (n : Notification) (s : Sink) (core : Core S) (o : Option Text)
      → IsFile n
      → asked n ≡ s ∷ []
      → Notified n core (in_parent fs s core o)
  in_parent-Notified n s core none h e = (refl, λ a. a, h)
  in_parent-Notified n s core (some parent) h e =
      in_either (fs.exists core.files parent) (fs.is_directory core.files parent)
    where
      in_either :
          (b d : Bool)
          → Notified n core (
              if b
              then if d then returned (add_sink s core) else threw core
              else after_create fs s core (fs.create_directories core.files parent))
      in_either true true = added n s core core e refl
      in_either true false = (refl, λ a. a, h)
      in_either false d =
          after_create-Notified n s core (fs.create_directories core.files parent) h e

  notify_one-Notified : (n : Notification) (core : Core S) → Notified n core (notify_one fs n core)
  unfolding init_file_sink init_console_sink init_syslog_sink
  notify_one-Notified (log_file path) core = elim (Bool-cases (ltb 0 (length path))) [
    | inl e ↦ rw (e) (
        in_parent-Notified (log_file path) (file (fs.absolute path)) core
          (fs.weakly_canonical core.files (fs.parent_path (fs.absolute path)))
          (path, refl, ltb→lt 0 (length path) e) (rw (e) refl))
    | inr e ↦ rw (e) (unchanged (log_file path) core (rw (e) refl))
  ]
  notify_one-Notified (log_console true) core = added (log_console true) console core core refl refl
  notify_one-Notified (log_console false) core = unchanged (log_console false) core refl
  notify_one-Notified (log_syslog name) core = elim (Bool-cases (ltb 0 (length name))) [
    | inl e ↦ rw (e) (added (log_syslog name) (syslog name) core core (rw (e) refl) refl)
    | inr e ↦ rw (e) (unchanged (log_syslog name) core (rw (e) refl))
  ]

  abbrev pub core_of : Outcome S → Core S
  core_of (returned c) = c
  core_of (threw c) = c

  -- Whether the options that were left are none, or start with a file's.
  abbrev pub Left : Outcome S → List Notification → Type 0
  Left (returned c) ns = ns ≡ []
  Left (threw c) ns = (n : Notification) × (l : List Notification) × (ns ≡ n ∷ l) × IsFile n

  abbrev Done : List Notification → Core S → Outcome S → Type 0
  Done ns core o =
      (front back : List Notification) × (ns ≡ front ++ back)
      × ((core_of o).sinks ≡ core.sinks ++ wanted front)
      × (IsArmed core → IsArmed (core_of o))
      × Left o back

  notify-Done : (ns : List Notification) (core : Core S) → Done ns core (notify fs ns core)
  unfolding notify
  notify-Done [] core = ([], [], refl, sym (append-nil core.sinks), λ h. h, refl)
  notify-Done (n ∷ ns) core =
      by_one (notify_one fs n core) (notify_one-Notified n core) (notify-Done ns)
    where
      by_one :
          (o : Outcome S)
          → Notified n core o
          → ((c : Core S) → Done ns c (notify fs ns c))
          → Done (n ∷ ns) core (elim o [ returned c ↦ notify fs ns c | threw c ↦ threw c ])
      by_one (returned c) h ih = (
        n ∷ (ih c).0,
        (ih c).1,
        ap (λ l. n ∷ l) (ih c).2,
        (ih c).3
            ∙ ap (λ l. l ++ wanted (ih c).0) h.0
            ∙ append_assoc core.sinks (asked n) (wanted (ih c).0),
        λ a. (ih c).4 (h.1 a),
        (ih c).5,
      )
      by_one (threw c) h ih =
          ([], n ∷ ns, refl, h.0 ∙ sym (append-nil core.sinks), h.1, (n, ns, refl, h.2))

  -- From a core without sinks, described and then notified of any options, the sinks are those that a
  -- front part of the options asks for, in their order; logging is enabled just when there is a sink;
  -- and all the options are in that part, unless a notifier threw: then the first option after it is
  -- that of a file, whose name is not empty.
  pub notify-sinks :
      (ns : List Notification) (core : Core S)
      → core.sinks ≡ []
      → (front back : List Notification) × (ns ≡ front ++ back)
        × ((core_of (notify fs ns (options_description core))).sinks ≡ wanted front)
        × IsArmed (core_of (notify fs ns (options_description core)))
        × Left (notify fs ns (options_description core)) back
  unfolding options_description
  notify-sinks ns core e =
      let d = notify-Done ns (options_description core) in
      (
        d.0,
        d.1,
        d.2,
        d.3 ∙ ap (λ l. l ++ wanted d.0) e,
        d.4 (ap (λ l. ltb 0 (length l)) {x = []} (sym e)),
        d.5,
      )
