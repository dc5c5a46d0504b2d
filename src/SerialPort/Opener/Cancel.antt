-- ===== src/SerialPort/Opener/Cancel.antt =====
-- `close` during an `asyncOpen`.
use cxx_util.Prelude.{
  ℕ, ◌≡◌, refl, sym, Bool, true, [], ◌∷◌, inl, inr, Bool-cases, subst, if◌then◌else◌,
}
use cxx_util.WebSocket.ErrorCode.{ErrorCode, operation_aborted, is_error}
use cxx_util.SerialPort.Options.{SerialOption}
use cxx_util.SerialPort.Opener.{
  least, Point, start, settling, writing, Stage, waiting, ready, done, Opener, running, closing,
  proceed, resume, configure, run_stage, cancelled, step, run,
}

-- Not done, nor about to be done without an error.
abbrev pub Cancellable : Stage → Type 0
Cancellable (waiting p) = Unit {0}
Cancellable (ready start ec) = Unit {0}
Cancellable (ready settling ec) = Unit {0}
Cancellable (ready writing ec) = is_error ec ≡ true
Cancellable (done ec) = ⊥

abbrev pub Failed : Stage → Type 0
Failed t = (ec : ErrorCode) × (t ≡ done ec) × (is_error ec ≡ true)

module _ {S : Type 0} (open_port : S → ErrorCode × S)
    (set_option : S → SerialOption → ErrorCode × S) (terminal : S → S)
    (baud settle_delay write_delay : ℕ) where
  proceed-Failed :
      (ec : ErrorCode) (s : S) (delay : ℕ) (next : Point)
      → Failed
          (proceed open_port set_option terminal baud settle_delay write_delay least
            (ec, s)
            delay
            next).stage
  proceed-Failed ec s delay next = elim (Bool-cases (is_error ec)) [
    | inl e ↦ subst (λ b. Failed (chosen b).stage) (sym e) (ec, refl, e)
    | inr e ↦ subst (λ b. Failed (chosen b).stage) (sym e) (operation_aborted, refl, refl)
  ]
    where
      chosen : Bool → Opener S
      chosen b =
          if b
          then record { expiry = least; port = s; stage = done ec }
          else record { expiry = least; port = s; stage = done operation_aborted }

  resume-Failed :
      (s : S) (t : Stage)
      → Cancellable t
      → Failed
          (run_stage open_port set_option terminal baud settle_delay write_delay
            (record { expiry = least; port = s; stage = cancelled t })
            (cancelled t)).stage
  unfolding resume
  resume-Failed s (waiting start) h =
      proceed-Failed (open_port s).0 (open_port s).1 settle_delay settling
  resume-Failed s (waiting settling) h =
      proceed-Failed (configure set_option terminal baud s operation_aborted).0
        (configure set_option terminal baud s operation_aborted).1 write_delay writing
  resume-Failed s (waiting writing) h = (operation_aborted, refl, refl)
  resume-Failed s (ready start ec) h =
      proceed-Failed (open_port s).0 (open_port s).1 settle_delay settling
  resume-Failed s (ready settling ec) h =
      proceed-Failed (configure set_option terminal baud s ec).0
        (configure set_option terminal baud s ec).1 write_delay writing
  resume-Failed s (ready writing ec) h = (ec, refl, h)
  resume-Failed s (done ec) h = absurd h

  -- If `close` is called on an operation that waits, or that is ready at a point before the end of
  -- the write delay or with an error, then the next run of the context completes it with an error.
  pub close_fails :
      (o : Opener S)
      → Cancellable o.stage
      → Failed
          (run open_port set_option terminal baud settle_delay write_delay
            (closing ∷ running ∷ [])
            o).stage
  unfolding run step
  close_fails o h = resume-Failed o.port o.stage h
