-- ===== src/SerialPort/Retry/Success.antt =====
-- The port that `asyncOpenUntilSuccess` leaves.
use cxx_util.Prelude.{
  ℕ, ◌≡◌, refl, sym, ◌∙◌, Bool, true, false, List, [], ◌∷◌, inl, inr, Bool-cases, subst,
  if◌then◌else◌, false≢true,
}
use cxx_util.WebSocket.ErrorCode.{ErrorCode, operation_aborted, is_error}
use cxx_util.SerialPort.Options.{SerialOption}
use cxx_util.SerialPort.Opener
use cxx_util.SerialPort.Opener.{
  Expiry, from_now, is_least, Stage, waiting, ready, done, writing, Opener, Event, running, firing,
  closing, async_open,
}
use cxx_util.SerialPort.Opener.Safety.{PortAt, Holds, step-Holds}
use cxx_util.SerialPort.Retry.{
  Phase, opening, pausing, resuming, complete, Retry, open_until_success, opened, advance,
  inner_step, open_again, run_phase, phase_cancelled, phase_fired, step, run,
}

module _ {S : Type 0} (open_port : S → ErrorCode × S)
    (set_option : S → SerialOption → ErrorCode × S) (terminal : S → S)
    (baud settle_delay write_delay retry_delay : ℕ) where
  -- The port that an attempt from some state of it has opened and configured.
  abbrev pub Configured : S → Type 0
  Configured s =
      (s0 : S) × PortAt open_port set_option terminal baud settle_delay write_delay s0 s writing

  abbrev InPhase : Opener S → Phase → Type 0
  InPhase o opening =
      (s0 : S) × Holds open_port set_option terminal baud settle_delay write_delay s0 o.port o.stage
  InPhase o pausing = Unit {0}
  InPhase o (resuming ec) = Unit {0}
  InPhase o (complete ec) = is_error ec ≡ false → Configured o.port

  abbrev Good : Retry S → Type 0
  Good r = InPhase r.opener r.phase

  opened-Good :
      (ec : ErrorCode) (o : Opener S)
      → (is_error ec ≡ false → Configured o.port)
      → Good (opened open_port set_option terminal baud settle_delay write_delay retry_delay ec o)
  unfolding opened
  opened-Good ec o h = elim (Bool-cases (is_error ec)) [
    | inl e ↦
        subst (λ b. Good (chosen b (is_least o.expiry))) (sym e) (error_case (is_least o.expiry))
    | inr e ↦ subst (λ b. Good (chosen b (is_least o.expiry))) (sym e) h
  ]
    where
      chosen : Bool → Bool → Retry S
      chosen b c =
          if b
          then (if c
              then record { opener = o; phase = complete operation_aborted }
              else record { opener = record o { expiry = from_now retry_delay }; phase = pausing })
          else record { opener = o; phase = complete ec }

      error_case : (c : Bool) → Good (chosen true c)
      error_case true = λ f. absurd (false≢true (sym f))
      error_case false = tt

  advance-Good :
      (s0 : S) (o : Opener S) (t : Stage)
      → o.stage ≡ t
      → Holds open_port set_option terminal baud settle_delay write_delay s0 o.port t
      → Good (advance open_port set_option terminal baud settle_delay write_delay retry_delay o t)
  advance-Good s0 o (done ec) e h = opened-Good ec o (λ f. (s0, h f))
  advance-Good s0 o (waiting p) e h = (
    s0,
    subst (λ t. Holds open_port set_option terminal baud settle_delay write_delay s0 o.port t)
        (sym e) h,
  )
  advance-Good s0 o (ready p ec) e h = (
    s0,
    subst (λ t. Holds open_port set_option terminal baud settle_delay write_delay s0 o.port t)
        (sym e) h,
  )

  -- A run of the `asyncOpen`, and of the loop if it is done.
  run_inner-Good :
      (s0 : S) (o : Opener S)
      → Holds open_port set_option terminal baud settle_delay write_delay s0 o.port o.stage
      → let o' =
          inner_step open_port set_option terminal baud settle_delay write_delay retry_delay running
            o in
        Good (
          advance open_port set_option terminal baud settle_delay write_delay retry_delay o'
            o'.stage)
  run_inner-Good s0 o h =
      let o' =
        inner_step open_port set_option terminal baud settle_delay write_delay retry_delay running
          o in
      advance-Good s0 o' o'.stage refl
        (step-Holds open_port set_option terminal baud settle_delay write_delay s0 running o h)

  open_again-Good :
      (ec : ErrorCode) (o : Opener S)
      → Good
          (open_again open_port set_option terminal baud settle_delay write_delay retry_delay ec o)
  unfolding open_again
  open_again-Good ec o = elim (Bool-cases (is_error ec)) [
    | inl e ↦ subst (λ b. Good (chosen b)) (sym e) (λ f. absurd (false≢true (sym f ∙ e)))
    | inr e ↦
        subst (λ b. Good (chosen b)) (sym e)
          (run_inner-Good o.port (async_open o.port) (refl, inl refl))
  ]
    where
      chosen : Bool → Retry S
      chosen b =
          if b
          then record { opener = o; phase = complete ec }
          else (let o' =
                inner_step open_port set_option terminal baud settle_delay write_delay retry_delay
                  running (async_open o.port) in
              advance open_port set_option terminal baud settle_delay write_delay retry_delay o'
                o'.stage)

  run_phase-Good :
      (o : Opener S) (p : Phase)
      → InPhase o p
      → Good (run_phase open_port set_option terminal baud settle_delay write_delay retry_delay o p)
  run_phase-Good o opening (s0, h) = run_inner-Good s0 o h
  run_phase-Good o pausing h = tt
  run_phase-Good o (resuming ec) h = open_again-Good ec o
  run_phase-Good o (complete ec) h = h

  firing-Good :
      (o : Opener S) (p : Phase)
      → InPhase o p
      → InPhase
          (inner_step open_port set_option terminal baud settle_delay write_delay retry_delay firing
            o)
          (phase_fired p)
  unfolding Opener.step
  firing-Good o opening (s0, h) =
      (s0, step-Holds open_port set_option terminal baud settle_delay write_delay s0 firing o h)
  firing-Good o pausing h = tt
  firing-Good o (resuming ec) h = tt
  firing-Good o (complete ec) h = h

  closing-Good :
      (o : Opener S) (p : Phase)
      → InPhase o p
      → InPhase
          (inner_step open_port set_option terminal baud settle_delay write_delay retry_delay
            closing o)
          (phase_cancelled p)
  unfolding Opener.step
  closing-Good o opening (s0, h) =
      (s0, step-Holds open_port set_option terminal baud settle_delay write_delay s0 closing o h)
  closing-Good o pausing h = tt
  closing-Good o (resuming ec) h = tt
  closing-Good o (complete ec) h = h

  step-Good :
      (e : Event) (r : Retry S)
      → Good r
      → Good (step open_port set_option terminal baud settle_delay write_delay retry_delay e r)
  unfolding step
  step-Good running r h = run_phase-Good r.opener r.phase h
  step-Good firing r h = firing-Good r.opener r.phase h
  step-Good closing r h = closing-Good r.opener r.phase h

  run-Good :
      (es : List Event) (r : Retry S)
      → Good r
      → Good (run open_port set_option terminal baud settle_delay write_delay retry_delay es r)
  unfolding run
  run-Good [] r h = h
  run-Good (e ∷ es) r h =
      run-Good es (step open_port set_option terminal baud settle_delay write_delay retry_delay e r)
        (step-Good e r h)

  -- After any events from `asyncOpenUntilSuccess`, whatever the timer was before, and with `close` at
  -- any time among them, also before the coroutine's first run: if the operation is complete without
  -- an error, then some attempt has opened the port and configured it, each without an error, and the
  -- port is as that attempt has left it.
  pub complete-Configured :
      (expiry : Expiry) (s : S) (es : List Event) (ec : ErrorCode)
      → (run open_port set_option terminal baud settle_delay write_delay retry_delay es
          (open_until_success expiry s)).phase
        ≡ complete ec
      → is_error ec ≡ false
      → Configured
          (run open_port set_option terminal baud settle_delay write_delay retry_delay es
            (open_until_success expiry s)).opener.port
  complete-Configured expiry s es ec e f =
      let r =
        run open_port set_option terminal baud settle_delay write_delay retry_delay es
          (open_until_success expiry s) in
      subst (λ p. InPhase r.opener p) e (run-Good es (open_until_success expiry s) tt) f
