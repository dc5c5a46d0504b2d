-- ===== src/SerialPort/Retry/Persistence.antt =====
-- `asyncOpenUntilSuccess` without a call of `close`.
use cxx_util.Prelude.{
  ℕ, ◌≡◌, refl, sym, Bool, true, false, List, [], ◌∷◌, Bool-cases, inl, inr, subst, if◌then◌else◌,
}
use cxx_util.WebSocket.ErrorCode.{ErrorCode, operation_aborted, is_error}
use cxx_util.SerialPort.Options.{SerialOption}
use cxx_util.SerialPort.Opener
use cxx_util.SerialPort.Opener.{
  Expiry, from_now, is_least, Point, start, settling, writing, Stage, waiting, ready, done, Opener,
  Event, running, firing, closing, proceed, resume, configure, run_stage, async_open,
}
use cxx_util.SerialPort.Retry.{
  Phase, opening, pausing, resuming, complete, Retry, open_until_success, opened, advance,
  inner_step, open_again, run_phase, phase_fired, step, run,
}

abbrev pub NotClosed : List Event → Type 0
NotClosed [] = Unit {0}
NotClosed (running ∷ es) = NotClosed es
NotClosed (firing ∷ es) = NotClosed es
NotClosed (closing ∷ es) = ⊥

module _ {S : Type 0} (open_port : S → ErrorCode × S)
    (set_option : S → SerialOption → ErrorCode × S) (terminal : S → S)
    (baud settle_delay write_delay retry_delay : ℕ) where
  -- In an `asyncOpen` the timer does not say that the opener was closed, and no error has ended the loop.
  abbrev OpenPhase : Expiry → Phase → Type 0
  OpenPhase expiry opening = is_least expiry ≡ false
  OpenPhase expiry pausing = Unit {0}
  OpenPhase expiry (resuming ec) = is_error ec ≡ false
  OpenPhase expiry (complete ec) = is_error ec ≡ false

  abbrev Going : Retry S → Type 0
  Going r = OpenPhase r.opener.expiry r.phase

  proceed_open :
      (expiry : Expiry) (ec : ErrorCode) (s : S) (delay : ℕ) (next : Point)
      → is_least expiry ≡ false
      → is_least
          (proceed open_port set_option terminal baud settle_delay write_delay expiry
            (ec, s)
            delay
            next).expiry
        ≡ false
  proceed_open expiry ec s delay next h = cases (is_error ec) (is_least expiry)
    where
      chosen : Bool → Bool → Opener S
      chosen b c =
          if b
          then record { expiry = expiry; port = s; stage = done ec }
          else if c
          then record { expiry = expiry; port = s; stage = done operation_aborted }
          else record { expiry = from_now delay; port = s; stage = waiting next }

      cases : (b c : Bool) → is_least (chosen b c).expiry ≡ false
      cases true c = h
      cases false true = h
      cases false false = refl

  resume_open :
      (p : Point) (ec : ErrorCode) (expiry : Expiry) (s : S)
      → is_least expiry ≡ false
      → is_least
          (resume open_port set_option terminal baud settle_delay write_delay p ec expiry s).expiry
        ≡ false
  unfolding resume
  resume_open start ec expiry s h =
      proceed_open expiry (open_port s).0 (open_port s).1 settle_delay settling h
  resume_open settling ec expiry s h =
      proceed_open expiry (configure set_option terminal baud s ec).0
        (configure set_option terminal baud s ec).1 write_delay writing h
  resume_open writing ec expiry s h = h

  run_stage_open :
      (o : Opener S) (t : Stage)
      → is_least o.expiry ≡ false
      → is_least (run_stage open_port set_option terminal baud settle_delay write_delay o t).expiry
        ≡ false
  run_stage_open o (waiting p) h = h
  run_stage_open o (ready p ec) h = resume_open p ec o.expiry o.port h
  run_stage_open o (done ec) h = h

  opened-Going :
      (ec : ErrorCode) (o : Opener S)
      → is_least o.expiry ≡ false
      → Going (opened open_port set_option terminal baud settle_delay write_delay retry_delay ec o)
  unfolding opened
  opened-Going ec o h = elim (Bool-cases (is_error ec)) [
    | inl e ↦
        subst (λ b. Going (chosen b (is_least o.expiry))) (sym e)
          (subst (λ c. Going (chosen true c)) (sym h) tt)
    | inr e ↦ subst (λ b. Going (chosen b (is_least o.expiry))) (sym e) e
  ]
    where
      chosen : Bool → Bool → Retry S
      chosen b c =
          if b
          then (if c
              then record { opener = o; phase = complete operation_aborted }
              else record { opener = record o { expiry = from_now retry_delay }; phase = pausing })
          else record { opener = o; phase = complete ec }

  advance-Going :
      (o : Opener S) (t : Stage)
      → is_least o.expiry ≡ false
      → Going (advance open_port set_option terminal baud settle_delay write_delay retry_delay o t)
  advance-Going o (done ec) h = opened-Going ec o h
  advance-Going o (waiting p) h = h
  advance-Going o (ready p ec) h = h

  run_inner-Going :
      (o : Opener S)
      → is_least o.expiry ≡ false
      → let o' =
          inner_step open_port set_option terminal baud settle_delay write_delay retry_delay running
            o in
        Going (
          advance open_port set_option terminal baud settle_delay write_delay retry_delay o'
            o'.stage)
  unfolding Opener.step
  run_inner-Going o h =
      let o' = run_stage open_port set_option terminal baud settle_delay write_delay o o.stage in
      advance-Going o' o'.stage (run_stage_open o o.stage h)

  open_again-Going :
      (ec : ErrorCode) (o : Opener S)
      → is_error ec ≡ false
      → Going
          (open_again open_port set_option terminal baud settle_delay write_delay retry_delay ec o)
  unfolding open_again
  open_again-Going ec o e =
      subst (λ b. Going (chosen b)) (sym e) (run_inner-Going (async_open o.port) refl)
    where
      chosen : Bool → Retry S
      chosen b =
          if b
          then record { opener = o; phase = complete ec }
          else (let o' =
                inner_step open_port set_option terminal baud settle_delay write_delay retry_delay
                  running (async_open o.port) in
              advance open_port set_option terminal baud settle_delay write_delay retry_delay o'
                o'.stage)

  run_phase-Going :
      (o : Opener S) (p : Phase)
      → OpenPhase o.expiry p
      → Going
          (run_phase open_port set_option terminal baud settle_delay write_delay retry_delay o p)
  run_phase-Going o opening g = run_inner-Going o g
  run_phase-Going o pausing g = tt
  run_phase-Going o (resuming ec) g = open_again-Going ec o g
  run_phase-Going o (complete ec) g = g

  fired_phase :
      (expiry : Expiry) (p : Phase) → OpenPhase expiry p → OpenPhase expiry (phase_fired p)
  fired_phase expiry opening g = g
  fired_phase expiry pausing g = refl
  fired_phase expiry (resuming ec) g = g
  fired_phase expiry (complete ec) g = g

  run-Going :
      (es : List Event) (r : Retry S)
      → NotClosed es
      → Going r
      → Going (run open_port set_option terminal baud settle_delay write_delay retry_delay es r)
  unfolding run step Opener.step
  run-Going [] r n g = g
  run-Going (running ∷ es) r n g = run-Going es _ n (run_phase-Going r.opener r.phase g)
  run-Going (firing ∷ es) r n g = run-Going es _ n (fired_phase r.opener.expiry r.phase g)
  run-Going (closing ∷ es) r n g = absurd n

  -- After any events from `asyncOpenUntilSuccess` of which none is `close`, and whatever the timer was
  -- before, as after an earlier `close`: if the operation is complete, then it is so without an error.
  pub complete_success :
      (expiry : Expiry) (s : S) (es : List Event) (ec : ErrorCode)
      → NotClosed es
      → (run open_port set_option terminal baud settle_delay write_delay retry_delay es
          (open_until_success expiry s)).phase
        ≡ complete ec
      → is_error ec ≡ false
  complete_success expiry s es ec n e =
      let r =
        run open_port set_option terminal baud settle_delay write_delay retry_delay es
          (open_until_success expiry s) in
      subst (OpenPhase r.opener.expiry) e (run-Going es (open_until_success expiry s) n refl)
