-- ===== src/SerialPort/Opener/Safety.antt =====
-- The port at each point of the coroutine of `asyncOpen`.
use cxx_util.Prelude.{
  ℕ, ◌≡◌, refl, sym, ◌∙◌, Bool, true, false, List, [], ◌∷◌, ◌⊎◌, inl, inr, Bool-cases, subst,
  if◌then◌else◌, false≢true,
}
use cxx_util.WebSocket.ErrorCode.{ErrorCode, success, operation_aborted, is_error}
use cxx_util.SerialPort.Options.{SerialOption}
use cxx_util.SerialPort.Options.Thrown.{with-keeps_error}
use cxx_util.SerialPort.Opener.{
  Expiry, from_now, is_least, Point, start, settling, writing, Stage, waiting, ready, done, Opener,
  configure, Event, running, firing, closing, cancelled, fired, async_open, proceed, resume,
  run_stage, step, run,
}

module _ {S : Type 0} (open_port : S → ErrorCode × S)
    (set_option : S → SerialOption → ErrorCode × S) (terminal : S → S)
    (baud settle_delay write_delay : ℕ) (s0 : S) where
  keeps_error :
      (s : S) (ec : ErrorCode)
      → is_error ec ≡ true
      → is_error (configure set_option terminal baud s ec).0 ≡ true
  unfolding configure
  keeps_error s ec h =
      let (r, e, k) = with-keeps_error set_option terminal s baud ec in rw (e, configure) (k h)

  -- The port at each point of the coroutine.
  abbrev pub PortAt : S → Point → Type 0
  PortAt s start = s ≡ s0
  PortAt s settling = (is_error (open_port s0).0 ≡ false) × (s ≡ (open_port s0).1)
  PortAt s writing =
      (is_error (open_port s0).0 ≡ false)
      × (is_error (configure set_option terminal baud (open_port s0).1 success).0 ≡ false)
      × (s ≡ (configure set_option terminal baud (open_port s0).1 success).1)

  abbrev pub Signal : ErrorCode → Type 0
  Signal ec = (ec ≡ success) ⊎ (is_error ec ≡ true)

  abbrev pub Holds : S → Stage → Type 0
  Holds s (waiting p) = PortAt s p
  Holds s (ready p ec) = PortAt s p × Signal ec
  Holds s (done ec) = is_error ec ≡ false → PortAt s writing

  proceed-Holds :
      (expiry : Expiry) (ec : ErrorCode) (s : S) (delay : ℕ) (next : Point)
      → (is_error ec ≡ false → PortAt s next)
      → let o =
          proceed open_port set_option terminal baud settle_delay write_delay expiry
            (ec, s)
            delay
            next in
        Holds o.port o.stage
  proceed-Holds expiry ec s delay next h = elim (Bool-cases (is_error ec)) [
    | inl e ↦ subst (λ b. Chosen b (is_least expiry)) (sym e) (λ f. absurd (false≢true (sym f ∙ e)))
    | inr e ↦ subst (λ b. Chosen b (is_least expiry)) (sym e) (open_case (is_least expiry) (h e))
  ]
    where
      chosen : Bool → Bool → Opener S
      chosen b c =
          if b
          then record { expiry = expiry; port = s; stage = done ec }
          else if c
          then record { expiry = expiry; port = s; stage = done operation_aborted }
          else record { expiry = from_now delay; port = s; stage = waiting next }

      Chosen : Bool → Bool → Type 0
      Chosen b c = Holds (chosen b c).port (chosen b c).stage

      open_case : (c : Bool) → PortAt s next → Chosen false c
      open_case true p = λ f. absurd (false≢true (sym f))
      open_case false p = p

  resume-Holds :
      (p : Point) (ec : ErrorCode) (expiry : Expiry) (s : S)
      → PortAt s p
      → Signal ec
      → let o = resume open_port set_option terminal baud settle_delay write_delay p ec expiry s in
        Holds o.port o.stage
  unfolding resume
  resume-Holds start ec expiry s h g =
      proceed-Holds expiry (open_port s).0 (open_port s).1 settle_delay settling (
        subst (λ x. is_error (open_port x).0 ≡ false → PortAt (open_port x).1 settling) (sym h)
          (λ f. (f, refl)))
  resume-Holds settling ec expiry s (h, e) (inl g) =
      proceed-Holds expiry (configure set_option terminal baud s ec).0
        (configure set_option terminal baud s ec).1 write_delay writing
        (subst
          (λ x.
            is_error (configure set_option terminal baud x ec).0 ≡ false
            → PortAt (configure set_option terminal baud x ec).1 writing)
          (sym e)
          (subst
            (λ c.
              is_error (configure set_option terminal baud (open_port s0).1 c).0 ≡ false
              → PortAt (configure set_option terminal baud (open_port s0).1 c).1 writing)
            (sym g) (λ f. (h, f, refl))))
  resume-Holds settling ec expiry s (h, e) (inr g) =
      proceed-Holds expiry (configure set_option terminal baud s ec).0
        (configure set_option terminal baud s ec).1 write_delay writing
        (λ f. absurd (false≢true (sym f ∙ keeps_error s ec g)))
  resume-Holds writing ec expiry s h g = λ f. h

  cancelled-Holds : (s : S) (t : Stage) → Holds s t → Holds s (cancelled t)
  cancelled-Holds s (waiting p) h = (h, inr refl)
  cancelled-Holds s (ready p ec) h = h
  cancelled-Holds s (done ec) h = h

  fired-Holds : (s : S) (t : Stage) → Holds s t → Holds s (fired t)
  fired-Holds s (waiting p) h = (h, inl refl)
  fired-Holds s (ready p ec) h = h
  fired-Holds s (done ec) h = h

  run_stage-Holds :
      (o : Opener S) (t : Stage)
      → o.stage ≡ t
      → Holds o.port t
      → let o' = run_stage open_port set_option terminal baud settle_delay write_delay o t in
        Holds o'.port o'.stage
  run_stage-Holds o (waiting p) e h = subst (λ t. Holds o.port t) (sym e) h
  run_stage-Holds o (ready p ec) e (h, g) = resume-Holds p ec o.expiry o.port h g
  run_stage-Holds o (done ec) e h = subst (λ t. Holds o.port t) (sym e) h

  pub step-Holds :
      (e : Event) (o : Opener S)
      → Holds o.port o.stage
      → let o' = step open_port set_option terminal baud settle_delay write_delay e o in
        Holds o'.port o'.stage
  unfolding step
  step-Holds running o h = run_stage-Holds o o.stage refl h
  step-Holds firing o h = fired-Holds o.port o.stage h
  step-Holds closing o h = cancelled-Holds o.port o.stage h

  run-Holds :
      (es : List Event) (o : Opener S)
      → Holds o.port o.stage
      → let o' = run open_port set_option terminal baud settle_delay write_delay es o in
        Holds o'.port o'.stage
  unfolding run
  run-Holds [] o h = h
  run-Holds (e ∷ es) o h =
      run-Holds es (step open_port set_option terminal baud settle_delay write_delay e o)
        (step-Holds e o h)

  -- After any events from `asyncOpen`, `close` at any time among them, if the operation is done without an
  -- error, then the port has been opened and then configured, each without an error.
  pub done_configured :
      (es : List Event) (ec : ErrorCode)
      → (run open_port set_option terminal baud settle_delay write_delay es (async_open s0)).stage
        ≡ done ec
      → is_error ec ≡ false
      → PortAt
          (run open_port set_option terminal baud settle_delay write_delay es (async_open s0)).port
          writing
  done_configured es ec e f =
      subst
        (λ t.
          Holds
            (run open_port set_option terminal baud settle_delay write_delay es
              (async_open s0)).port
            t)
        e (run-Holds es (async_open s0) (refl, inl refl)) f
