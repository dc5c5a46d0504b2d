-- ===== src/SerialPort/Options/Thrown.antt =====
-- What `tenaciousSetOption` and `setSerialPortOptions` throw.
use cxx_util.Prelude.{
  ℕ, zero, suc, ◌≡◌, refl, sym, true, List, [], ◌∷◌, Option, some, Bool-cases, inl, inr,
  if◌then◌else◌, subst,
}
use cxx_util.WebSocket.ErrorCode.{ErrorCode, is_error}
use cxx_util.SerialPort.Options.{
  SerialOption, Outcome, returned, thrown, throw_if, tenacious_set_option, set_all, serial_options,
  set_serial_port_options, set_serial_port_options_with, max_serial_set_option_attempts, code,
  after,
}
use cxx_util.SerialPort.Options.Attempts.{attempts, tenacious_attempts, attempts_more, attempts_end}

module _ {S : Type 0} where
  abbrev pub ThrowsError : Outcome S → Type 0
  ThrowsError (returned s) = Unit {0}
  ThrowsError (thrown ec s) = is_error ec ≡ true

  -- A call that ends, and throws an error if it throws.
  abbrev pub Fair : Option (Outcome S) → Type 0
  Fair o = (r : Outcome S) × (o ≡ some r) × ThrowsError r

  throw_if-ThrowsError : (ec : ErrorCode) (s : S) → ThrowsError (throw_if ec s)
  throw_if-ThrowsError ec s = elim (Bool-cases (is_error ec)) [
    | inl e ↦ subst (λ b. ThrowsError (if b then thrown ec s else returned s)) (sym e) e
    | inr e ↦ subst (λ b. ThrowsError (if b then thrown ec s else returned s)) (sym e) tt
  ]

  module _ (set_option : S → SerialOption → ErrorCode × S) where
    attempts-ThrowsError :
        (n : ℕ) (s : S) (v : SerialOption) → ThrowsError (attempts set_option v n s)
    unfolding attempts
    attempts-ThrowsError zero s v =
        throw_if-ThrowsError (code set_option s v) (after set_option s v)
    attempts-ThrowsError (suc n) s v = elim (Bool-cases (is_error (code set_option s v))) [
      | inl e ↦
          subst ThrowsError (sym (attempts_more set_option v n s e))
            (attempts-ThrowsError n (after set_option s v) v)
      | inr e ↦ subst ThrowsError (sym (attempts_end set_option v n s e)) tt
    ]

    set_all-Fair : (vs : List SerialOption) (s : S) → Fair (set_all set_option vs s)
    unfolding set_all
    set_all-Fair [] s = (returned s, refl, tt)
    set_all-Fair (v ∷ vs) s =
        first (attempts set_option v 99 s) (tenacious_attempts set_option v 99 s)
          (attempts-ThrowsError 99 s v) (λ s'. set_all-Fair vs s')
      where
        first :
            (o : Outcome S)
            → tenacious_set_option set_option s v max_serial_set_option_attempts ≡ some o
            → ThrowsError o
            → ((s' : S) → Fair (set_all set_option vs s'))
            → Fair (set_all set_option (v ∷ vs) s)
        first (thrown ec s') e t k = (thrown ec s', rw (e, set_all) refl, t)
        first (returned s') e t k = let (o, f, u) = k s' in (o, rw (e, set_all) f, u)

    -- The overload with an error code ends, and never turns an error into success.
    pub with-keeps_error :
        (configure : S → S) (s : S) (baud : ℕ) (ec : ErrorCode)
        → (r : ErrorCode × S) × (set_serial_port_options_with set_option configure s baud ec
            ≡ some r)
          × (is_error ec ≡ true → is_error r.0 ≡ true)
    unfolding set_serial_port_options_with set_serial_port_options
    with-keeps_error configure s baud ec = finish (set_all-Fair (serial_options baud) s)
      where
        finish :
            Fair (set_all set_option (serial_options baud) s)
            → (r : ErrorCode × S) × (set_serial_port_options_with set_option configure s baud ec
                ≡ some r)
              × (is_error ec ≡ true → is_error r.0 ≡ true)
        finish (returned s', e, t) = (
          (ec, configure s'),
          rw (e, set_serial_port_options_with, set_serial_port_options) refl,
          λ h. h,
        )
        finish (thrown ec' s', e, t) =
            ((ec', s'), rw (e, set_serial_port_options_with, set_serial_port_options) refl, λ h. t)
