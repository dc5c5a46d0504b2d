-- ===== src/SerialPort/Options/Order.antt =====
-- The options that a port has taken, in their order.
use cxx_util.Prelude.{◌≡◌, true, List, [], ◌∷◌, ◌++◌, Option, some, if◌then◌else◌}
use cxx_util.WebSocket.ErrorCode.{ErrorCode, is_error}
use cxx_util.SerialPort.Options.{
  SerialOption, Outcome, returned, thrown, tenacious_set_option, max_serial_set_option_attempts,
  code, after,
}

-- The options that a device has taken grow by each that is set without an error, and by no other.
abbrev pub Recorded :
    {S : Type 0} → (S → SerialOption → ErrorCode × S) → (S → List SerialOption) → Type 0
Recorded {S} set_option taken =
    (s : S) (v : SerialOption)
    → taken (after set_option s v)
      ≡ (if is_error (code set_option s v) then taken s else taken s ++ (v ∷ []))

module _ {S : Type 0} (set_option : S → SerialOption → ErrorCode × S)
    (taken : S → List SerialOption) (recorded : Recorded set_option taken) where
  -- The last attempt at an option, and its error.
  abbrev pub FailedLast : SerialOption → ErrorCode → S → Type 0
  FailedLast v ec s =
      (s' : S) × (code set_option s' v ≡ ec) × (after set_option s' v ≡ s) × (is_error ec ≡ true)

  -- After `vs` either all are taken, or some first part, and then all attempts at the next option failed,
  -- the last one with the error that is thrown.
  abbrev pub TakenAll : List SerialOption → List SerialOption → Outcome S → Type 0
  TakenAll l vs (returned s) = taken s ≡ l ++ vs
  TakenAll l vs (thrown ec s) =
      (done : List SerialOption) × (rest : List SerialOption) × (v : SerialOption) × (vs
        ≡ done ++ (v ∷ rest))
      × (taken s ≡ l ++ done)
      × ((before : S) × (taken before ≡ l ++ done)
          × (tenacious_set_option set_option before v max_serial_set_option_attempts
              ≡ some (thrown ec s)))
      × FailedLast v ec s

  abbrev TakenOne : List SerialOption → SerialOption → Outcome S → Type 0
  TakenOne l v (returned s) = taken s ≡ l ++ (v ∷ [])
  TakenOne l v (thrown ec s) = (taken s ≡ l) × FailedLast v ec s

  -- What a list of options comes to, if its first one ends so.
  TakenFrom : List SerialOption → List SerialOption → Option (Outcome S) → Type 0
  TakenFrom l vs r = (o : Outcome S) × (r ≡ some o) × TakenAll l vs o
