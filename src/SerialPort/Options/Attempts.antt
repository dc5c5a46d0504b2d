-- ===== src/SerialPort/Options/Attempts.antt =====
-- The attempts of `tenaciousSetOption`.
use cxx_util.Prelude.{
  ℕ, zero, suc, ◌+◌, ◌<◌, ◌≡◌, refl, sym, ap, ◌∙◌, arith, Bool, true, false, not, ◌&&◌, Option,
  none, some, if◌then◌else◌, Bool-cases, inl, inr,
}
use cxx_util.Prelude.Int.{ℤ, pos, negsuc, ltb_ℤ}
use cxx_util.WebSocket.ErrorCode.{ErrorCode, is_error}
use cxx_util.SerialPort.Options.{
  SerialOption, Outcome, returned, thrown, throw_if, attempt_loop, tenacious_set_option, reached,
  code, after,
}

module _ {S : Type 0} (set_option : S → SerialOption → ErrorCode × S) (value : SerialOption) where
  -- `n + 1` attempts at the most, the first at `s`: the last of them decides.
  unfoldable pub attempts : ℕ → S → Outcome S
  attempts zero s = throw_if (code set_option s value) (after set_option s value)
  attempts (suc n) s = elim (is_error (code set_option s value)) [
    | true ↦ attempts n (after set_option s value)
    | false ↦ returned (after set_option s value)
  ]

  abbrev again : ℤ → ℕ → S → Bool
  again max k s =
      ltb_ℤ (pos 0) max && (not (reached (k + 1) max) && is_error (code set_option s value))

  abbrev finish : Option (ErrorCode × S) → Option (Outcome S)
  finish o = elim o [ none ↦ none | some r ↦ some (throw_if r.0 r.1) ]

  loop_stop :
      (max : ℤ) (k fuel : ℕ) (s : S)
      → again max k s ≡ false
      → finish (attempt_loop set_option (suc fuel) value max k s)
        ≡ some (throw_if (code set_option s value) (after set_option s value))
  unfolding attempt_loop
  loop_stop max k fuel s e = rw (e, attempt_loop) refl

  loop_more :
      (max : ℤ) (k fuel : ℕ) (s : S)
      → again max k s ≡ true
      → attempt_loop set_option (suc fuel) value max k s
        ≡ attempt_loop set_option fuel value max (k + 1) (after set_option s value)
  unfolding attempt_loop
  loop_more max k fuel s e = rw (e, attempt_loop) refl

  pub attempts_end :
      (n : ℕ) (s : S)
      → is_error (code set_option s value) ≡ false
      → attempts (suc n) s ≡ returned (after set_option s value)
  unfolding attempts
  attempts_end n s e = rw (e, attempts) refl

  pub attempts_more :
      (n : ℕ) (s : S)
      → is_error (code set_option s value) ≡ true
      → attempts (suc n) s ≡ attempts n (after set_option s value)
  unfolding attempts
  attempts_more n s e = rw (e, attempts) refl

  loop_attempts :
      (n k fuel : ℕ) (s : S)
      → n < fuel
      → finish (attempt_loop set_option fuel value (pos (k + n + 1)) k s) ≡ some (attempts n s)
  unfolding attempts
  loop_attempts n k zero s h = elim h [ ]
  loop_attempts zero k (suc fuel) s h = loop_stop (pos (k + 0 + 1)) k fuel s (ground arith)
  loop_attempts (suc n) k (suc fuel) s h = elim (Bool-cases (is_error (code set_option s value))) [
    | inl e ↦
        ap finish (loop_more (pos (k + suc n + 1)) k fuel s (ground arith))
        ∙ ap
            (λ m.
              finish
                (attempt_loop set_option fuel value (pos m) (k + 1) (after set_option s value)))
            {x = k + suc n + 1} (omega arith)
        ∙ loop_attempts n (k + 1) fuel (after set_option s value) (omega arith)
        ∙ ap some (sym (attempts_more n s e))
    | inr e ↦
        loop_stop (pos (k + suc n + 1)) k fuel s (ground arith)
        ∙ ap
            (λ b. some (
              if b
              then thrown (code set_option s value) (after set_option s value)
              else returned (after set_option s value)))
            e
        ∙ ap some (sym (attempts_end n s e))
  ]

  pub tenacious_attempts :
      (n : ℕ) (s : S) → tenacious_set_option set_option s value (pos (suc n)) ≡ some (attempts n s)
  unfolding tenacious_set_option
  tenacious_attempts n s =
      ap (λ m. finish (attempt_loop set_option (suc n + 1) value (pos m) 0 s)) {x = suc n}
        (omega arith)
      ∙ loop_attempts n 0 (suc n + 1) s (omega arith)

  -- A `maxAttempts` that is zero or negative counts as one.
  pub tenacious_once :
      (n : ℕ) (s : S) → tenacious_set_option set_option s value (negsuc n) ≡ some (attempts 0 s)
  unfolding tenacious_set_option attempts
  tenacious_once n s = loop_stop (negsuc n) 0 0 s (ground arith)
