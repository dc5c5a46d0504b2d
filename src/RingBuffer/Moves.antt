-- ===== src/RingBuffer/Moves.antt =====
-- What one step of an index does to the elements in the window.
use native.Mathlib.Nat.{mod-lt, add-mod_right}
use cxx_util.Prelude.{
  ℕ, zero, suc, ◌+◌, ◌-◌, ◌*◌, ◌%◌, ◌<◌, ◌≤◌, ◌≡◌, sym, ap, ap₂, ◌∙◌, arith, inl, inr, List, [],
  ◌∷◌, ◌++◌, length, get_or, set,
}
use cxx_util.RingBuffer.Gap.{
  gap, gap_cases, gap-next_begin, gap-next_end, gap-prev_begin, gap-prev_end, mod_double,
  add_rounds,
}
use cxx_util.RingBuffer.Window.{window, window-mod, window_snoc, window-set, get_or-set_self}

-- The window is opened at its first element, if it has one.
window-pos {ℓ} :
    {T : Type ℓ} (n : ℕ) (d : T) (buf : List T) (b g : ℕ)
    → 0 < g
    → window n d buf b g ≡ get_or buf (b % n) d ∷ window n d buf (suc b) (g - 1)
window-pos n d buf b zero h = elim h [ ]
window-pos n d buf b (suc g) h =
    ap (λ t. get_or buf (b % n) d ∷ window n d buf (suc b) t) (omega arith)

window-pos_last {ℓ} :
    {T : Type ℓ} (n : ℕ) (d : T) (buf : List T) (b g : ℕ)
    → 0 < g
    → window n d buf b g ≡ window n d buf b (g - 1) ++ (get_or buf ((b + (g - 1)) % n) d ∷ [])
window-pos_last n d buf b zero h = elim h [ ]
window-pos_last n d buf b (suc g) h =
    window_snoc n d buf b g
    ∙ ap (λ (t : ℕ). window n d buf b t ++ (get_or buf ((b + t) % n) d ∷ [])) (omega arith)

module _ {ℓ} {T : Type ℓ} (n : ℕ) (d : T) (buf : List T) (b e : ℕ) where
  abbrev shown : List T → ℕ → ℕ → List T
  shown xs h t = window n d xs h (gap (2 * n) h t)

  module _ (hb : b < 2 * n) (he : e < 2 * n) where
    -- The `j`-th element back from the end.
    pub before_end :
        (j : ℕ) → j ≤ gap (2 * n) b e → (b + (gap (2 * n) b e - j)) % n ≡ (e + 2 * n - j) % n
    before_end j h = elim (gap_cases (2 * n) b e hb he) [
      | inl (le, g) ↦ sym (add_rounds n _) ∙ ap (λ (t : ℕ). t % n) (omega arith)
      | inr (_, g) ↦ ap (λ (t : ℕ). t % n) (omega arith)
    ]

    at_end : (b + gap (2 * n) b e) % n ≡ e % n
    at_end = elim (gap_cases (2 * n) b e hb he) [
      | inl (le, g) ↦ ap (λ (t : ℕ). t % n) (omega arith)
      | inr (_, g) ↦ ap (λ (t : ℕ). t % n) (omega arith) ∙ add_rounds n e
    ]

    pub shown_first :
        0 < gap (2 * n) b e → shown buf b e ≡ get_or buf (b % n) d ∷ shown buf ((b + 1) % (2 * n)) e
    shown_first h =
        window-pos n d buf b _ h
        ∙ ap (◌∷◌ (get_or buf (b % n) d)) (
            window-mod n d buf (suc b) ((b + 1) % (2 * n)) _ start
            ∙ ap (window n d buf ((b + 1) % (2 * n))) (sym (gap-next_begin (2 * n) b e hb he h)))
      where
        start : suc b % n ≡ (b + 1) % (2 * n) % n
        start = ap (λ (t : ℕ). t % n) (omega arith) ∙ sym (mod_double n (b + 1))

    pub shown_last :
        0 < gap (2 * n) b e
        → shown buf b e
          ≡ shown buf b ((e + 2 * n - 1) % (2 * n)) ++ (get_or buf ((e + 2 * n - 1) % n) d ∷ [])
    shown_last h =
        window-pos_last n d buf b _ h
        ∙ ap₂ (λ (s t : ℕ). window n d buf b s ++ (get_or buf t d ∷ []))
            (sym (gap-prev_end (2 * n) b e hb he h)) (before_end 1 h)

    module _ (x : T) (room : gap (2 * n) b e < n) (storage : length buf ≡ n) where
      pub shown_append : shown (set buf (e % n) x) b ((e + 1) % (2 * n)) ≡ shown buf b e ++ (x ∷ [])
      shown_append =
          ap (window n d (set buf (e % n) x) b) longer
          ∙ window_snoc n d (set buf (e % n) x) b (gap (2 * n) b e)
          ∙ ap₂ (λ s t. s ++ (t ∷ [])) kept written
        where
          longer : gap (2 * n) b ((e + 1) % (2 * n)) ≡ suc (gap (2 * n) b e)
          longer = omega (arith, gap-next_end (2 * n) b e hb he (omega arith))

          written : get_or (set buf (e % n) x) ((b + gap (2 * n) b e) % n) d ≡ x
          written =
              ap (λ (t : ℕ). get_or (set buf (e % n) x) t d) at_end
              ∙ get_or-set_self buf (e % n) x d (omega (arith, mod-lt e {m = n} (omega arith)))

          again :
              (xs : List T)
              → window n d xs b (gap (2 * n) b e) ≡ window n d xs (b + n) (gap (2 * n) b e)
          again xs = window-mod n d xs b (b + n) _ (sym (add-mod_right b n))

          kept :
              window n d (set buf (e % n) x) b (gap (2 * n) b e)
              ≡ window n d buf b (gap (2 * n) b e)
          kept =
              again (set buf (e % n) x)
              ∙ ap (λ (t : ℕ). window n d (set buf t x) (b + n) (gap (2 * n) b e)) (sym at_end)
              ∙ window-set n d buf x (b + gap (2 * n) b e) (b + n) _ (omega arith) (omega arith)
              ∙ sym (again buf)

      pub shown_prepend :
          shown (set buf ((b + 2 * n - 1) % n) x) ((b + 2 * n - 1) % (2 * n)) e ≡ x ∷ shown buf b e
      shown_prepend =
          ap (window n d ys ((b + 2 * n - 1) % (2 * n))) longer
          ∙ window-mod n d ys ((b + 2 * n - 1) % (2 * n)) (b + 2 * n - 1) (suc (gap (2 * n) b e))
              (mod_double n (b + 2 * n - 1))
          ∙ ap₂ ◌∷◌ written kept
        where
          ys : List T
          ys = set buf ((b + 2 * n - 1) % n) x

          longer : gap (2 * n) ((b + 2 * n - 1) % (2 * n)) e ≡ suc (gap (2 * n) b e)
          longer = omega (arith, gap-prev_begin (2 * n) b e hb he (omega arith))

          written : get_or ys ((b + 2 * n - 1) % n) d ≡ x
          written =
              get_or-set_self buf ((b + 2 * n - 1) % n) x d
                (omega (arith, mod-lt (b + 2 * n - 1) {m = n} (omega arith)))

          kept : window n d ys (suc (b + 2 * n - 1)) (gap (2 * n) b e) ≡ shown buf b e
          kept =
              window-set n d buf x (b + 2 * n - 1) _ _ (omega arith) (omega arith)
              ∙ window-mod n d buf _ b _ (ap (λ (t : ℕ). t % n) (omega arith) ∙ add_rounds n b)
