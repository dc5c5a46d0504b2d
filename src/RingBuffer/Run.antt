-- ===== src/RingBuffer/Run.antt =====
-- A client's calls on a ring buffer against those on the deque of its elements.
use cxx_util.Prelude.{
  ℕ, ◌*◌, ◌≡◌, refl, sym, ap, ◌∙◌, arith, true, false, List, [], ◌∷◌, Option, none, some, get_or,
  length, Bool-cases, inl, inr, ◌<◌, subst,
}
use cxx_util.RingBuffer.{
  RingBuffer, empty, front, incr, back, push_back, push_front, pop_front, pop_back, init,
}
use cxx_util.RingBuffer.Deque
use cxx_util.RingBuffer.Deque.{Op, put_back, put_front, take_front, take_back}
use cxx_util.RingBuffer.Index.{PowerOfTwo, capacity_pos}
use cxx_util.RingBuffer.Invariant.{IsValid, count, contents}
use cxx_util.RingBuffer.Gap.{gap_self}
use cxx_util.RingBuffer.Window.{window}
use cxx_util.RingBuffer.Size.{empty_iff}
use cxx_util.RingBuffer.Ends.{
  drop_first-IsValid, contents-drop_first, drop_last-IsValid, contents-drop_last,
}
use cxx_util.RingBuffer.Refine.{length-contents, push_back_refines, push_front_refines}

module _ {ℓ} {T : Type ℓ} (n : ℕ) where
  pub step : RingBuffer T → Op T → Option (RingBuffer T)
  step r (put_back x) = some (push_back n r x)
  step r (put_front x) = some (push_front n r x)
  step r take_front = pop_front n r
  step r take_back = pop_back n r

  -- `none` is a failed assertion.
  pub run : RingBuffer T → List (Op T) → Option (RingBuffer T)
  run r [] = some r
  run r (o ∷ os) = elim (step r o) [ none ↦ none | some r' ↦ run r' os ]

module _ {ℓ} {T : Type ℓ} (n : ℕ) (d : T) where
  -- The outcome of a buffer's call against that of the deque's: both fail, or the buffer is valid
  -- and holds the deque's list.
  pub data Agrees : Option (RingBuffer T) → Option (List T) → Type ℓ where
    fails : Agrees none none
    holds :
        {r : RingBuffer T} {l : List T}
        → IsValid n r
        → contents n d r ≡ l
        → Agrees (some r) (some l)

module _ {ℓ} {T : Type ℓ} {n : ℕ} (p : PowerOfTwo n) (d : T) where
  init-IsValid : (storage : List T) → length storage ≡ n → IsValid n (init storage)
  unfolding init
  init-IsValid storage e = record {
    begin_in = omega (arith, capacity_pos p);
    end_in = omega (arith, capacity_pos p);
    count_in = omega (arith, gap_self (2 * n) 0 (omega (arith, capacity_pos p)));
    storage = e;
  }

  contents-init : (storage : List T) → contents n d (init storage) ≡ []
  unfolding init
  contents-init storage =
      ap (window n d storage 0) (gap_self (2 * n) 0 (omega (arith, capacity_pos p)))

  module _ (r : RingBuffer T) (v : IsValid n r) where
    empty-nil : contents n d r ≡ [] → empty n r ≡ true
    empty-nil e = (empty_iff p r v).1 (sym (length-contents p d r) ∙ ap length e)

    module _ (x : T) (xs : List T) (e : contents n d r ≡ x ∷ xs) where
      count_pos : 0 < count n r
      count_pos = omega (arith, length-contents p d r, ap length e)

      not_empty : empty n r ≡ false
      not_empty = elim (Bool-cases (empty n r)) [
        | inl h ↦ absurd (omega (arith, (empty_iff p r v).0 h, count_pos))
        | inr h ↦ h
      ]

      pub front-contents : front n d r ≡ x
      front-contents = ap (λ l. get_or l 0 x) (sym (contents-drop_first p d r v count_pos) ∙ e)

      pub pop_front_cons :
          (r' : RingBuffer T) × (pop_front n r ≡ some r') × IsValid n r' × (contents n d r' ≡ xs)
      unfolding pop_front
      pop_front_cons = (
        record r { m_begin = incr n r.m_begin },
        rw (not_empty, pop_front),
        drop_first-IsValid p d r v count_pos,
        ap Deque.rest (sym (contents-drop_first p d r v count_pos) ∙ e),
      )

    pub pop_front_nil : contents n d r ≡ [] → pop_front n r ≡ none
    unfolding pop_front
    pop_front_nil e = rw (empty-nil e, pop_front)

  popped_front :
      (r : RingBuffer T) (l : List T)
      → IsValid n r
      → contents n d r ≡ l
      → Agrees n d (pop_front n r) (Deque.pop_front l)
  unfolding Deque.pop_front
  popped_front r [] v e = rw (pop_front_nil r v e) fails
  popped_front r (x ∷ xs) v e =
      let (r', popped, v', held) = pop_front_cons r v x xs e in rw popped (holds v' held)

  popped_back :
      (r : RingBuffer T) (l : List T)
      → IsValid n r
      → contents n d r ≡ l
      → Agrees n d (pop_back n r) (Deque.pop_back l)
  unfolding pop_back Deque.pop_back
  popped_back r [] v e = rw (empty-nil r v e, pop_back) fails
  popped_back r (x ∷ xs) v e =
      rw (not_empty r v x xs e, pop_back)
        (holds (drop_last-IsValid p d r v (count_pos r v x xs e)) (
          sym (Deque.all_but_last-append _ (back n d r))
          ∙ ap Deque.all_but_last (sym (contents-drop_last p d r v (count_pos r v x xs e)) ∙ e)))

  -- Each call of a valid ring agrees with the deque's.
  pub step_refines :
      (r : RingBuffer T) (o : Op T)
      → IsValid n r
      → Agrees n d (step n r o) (Deque.step n (contents n d r) o)
  unfolding step Deque.step
  step_refines r (put_back x) v = let (v', e) = push_back_refines p d r x v in holds v' e
  step_refines r (put_front x) v = let (v', e) = push_front_refines p d r x v in holds v' e
  step_refines r take_front v = popped_front r (contents n d r) v refl
  step_refines r take_back v = popped_back r (contents n d r) v refl

  run_after :
      (os : List (Op T)) {o : Option (RingBuffer T)} {s : Option (List T)}
      → ((r : RingBuffer T)
          → IsValid n r
          → Agrees n d (run n r os) (Deque.run n (contents n d r) os))
      → Agrees n d o s
      → Agrees n d
          (elim o [ none ↦ none | some r' ↦ run n r' os ])
          (elim s [ none ↦ none | some l' ↦ Deque.run n l' os ])
  run_after os ih fails = fails
  run_after os ih (holds {r = r} v e) =
      subst (λ l. Agrees n d (run n r os) (Deque.run n l os)) e (ih r v)

  -- For a capacity that is a power of two: a sequence of pushes and pops at both ends runs on a
  -- valid ring as on the bounded deque of its elements. An assertion fails in both or in neither,
  -- and where none does, a valid ring and the same elements are left.
  pub run_refines :
      (r : RingBuffer T) (os : List (Op T))
      → IsValid n r
      → Agrees n d (run n r os) (Deque.run n (contents n d r) os)
  unfolding run Deque.run
  run_refines r [] v = holds v refl
  run_refines r (o ∷ os) v = run_after os (λ r' v'. run_refines r' os v') (step_refines r o v)

  -- For a capacity `N` that is a power of two: a new ring over any storage of `N` elements runs as
  -- the empty deque does, with the same failures and the same elements.
  pub run-init_refines :
      (storage : List T) (os : List (Op T))
      → length storage ≡ n
      → Agrees n d (run n (init storage) os) (Deque.run n [] os)
  run-init_refines storage os e =
      subst (λ l. Agrees n d (run n (init storage) os) (Deque.run n l os)) (contents-init storage)
        (run_refines (init storage) os (init-IsValid storage e))
