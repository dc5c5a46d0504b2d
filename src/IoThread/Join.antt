-- ===== src/IoThread/Join.antt =====
-- Several calls of `IoThread::join` of src/iothread.cpp.
use cxx_util.Prelude.{
  ℕ, zero, suc, ◌≡◌, ◌≢◌, ◌↔◌, refl, ap, Bool, true, false, false≢true, List, [], ◌∷◌, none,
  replicate,
}
use cxx_util.IoThread.{Ending, ran, threw, IoThread, start, join, destroy}

-- What calls in a row give, and the thread after them.
abbrev pub joins : ℕ → IoThread → List Ending × IoThread
joins zero t = ([], t)
joins (suc n) t = let rest = joins n (join t).1 in ((join t).0 ∷ rest.0, rest.1)

abbrev joined : IoThread
joined = record { work = false; future = none }

joins_again : (n : ℕ) → joins n joined ≡ (replicate n (ran 0), joined)
unfolding join
joins_again zero = refl
joins_again (suc n) = ap (λ r. (ran 0 ∷ r.0, r.1)) (joins_again n)

-- The first call of `join` stops the work and gives the end of the run, its count or what it threw; each
-- later call gives zero; and the destructor returns after at least one call, however the run ended, and
-- without one just when the run did not throw.
pub joins_lem :
    (e : Ending) (n : ℕ)
    → (joins (suc n) (start e) ≡ (e ∷ replicate n (ran 0), record { work = false; future = none }))
      × (destroy (joins (suc n) (start e)).1 ≡ true)
      × ((destroy (start e) ≡ true) ↔ (e ≢ threw))
unfolding start join destroy
joins_lem e n =
    (ap (λ r. (e ∷ r.0, r.1)) (joins_again n), ap (λ r. destroy r.1) (joins_again n), ended e)
  where
    ended :
        (e : Ending) → (elim e as (λ x. Bool) [ ran m ↦ true | threw ↦ false ] ≡ true) ↔ (e ≢ threw)
    ended (ran m) =
        (λ h q. false≢true (ap (λ x. elim x [ ran k ↦ false | threw ↦ true ]) q), λ h. refl)
    ended threw = (λ h q. false≢true h, λ h. absurd (h refl))
