-- ===== src/ProducerConsumer/Quiet.antt =====
-- `post` with handlers that do not call the queue themselves, as those of MessageQueue are.
use mathlib.Core.List.{append_assoc, append-nil}
use cxx_util.Prelude.{
  ℕ, zero, suc, ◌<◌, ◌≡◌, refl, sym, ◌∙◌, arith, List, [], ◌∷◌, ◌++◌, some, length, drop,
}
use cxx_util.ProducerConsumer.{Call, Queue, take_pair, run_calls, post_with, post}

pub drop-nil {κ} : {A : Type κ} (n : ℕ) → drop {A = A} n [] ≡ []
drop-nil zero = refl
drop-nil (suc n) = refl

module _ {ℓ} {H D : Type ℓ} where
  abbrev pub quiet : H → D → List (Call H D)
  quiet h d = []

  abbrev pub pairs : List H → List D → List (H × D)
  pairs [] ds = []
  pairs (h ∷ hs) [] = []
  pairs (h ∷ hs) (d ∷ ds) = (h, d) ∷ pairs hs ds

  abbrev with_queues : Queue H D → List H → List D → List (H × D) → Queue H D
  with_queues q hs ds log = record q { m_handlers = hs; m_data = ds; invoked = log }

  with_queues-eq :
      (q : Queue H D) {hs hs' : List H} {ds ds' : List D} {log log' : List (H × D)}
      → hs ≡ hs'
      → ds ≡ ds'
      → log ≡ log'
      → some (with_queues q hs ds log) ≡ some (with_queues q hs' ds' log')
  with_queues-eq q p r s = λ i. some (with_queues q (p i) (r i) (s i))

  -- The two queues paired off.
  abbrev pub settled : Queue H D → Queue H D
  settled q =
      with_queues q (drop (length q.m_data) q.m_handlers) (drop (length q.m_handlers) q.m_data)
        (q.invoked ++ pairs q.m_handlers q.m_data)

  post_with-quiet :
      (fuel : ℕ) (hs : List H) (ds : List D) (q : Queue H D)
      → ((r : Queue H D) → length r.m_handlers < fuel → post quiet fuel r ≡ some (settled r))
      → q.m_handlers ≡ hs
      → q.m_data ≡ ds
      → length hs < suc fuel
      → post_with quiet (post quiet fuel) hs ds q
        ≡ some
            (with_queues q (drop (length ds) hs) (drop (length hs) ds) (q.invoked ++ pairs hs ds))
  unfolding run_calls
  post_with-quiet fuel [] ds q ih eh ed h =
      with_queues-eq q (eh ∙ sym (drop-nil (length ds))) ed (sym (append-nil q.invoked))
  post_with-quiet fuel (x ∷ hs) [] q ih eh ed h =
      with_queues-eq q eh ed (sym (append-nil q.invoked))
  post_with-quiet fuel (x ∷ hs) (d ∷ ds) q ih eh ed h =
      ih (take_pair x hs d ds q) (omega arith)
      ∙ with_queues-eq q refl refl (append_assoc q.invoked ((x, d) ∷ []) (pairs hs ds))

  pub post-quiet :
      (fuel : ℕ) (q : Queue H D) → length q.m_handlers < fuel → post quiet fuel q ≡ some (settled q)
  unfolding post
  post-quiet zero q h = elim h [ ]
  post-quiet (suc fuel) q h =
      post_with-quiet fuel q.m_handlers q.m_data q (post-quiet fuel) refl refl h
