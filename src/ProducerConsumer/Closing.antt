-- ===== src/ProducerConsumer/Closing.antt =====
-- The two loops with which `MessageQueueImpl::close` of include/util/asio/ws/messagequeue.hpp and
-- `AcceptorImpl::close` of include/util/asio/ws/acceptor.hpp empty their queues:
-- `while (depth() < 0) produce(d)` and `while (depth() > 0) consume(h)`. The lemmas are on handlers
-- that do not call the queue again.
use cxx_util.Prelude.{
  ℕ, zero, suc, ◌^◌, ◌<◌, ◌≡◌, refl, sym, ap, ◌∙◌, arith, List, [], ◌∷◌, ◌++◌, map, Option, some,
  none, length, drop, true, false, ltb, lt→ltb,
}
use mathlib.Core.List.{append_assoc, append-nil}
use cxx_util.Prelude.Word.{sub_size}
use cxx_util.Prelude.Int.{pos, ltb_ℤ}
use cxx_util.ProducerConsumer.{Call, Queue, depth, to_int, consume, produce, post}
use cxx_util.ProducerConsumer.Quiet.{quiet, post-quiet, pairs}

-- The sign of `depth`, for sizes that an `int` can tell apart.
demand_test : (a b : ℕ) → a < 2 ^ 31 → b < 2 ^ 31 → ltb_ℤ (to_int (sub_size a b)) (pos 0) ≡ ltb a b
unfolding to_int
demand_test a b ha hb = ground arith

supply_test : (a b : ℕ) → a < 2 ^ 31 → b < 2 ^ 31 → ltb_ℤ (pos 0) (to_int (sub_size a b)) ≡ ltb b a
unfolding to_int
supply_test a b ha hb = ground arith

module _ {ℓ} {H D : Type ℓ} where
  module _ (react : H → D → List (Call H D)) where
    unfoldable pub abort_demand : ℕ → ℕ → D → Queue H D → Option (Queue H D)
    abort_demand zero post_fuel d q = none
    abort_demand (suc fuel) post_fuel d q = elim (ltb_ℤ (depth q) (pos 0)) [
      | false ↦ some q
      | true ↦ elim (produce (post react post_fuel) d q) [
        | none ↦ none
        | some q' ↦ abort_demand fuel post_fuel d q'
      ]
    ]

    unfoldable pub discard_supply : ℕ → ℕ → H → Queue H D → Option (Queue H D)
    discard_supply zero post_fuel h q = none
    discard_supply (suc fuel) post_fuel h q = elim (ltb_ℤ (pos 0) (depth q)) [
      | false ↦ some q
      | true ↦ elim (consume (post react post_fuel) h q) [
        | none ↦ none
        | some q' ↦ discard_supply fuel post_fuel h q'
      ]
    ]

  abbrev pub queue_of : List H → List D → List (H × D) → List H → List D → Queue H D
  queue_of hs ds log c p = record {
    m_handlers = hs;
    m_data = ds;
    invoked = log;
    consumed = c;
    produced = p;
  }

  module _ (fuel pf : ℕ) (q : Queue H D) where
    abort_stop :
        (d : D) → ltb_ℤ (depth q) (pos 0) ≡ false → abort_demand quiet (suc fuel) pf d q ≡ some q
    unfolding abort_demand
    abort_stop d e = rw (e, abort_demand)

    abort_step :
        (d : D) {q' : Queue H D}
        → ltb_ℤ (depth q) (pos 0) ≡ true
        → produce (post quiet pf) d q ≡ some q'
        → abort_demand quiet (suc fuel) pf d q ≡ abort_demand quiet fuel pf d q'
    unfolding abort_demand
    abort_step d e f = rw (e, f, abort_demand)

    discard_stop :
        (h : H) → ltb_ℤ (pos 0) (depth q) ≡ false → discard_supply quiet (suc fuel) pf h q ≡ some q
    unfolding discard_supply
    discard_stop h e = rw (e, discard_supply)

    discard_step :
        (h : H) {q' : Queue H D}
        → ltb_ℤ (pos 0) (depth q) ≡ true
        → consume (post quiet pf) h q ≡ some q'
        → discard_supply quiet (suc fuel) pf h q ≡ discard_supply quiet fuel pf h q'
    unfolding discard_supply
    discard_step h e f = rw (e, f, discard_supply)

  queue_of-eq :
      (hs : List H) (ds : List D) {log log' : List (H × D)} {c c' : List H} {p p' : List D}
      → log ≡ log'
      → c ≡ c'
      → p ≡ p'
      → some (queue_of hs ds log c p) ≡ some (queue_of hs ds log' c' p')
  queue_of-eq hs ds e f g = λ i. some (queue_of hs ds (e i) (f i) (g i))

  -- On a queue with waiting handlers, fewer than 2 ^ 31 and than the fuel of both loops, and no data,
  -- with handlers that do not call back: the loop of `produce` ends, every handler has been invoked
  -- with `d`, in order, and none waits.
  pub abort_demand_waiting :
      (fuel pf : ℕ) (d : D) (hs : List H) (log : List (H × D)) (c : List H) (p : List D)
      → length hs < fuel
      → length hs < pf
      → length hs < 2 ^ 31
      → abort_demand quiet fuel pf d (queue_of hs [] log c p)
        ≡ some (queue_of [] [] (log ++ map (λ h. (h, d)) hs) c (p ++ map (λ _. d) hs))
  unfolding depth produce
  abort_demand_waiting zero pf d hs log c p h k l = elim h [ ]
  abort_demand_waiting (suc fuel) pf d [] log c p h k l =
      abort_stop fuel pf (queue_of [] [] log c p) d (demand_test 0 0 (omega arith) (omega arith))
      ∙ queue_of-eq [] [] (sym (append-nil log)) refl (sym (append-nil p))
  abort_demand_waiting (suc fuel) pf d (x ∷ hs) log c p h k l =
      abort_step fuel pf (queue_of (x ∷ hs) [] log c p) d
        (demand_test 0 (suc (length hs)) (omega arith) l ∙ lt→ltb _ _ (omega arith))
        (post-quiet pf (queue_of (x ∷ hs) (d ∷ []) log c (p ++ (d ∷ []))) k)
      ∙ ap (abort_demand quiet fuel pf d) (pairs_one hs)
      ∙ abort_demand_waiting fuel pf d hs (log ++ ((x, d) ∷ [])) c (p ++ (d ∷ [])) (omega arith)
          (omega arith) (omega arith)
      ∙ queue_of-eq [] [] (append_assoc log ((x, d) ∷ []) (map (λ h'. (h', d)) hs)) refl
          (append_assoc p (d ∷ []) (map (λ _. d) hs))
    where
      pairs_one :
          (ts : List H)
          → queue_of ts (drop (length ts) []) (log ++ ((x, d) ∷ pairs ts [])) c (p ++ (d ∷ []))
            ≡ queue_of ts [] (log ++ ((x, d) ∷ [])) c (p ++ (d ∷ []))
      pairs_one [] = refl
      pairs_one (t ∷ ts) = refl

  -- On a queue with data, fewer than 2 ^ 31 and than the loop's fuel, and no waiting handlers, with
  -- handlers that do not call back and fuel of 2 for `post`: the loop of `consume` ends, `h` has been
  -- invoked with every datum, in order, and none is left.
  pub discard_supply_waiting :
      (fuel pf : ℕ) (h : H) (ds : List D) (log : List (H × D)) (c : List H) (p : List D)
      → length ds < fuel
      → 1 < pf
      → length ds < 2 ^ 31
      → discard_supply quiet fuel pf h (queue_of [] ds log c p)
        ≡ some (queue_of [] [] (log ++ map (λ d. (h, d)) ds) (c ++ map (λ _. h) ds) p)
  unfolding depth consume
  discard_supply_waiting zero pf h ds log c p k m l = elim k [ ]
  discard_supply_waiting (suc fuel) pf h [] log c p k m l =
      discard_stop fuel pf (queue_of [] [] log c p) h (supply_test 0 0 (omega arith) (omega arith))
      ∙ queue_of-eq [] [] (sym (append-nil log)) (sym (append-nil c)) refl
  discard_supply_waiting (suc fuel) pf h (x ∷ ds) log c p k m l =
      discard_step fuel pf (queue_of [] (x ∷ ds) log c p) h
        (supply_test (suc (length ds)) 0 l (omega arith) ∙ lt→ltb _ _ (omega arith))
        (post-quiet pf (queue_of (h ∷ []) (x ∷ ds) log (c ++ (h ∷ [])) p) m)
      ∙ ap (discard_supply quiet fuel pf h) (pairs_one ds)
      ∙ discard_supply_waiting fuel pf h ds (log ++ ((h, x) ∷ [])) (c ++ (h ∷ [])) p (omega arith) m
          (omega arith)
      ∙ queue_of-eq [] [] (append_assoc log ((h, x) ∷ []) (map (λ d. (h, d)) ds))
          (append_assoc c (h ∷ []) (map (λ _. h) ds)) refl
    where
      pairs_one :
          (ts : List D)
          → queue_of (drop (length ts) []) ts (log ++ ((h, x) ∷ pairs [] ts)) (c ++ (h ∷ [])) p
            ≡ queue_of [] ts (log ++ ((h, x) ∷ [])) (c ++ (h ∷ [])) p
      pairs_one [] = refl
      pairs_one (t ∷ ts) = refl

  -- Without demand the first loop stops at once, and on an empty queue the second one.
  pub abort_demand_none :
      (fuel pf : ℕ) (d : D) (ds : List D) (log : List (H × D)) (c : List H) (p : List D)
      → length ds < 2 ^ 31
      → abort_demand quiet (suc fuel) pf d (queue_of [] ds log c p) ≡ some (queue_of [] ds log c p)
  unfolding depth
  abort_demand_none fuel pf d ds log c p l =
      abort_stop fuel pf (queue_of [] ds log c p) d
        (demand_test (length ds) 0 l (omega arith) ∙ ground arith)

  pub discard_supply_none :
      (fuel pf : ℕ) (h : H) (log : List (H × D)) (c : List H) (p : List D)
      → discard_supply quiet (suc fuel) pf h (queue_of [] [] log c p)
        ≡ some (queue_of [] [] log c p)
  unfolding depth
  discard_supply_none fuel pf h log c p =
      discard_stop fuel pf (queue_of [] [] log c p) h (supply_test 0 0 (omega arith) (omega arith))
