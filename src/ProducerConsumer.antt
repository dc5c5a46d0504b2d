-- ===== src/ProducerConsumer.antt =====
-- `ProducerConsumerQueue` of include/util/producerconsumerqueue.hpp. A consuming function object
-- is a value of a type `H`, and `react h d` lists, in order, the calls that it makes on the same
-- queue when it is invoked with the data `d`: it runs inside `post`, so these calls are nested in
-- the loop that invoked it. `invoked` records the invocations in the order of
-- their beginning, and `consumed` and `produced` what `consume` and `produce` were called with.
-- The loop takes fuel, since handlers that feed the queue can keep it going; `none` is no fuel.
pub mod Rule
pub mod History
pub mod Depth
pub mod Total
pub mod Quiet
pub mod Closing
pub mod Served
pub mod Asked
pub mod Enough
mod Tests
use cxx_util.Prelude.{
  ℕ, zero, suc, ◌-◌, ◌%◌, ◌^◌, List, [], ◌∷◌, ◌++◌, Option, none, some, length, ltb, if◌then◌else◌,
}
use cxx_util.Prelude.Word.{sub_size}
use cxx_util.Prelude.Int.{ℤ, pos, negsuc}

pub data Call {ℓ} (H D : Type ℓ) : Type ℓ where
  consuming : H → Call H D
  producing : D → Call H D

pub record Queue {ℓ} (H D : Type ℓ) : Type ℓ where
  pub m_handlers : List H
  pub m_data : List D
  pub invoked : List (H × D)
  pub consumed : List H
  pub produced : List D

-- A value of `size_t` as an `int`: its low 32 bits, in two's complement.
unfoldable pub to_int : ℕ → ℤ
to_int w = let low = w % 2 ^ 32 in if ltb low (2 ^ 31) then pos low else negsuc (2 ^ 32 - low - 1)

module _ {ℓ} {H D : Type ℓ} where
  unfoldable pub empty : Queue H D
  empty = record { m_handlers = []; m_data = []; invoked = []; consumed = []; produced = [] }

  unfoldable pub depth : Queue H D → ℤ
  unfolding to_int
  depth q = to_int (sub_size (length q.m_data) (length q.m_handlers))

  abbrev pub emplace_handler : Queue H D → H → Queue H D
  emplace_handler q h = record q {
    m_handlers = q.m_handlers ++ (h ∷ []);
    consumed = q.consumed ++ (h ∷ []);
  }

  abbrev pub emplace_data : Queue H D → D → Queue H D
  emplace_data q d = record q { m_data = q.m_data ++ (d ∷ []); produced = q.produced ++ (d ∷ []) }

  -- Both fronts are popped before the handler is invoked.
  abbrev pub take_pair : H → List H → D → List D → Queue H D → Queue H D
  take_pair h hs d ds q = record q {
    m_handlers = hs;
    m_data = ds;
    invoked = q.invoked ++ ((h, d) ∷ []);
  }

  -- `consume` and `produce`, over the `post` that they end with.
  unfoldable pub consume : (Queue H D → Option (Queue H D)) → H → Queue H D → Option (Queue H D)
  consume post handler q = post (emplace_handler q handler)

  unfoldable pub produce : (Queue H D → Option (Queue H D)) → D → Queue H D → Option (Queue H D)
  produce post d q = post (emplace_data q d)

  abbrev pub call : (Queue H D → Option (Queue H D)) → Call H D → Queue H D → Option (Queue H D)
  call post (consuming h) q = consume post h q
  call post (producing d) q = produce post d q

  unfoldable pub run_calls :
      (Queue H D → Option (Queue H D)) → List (Call H D) → Queue H D → Option (Queue H D)
  run_calls post [] q = some q
  run_calls post (c ∷ cs) q = elim (call post c q) [ none ↦ none | some q' ↦ run_calls post cs q' ]

  module _ (react : H → D → List (Call H D)) where
    -- The loop of `post`: while both queues have a front, pop both and invoke the handler.
    abbrev post_with :
        (Queue H D → Option (Queue H D)) → List H → List D → Queue H D → Option (Queue H D)
    post_with post [] ds q = some q
    post_with post (h ∷ hs) [] q = some q
    post_with post (h ∷ hs) (d ∷ ds) q = elim (run_calls post (react h d) (take_pair h hs d ds q)) [
      | none ↦ none
      | some q' ↦ post q'
    ]

    unfoldable pub post : ℕ → Queue H D → Option (Queue H D)
    post zero q = none
    post (suc fuel) q = post_with (post fuel) q.m_handlers q.m_data q

    -- A sequence of calls from outside.
    pub run : ℕ → List (Call H D) → Queue H D → Option (Queue H D)
    run fuel cs q = run_calls (post fuel) cs q
