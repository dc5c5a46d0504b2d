-- ===== src/ProducerConsumer/Depth.antt =====
-- `depth` against the calls that were made.
use cxx_util.Prelude.{
  ℕ, ◌+◌, ◌^◌, ◌<◌, ◌≡◌, ap, ap₂, ◌∙◌, arith, List, map, some, length, length-append, length-map,
}
use cxx_util.Prelude.Int.{sub_ℕ}
use cxx_util.Prelude.Word.{sub_size}
use cxx_util.ProducerConsumer.{Call, Queue, depth, to_int, run, empty}
use cxx_util.ProducerConsumer.History.{handler_of, datum_of, run_in_order}

-- A difference of two small sizes survives the wrap of `size_t` and the cut to `int`.
to_int-sub_size : (a b : ℕ) → a < 2 ^ 31 → b < 2 ^ 31 → to_int (sub_size a b) ≡ sub_ℕ a b
unfolding to_int
to_int-sub_size a b ha hb = ground arith

sub_ℕ-shift : (k a b : ℕ) → sub_ℕ a b ≡ sub_ℕ (k + a) (k + b)
sub_ℕ-shift k a b = ground arith

module _ {ℓ} {H D : Type ℓ} (react : H → D → List (Call H D)) where
  -- After any calls on a new queue that end within the fuel and leave fewer than 2 ^ 31 handlers
  -- and data waiting, `depth` is the number of calls of `produce` less that of `consume`, those that
  -- the handlers made included.
  pub depth-run :
      (fuel : ℕ) (cs : List (Call H D)) {q : Queue H D}
      → run react fuel cs empty ≡ some q
      → length q.m_handlers < 2 ^ 31
      → length q.m_data < 2 ^ 31
      → depth q ≡ sub_ℕ (length q.produced) (length q.consumed)
  unfolding depth
  depth-run fuel cs {q} e hh hd =
      to_int-sub_size (length q.m_data) (length q.m_handlers) hd hh
      ∙ sub_ℕ-shift (length q.invoked) (length q.m_data) (length q.m_handlers)
      ∙ ap₂ sub_ℕ data_count handler_count
    where
      data_count : length q.invoked + length q.m_data ≡ length q.produced
      data_count = omega (
        arith,
        ap length (run_in_order react fuel cs e).1,
        length-append (map datum_of q.invoked) q.m_data,
        length-map q.invoked datum_of,
      )

      handler_count : length q.invoked + length q.m_handlers ≡ length q.consumed
      handler_count = omega (
        arith,
        ap length (run_in_order react fuel cs e).0,
        length-append (map handler_of q.invoked) q.m_handlers,
        length-map q.invoked handler_of,
      )
