-- ===== src/RingBuffer/Queue.antt =====
-- `PotQueue<T, N>` of include/util/potqueue.hpp: the ring buffer as a queue that overwrites.
use cxx_util.Prelude.{
  ℕ, zero, suc, ◌+◌, ◌-◌, ◌≤◌, ◌≡◌, refl, sym, ap, ap₂, ◌∙◌, arith, Bool, List, [], ◌∷◌, ◌++◌,
  Option, none, some, length, drop, length-append, length-drop, ◌<◌, ℕ_discrete,
}
use mathlib.Core.List.{append_assoc, append-nil}
use cxx_util.RingBuffer
use cxx_util.RingBuffer.{RingBuffer}
use cxx_util.RingBuffer.Deque
use cxx_util.RingBuffer.Index.{PowerOfTwo, capacity_pos}
use cxx_util.RingBuffer.Invariant.{IsValid, contents}
use cxx_util.RingBuffer.Refine.{length-contents, push_back_refines}
use cxx_util.RingBuffer.Run.{pop_front_nil, pop_front_cons, front-contents}

pub record PotQueue {ℓ} (T : Type ℓ) : Type ℓ where
  pub m_ringbuffer : RingBuffer T

module _ (n : ℕ) where
  abbrev pub capacity : ℕ
  capacity = RingBuffer.capacity n

  module _ {ℓ} {T : Type ℓ} where
    abbrev pub at : T → PotQueue T → ℕ → T
    at d q index = RingBuffer.at n d q.m_ringbuffer index

    abbrev pub size : PotQueue T → ℕ
    size q = RingBuffer.size n q.m_ringbuffer

    abbrev pub empty : PotQueue T → Bool
    empty q = RingBuffer.empty n q.m_ringbuffer

    abbrev pub full : PotQueue T → Bool
    full q = RingBuffer.full n q.m_ringbuffer

    abbrev pub front : T → PotQueue T → T
    front d q = RingBuffer.front n d q.m_ringbuffer

    pub push : PotQueue T → T → PotQueue T
    push q elem = record { m_ringbuffer = RingBuffer.push_back n q.m_ringbuffer elem }

    pub pop : PotQueue T → Option (PotQueue T)
    pop q = elim (RingBuffer.pop_front n q.m_ringbuffer) [
      | none ↦ none
      | some r ↦ some (record { m_ringbuffer = r })
    ]

    -- A producer's pushes, in order.
    pub push_all : PotQueue T → List T → PotQueue T
    push_all q [] = q
    push_all q (x ∷ xs) = push_all (push q x) xs

    -- A consumer that reads the front and pops while it can.
    pub drain : T → ℕ → PotQueue T → List T
    drain d zero q = []
    drain d (suc fuel) q = elim (pop q) [ none ↦ [] | some q' ↦ front d q ∷ drain d fuel q' ]

module _ {ℓ} {T : Type ℓ} where
  drop-append : (i : ℕ) (xs ys : List T) → i ≤ length xs → drop i xs ++ ys ≡ drop i (xs ++ ys)
  drop-append zero xs ys h = refl
  drop-append (suc i) [] ys h = elim h [ ]
  drop-append (suc i) (x ∷ xs) ys h = drop-append i xs ys (omega arith)

  drop-nil : (i : ℕ) → drop {A = T} i [] ≡ []
  drop-nil zero = refl
  drop-nil (suc i) = refl

  drop-drop : (i j : ℕ) (xs : List T) → drop j (drop i xs) ≡ drop (i + j) xs
  drop-drop zero j xs = ap (λ t. drop t xs) (omega arith)
  drop-drop (suc i) j [] = drop-nil j ∙ sym (drop-nil (suc i + j))
  drop-drop (suc i) j (x ∷ xs) =
      drop-drop i j xs ∙ ap (λ t. drop t (x ∷ xs)) {x = suc (i + j)} (omega arith)

  -- The last `n` elements, or all of them.
  abbrev pub latest : ℕ → List T → List T
  latest n l = drop (length l - n) l

  latest-append : (n : ℕ) (xs ys : List T) → latest n (latest n xs ++ ys) ≡ latest n (xs ++ ys)
  latest-append n xs ys =
      ap (latest n) (drop-append i xs ys (omega arith))
      ∙ drop-drop i (length (drop i (xs ++ ys)) - n) (xs ++ ys)
      ∙ ap (λ t. drop t (xs ++ ys)) count_eq
    where
      i : ℕ
      i = length xs - n

      count_eq : i + (length (drop i (xs ++ ys)) - n) ≡ length (xs ++ ys) - n
      count_eq = omega (arith, length-drop i (xs ++ ys), length-append xs ys)

  rest-append :
      (xs : List T) (x : T) → 0 < length xs → Deque.rest xs ++ (x ∷ []) ≡ drop 1 (xs ++ (x ∷ []))
  rest-append [] x h = elim h [ ]
  rest-append (y ∷ ys) x h = refl

  push_back-latest :
      (n : ℕ) (l : List T) (x : T)
      → 0 < n
      → length l ≤ n
      → Deque.push_back n l x ≡ latest n (l ++ (x ∷ []))
  push_back-latest n l x pos h = elim (ℕ_discrete (length l) n) [
    | yes e ↦
        Deque.push_back-full n l x e
        ∙ rest-append l x (omega arith)
        ∙ ap (λ t. drop t (l ++ (x ∷ []))) {x = 1} (omega (arith, length-append l (x ∷ [])))
    | no ne ↦
        Deque.push_back-room n l x ne
        ∙ ap (λ t. drop t (l ++ (x ∷ []))) {x = 0} (omega (arith, length-append l (x ∷ [])))
  ]

module _ {ℓ} {T : Type ℓ} {n : ℕ} (p : PowerOfTwo n) (d : T) where
  abbrev pub held : PotQueue T → List T
  held q = contents n d q.m_ringbuffer

  length-held : (q : PotQueue T) → IsValid n q.m_ringbuffer → length (held q) ≤ n
  length-held q v = omega (arith, length-contents p d q.m_ringbuffer, v.count_in)

  push_all-IsValid :
      (q : PotQueue T) (xs : List T)
      → IsValid n q.m_ringbuffer
      → IsValid n (push_all n q xs).m_ringbuffer
  unfolding push_all push
  push_all-IsValid q [] v = v
  push_all-IsValid q (x ∷ xs) v =
      push_all-IsValid (push n q x) xs (push_back_refines p d q.m_ringbuffer x v).0

  push_all-held :
      (q : PotQueue T) (xs : List T)
      → IsValid n q.m_ringbuffer
      → held (push_all n q xs) ≡ latest n (held q ++ xs)
  unfolding push_all push
  push_all-held q [] v =
      sym (append-nil (held q))
      ∙ ap (λ t. drop t (held q ++ [])) {x = 0}
          (omega (arith, length-append (held q) [], length-held q v))
  push_all-held q (x ∷ xs) v =
      push_all-held (push n q x) xs (push_back_refines p d q.m_ringbuffer x v).0
      ∙ ap (λ l. latest n (l ++ xs))
          ((push_back_refines p d q.m_ringbuffer x v).1
            ∙ push_back-latest n (held q) x (capacity_pos p) (length-held q v))
      ∙ latest-append n (held q ++ (x ∷ [])) xs
      ∙ ap (latest n) (append_assoc (held q) (x ∷ []) xs)

  drain-held :
      (fuel : ℕ) (q : PotQueue T) (l : List T)
      → IsValid n q.m_ringbuffer
      → held q ≡ l
      → length l ≤ fuel
      → drain n d fuel q ≡ l
  unfolding drain pop
  drain-held zero q [] v e h = refl
  drain-held zero q (x ∷ xs) v e h = elim h [ ]
  drain-held (suc fuel) q [] v e h = rw (pop_front_nil p d q.m_ringbuffer v e, drain, pop)
  drain-held (suc fuel) q (x ∷ xs) v e h =
      let (r', popped, v', left) = pop_front_cons p d q.m_ringbuffer v x xs e in
      rw (popped, drain, pop)
        (ap₂ ◌∷◌ (front-contents p d q.m_ringbuffer v x xs e)
          (drain-held fuel (record { m_ringbuffer = r' }) xs v' left (omega arith)))

  -- For a capacity `N` that is a power of two: a queue on a valid ring that is fed any sequence and
  -- then drained gives out, in order, the latest `N` of what it held and was fed.
  pub drain-push_all :
      (q : PotQueue T) (xs : List T)
      → IsValid n q.m_ringbuffer
      → drain n d n (push_all n q xs) ≡ latest n (held q ++ xs)
  drain-push_all q xs v =
      drain-held n (push_all n q xs) (latest n (held q ++ xs)) (push_all-IsValid q xs v)
        (push_all-held q xs v)
        (omega (arith, length-drop (length (held q ++ xs) - n) (held q ++ xs)))
