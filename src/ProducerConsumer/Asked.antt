-- ===== src/ProducerConsumer/Asked.antt =====
-- Handlers that call back only to consume: who consumes, and what is produced, by the calls from outside.
use cxx_util.Prelude.{
  ℕ, zero, suc, ◌+◌, ◌≡◌, ap, arith, Bool, List, [], ◌∷◌, ◌++◌, map, Option, some, some-inv,
  none-ne-some, some-injective, subst, if◌then◌else◌,
}
use cxx_util.ProducerConsumer.{
  Call, consuming, Queue, emplace_handler, emplace_data, take_pair, consume, produce, run_calls,
  post_with, post,
}

-- The first list is part of the second, in the same order.
pub data IsPart {A : Type 0} : List A → List A → Type 0 where
  nothing : IsPart [] []
  taken : (a : A) {l m : List A} → IsPart l m → IsPart (a ∷ l) (a ∷ m)
  left_out : (a : A) {l m : List A} → IsPart l m → IsPart l (a ∷ m)

module _ {A : Type 0} where
  IsPart-left_out : {l m : List A} (a : A) → IsPart l m → IsPart l (m ++ (a ∷ []))
  IsPart-left_out a nothing = left_out a nothing
  IsPart-left_out a (taken b s) = taken b (IsPart-left_out a s)
  IsPart-left_out a (left_out b s) = left_out b (IsPart-left_out a s)

  IsPart-taken : {l m : List A} (a : A) → IsPart l m → IsPart (l ++ (a ∷ [])) (m ++ (a ∷ []))
  IsPart-taken a nothing = taken a nothing
  IsPart-taken a (taken b s) = taken b (IsPart-taken a s)
  IsPart-taken a (left_out b s) = left_out b (IsPart-taken a s)

module _ {H : Type 0} (p : H → Bool) where
  -- How many of a list are of a kind.
  abbrev pub how_many : List H → ℕ
  how_many [] = 0
  how_many (h ∷ l) = (if p h then 1 else 0) + how_many l

  how_many-append : (l m : List H) → how_many (l ++ m) ≡ how_many l + how_many m
  how_many-append [] m = omega arith
  how_many-append (h ∷ l) m = omega (arith, how_many-append l m)

module _ {H D : Type 0} (asks : H → D → List H) (p : H → Bool) where
  -- How many of the kind the invoked handlers consume with.
  abbrev pub asked : List (H × D) → ℕ
  asked [] = 0
  asked ((h, d) ∷ l) = how_many p (asks h d) + asked l

  asked-append : (l m : List (H × D)) → asked (l ++ m) ≡ asked l + asked m
  asked-append [] m = omega arith
  asked-append ((h, d) ∷ l) m = omega (arith, asked-append l m)

  -- With `k` more of the kind that invoked handlers have yet to consume with.
  abbrev pub Tied : List H → List D → ℕ → Queue H D → Type 0
  Tied hs ds k q =
      (how_many p q.consumed + k ≡ how_many p hs + asked q.invoked)
      × (q.produced ≡ ds)
      × IsPart hs q.consumed

  module _ (hs : List H) (ds : List D) (react : H → D → List (Call H D))
      (only : (h : H) (d : D) → react h d ≡ map consuming (asks h d)) where
    Keeps : (Queue H D → Option (Queue H D)) → Type 0
    Keeps f = (k : ℕ) (q q' : Queue H D) → Tied hs ds k q → f q ≡ some q' → Tied hs ds k q'

    run_calls-Tied :
        (again : Queue H D → Option (Queue H D)) (l : List H) (k : ℕ) (q q' : Queue H D)
        → Keeps again
        → Tied hs ds (how_many p l + k) q
        → run_calls again (map consuming l) q ≡ some q'
        → Tied hs ds k q'
    unfolding Keeps run_calls consume
    run_calls-Tied again [] k q q' keep t e =
        subst (Tied hs ds k) (some-injective q q' e) (omega (arith, t.0), t.1, t.2)
    run_calls-Tied again (h ∷ l) k q q' keep (n, d, s) e =
        let (q1, first, rest) =
          some-inv (again (emplace_handler q h)) (run_calls again (map consuming l)) e in
        run_calls-Tied again l k q1 q' keep
          (keep (how_many p l + k) (emplace_handler q h) q1
            (omega (arith, n, how_many-append p q.consumed (h ∷ [])), d, IsPart-left_out h s) first)
          rest

    post_with-Tied :
        (again : Queue H D → Option (Queue H D)) (ls : List H) (es : List D)
        → Keeps again
        → Keeps (post_with react again ls es)
    unfolding Keeps
    post_with-Tied again [] es keep k q q' t e = subst (Tied hs ds k) (some-injective q q' e) t
    post_with-Tied again (h ∷ ls) [] keep k q q' t e =
        subst (Tied hs ds k) (some-injective q q' e) t
    post_with-Tied again (h ∷ ls) (d ∷ es) keep k q q' (n, u, s) e =
        let (q1, first, rest) =
          some-inv (run_calls again (react h d) (take_pair h ls d es q)) again e in
        keep k q1 q'
          (run_calls-Tied again (asks h d) k (take_pair h ls d es q) q1 keep
            (omega (arith, n, asked-append q.invoked ((h, d) ∷ [])), u, s)
            (subst (λ c. run_calls again c (take_pair h ls d es q) ≡ some q1) (only h d) first))
          rest

    pub post-Tied :
        (fuel k : ℕ) (q q' : Queue H D)
        → Tied hs ds k q
        → post react fuel q ≡ some q'
        → Tied hs ds k q'
    unfolding post Keeps
    post-Tied zero k q q' t e = absurd (none-ne-some e)
    post-Tied (suc fuel) k q q' t e =
        post_with-Tied (post react fuel) q.m_handlers q.m_data (post-Tied fuel) k q q' t e

  module _ (hs : List H) (ds : List D) (react : H → D → List (Call H D))
      (only : (h : H) (d : D) → react h d ≡ map consuming (asks h d)) where
    -- A call from outside.
    pub consume-Tied :
        (fuel : ℕ) (h : H) (q q' : Queue H D)
        → Tied hs ds 0 q
        → consume (post react fuel) h q ≡ some q'
        → Tied (hs ++ (h ∷ [])) ds 0 q'
    unfolding consume
    consume-Tied fuel h q q' (n, d, s) e =
        post-Tied (hs ++ (h ∷ [])) ds react only fuel 0 (emplace_handler q h) q'
          (
            omega (arith, n, how_many-append p q.consumed (h ∷ []), how_many-append p hs (h ∷ [])),
            d,
            IsPart-taken h s,
          )
          e

    pub produce-Tied :
        (fuel : ℕ) (d : D) (q q' : Queue H D)
        → Tied hs ds 0 q
        → produce (post react fuel) d q ≡ some q'
        → Tied hs (ds ++ (d ∷ [])) 0 q'
    unfolding produce
    produce-Tied fuel d q q' (n, u, s) e =
        post-Tied hs (ds ++ (d ∷ [])) react only fuel 0 (emplace_data q d) q'
          (n, ap (λ l. l ++ (d ∷ [])) u, s) e
