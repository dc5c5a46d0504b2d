-- ===== src/Variant/Swap.antt =====
-- The moves, the swap and the assignment of `Variant`.
use cxx_util.Prelude.{
  ℕ, ◌+◌, ◌≡◌, refl, sym, ap, ◌∙◌, subst, arith, Bool, true, false, List, [], ◌∷◌, Option, none,
  some, ◌==◌, inl, inr, Bool-cases, ==_iff, if◌then◌else◌,
}
use cxx_util.Fold.{any}
use cxx_util.Variant.{
  Object, Variant, Lifetimes, construct, get_bounded, bounded, void, get, apply, move_to, move_into,
  swap, move_construct, assign,
}

abbrev pub fresh : ℕ → ℕ → Object
fresh u x = record { type_of = u; value = x; moved_from = false }

-- What a move leaves behind.
abbrev left : ℕ → ℕ → Variant
left u x = record { m_dtor = some u; m_data = some (record (fresh u x) { moved_from = true }) }

-- A variant with a value of type `u`.
abbrev pub holding : ℕ → ℕ → Variant
holding u x = record {
  m_dtor = some u;
  m_data = some (record { type_of = u; value = x; moved_from = false });
}

-- The variant that has the object `x`, of type `u`.
abbrev having : ℕ → Object → Variant
having u x = record { m_dtor = some u; m_data = some x }

get_held : (u : ℕ) (x : Object) → get u (having u x) ≡ some x
unfolding get
get_held u x = ground arith

get_other : (t u : ℕ) (x : Object) → (t == u) ≡ false → get t (having u x) ≡ none
unfolding get
get_other t u x e = rw e refl

bounded_skip :
    (u t t' : ℕ) (ts : List ℕ)
    → bounded u t (t' ∷ ts) ≡ true
    → (t == u) ≡ false
    → bounded u t' ts ≡ true
unfolding any
bounded_skip u t t' ts h e = ground arith

module _ {ℓ} {S : Type ℓ} (ndebug : Bool) (f : ℕ → Object → S → Object × S) where
  apply_here :
      (t : ℕ) (ts : List ℕ) (v : Variant) (s : S) (x : Object)
      → get t v ≡ some x
      → apply ndebug (t ∷ ts) f v s ≡ some (record v { m_data = some (f t x s).0 }, (f t x s).1)
  unfolding apply
  apply_here t ts v s x e = rw (e, apply) refl

  apply_skip :
      (t : ℕ) (ts : List ℕ) (v : Variant) (s : S)
      → get t v ≡ none
      → apply ndebug (t ∷ ts) f v s ≡ apply ndebug ts f v s
  unfolding apply
  apply_skip t ts v s e = rw (e, apply) refl

  here :
      (t : ℕ) (ts : List ℕ) (u : ℕ) (x : Object) (s : S)
      → u ≡ t
      → apply ndebug (t ∷ ts) f (having u x) s ≡ some (having u (f u x s).0, (f u x s).1)
  here t ts u x s e =
      subst (λ k. apply ndebug (k ∷ ts) f (having u x) s ≡ some (having u (f u x s).0, (f u x s).1))
        (e) (apply_here u ts (having u x) s x (get_held u x))

  -- The visitor gets the object that the variant has.
  apply-having :
      (t : ℕ) (ts : List ℕ) (u : ℕ) (x : Object) (s : S)
      → bounded u t ts ≡ true
      → apply ndebug (t ∷ ts) f (having u x) s ≡ some (having u (f u x s).0, (f u x s).1)
  unfolding any
  apply-having t [] u x s h = here t [] u x s ((==_iff u t).0 h)
  apply-having t (t' ∷ ts) u x s h = elim (Bool-cases (t == u)) [
    | inl e ↦ here t (t' ∷ ts) u x s (sym ((==_iff t u).0 e))
    | inr e ↦
        apply_skip t (t' ∷ ts) (having u x) s (get_other t u x e)
        ∙ apply-having t' ts u x s (bounded_skip u t t' ts h e)
  ]

module _ (ndebug : Bool) (t : ℕ) (ts : List ℕ) where
  -- A move out of a variant takes its type and object, and leaves a moved-from object behind.
  move_into-having :
      (u : ℕ) (x : Object) (target : Variant) (l : Lifetimes)
      → bounded u t ts ≡ true
      → move_into ndebug (t ∷ ts) (having u x) target l
        ≡ some (
          having u (record x { moved_from = true }),
          having u x,
          record l { constructed = l.constructed + 1 },
        )
  unfolding move_into
  move_into-having u x target l h =
      rw (apply-having ndebug move_to t ts u x (target.m_data, l) h, move_into) refl

  -- With both variants' types bounded, `swap` exchanges the values. It constructs three objects and
  -- destroys one.
  pub swap-holding :
      (u v a b : ℕ) (l : Lifetimes)
      → bounded u t ts ≡ true
      → bounded v t ts ≡ true
      → swap ndebug (t ∷ ts) (holding u a) (holding v b) l
        ≡ some (
          holding v b,
          holding u a,
          record { constructed = l.constructed + 3; destroyed = l.destroyed + 1 },
        )
  unfolding swap
  swap-holding u v a b l hu hv =
      rw
        (
          move_into-having u (fresh u a) void l hu,
          move_into-having v (fresh v b) (left u a) (record l { constructed = l.constructed + 1 })
              hv,
          move_into-having u (fresh u a) (left v b)
              (record l { constructed = l.constructed + 1 + 1 }) hu,
          swap,
        )
        (ap
          (λ n.
            some
              (holding v b, holding u a, record { constructed = n; destroyed = l.destroyed + 1 }))
          (omega arith))

  -- The assignment gives the value of its argument. It constructs three objects and destroys two.
  pub assign-holding :
      (u v a b : ℕ) (l : Lifetimes)
      → bounded u t ts ≡ true
      → bounded v t ts ≡ true
      → assign ndebug (t ∷ ts) (holding u a) (holding v b) l
        ≡ some
            (holding v b, record { constructed = l.constructed + 3; destroyed = l.destroyed + 2 })
  unfolding assign
  assign-holding u v a b l hu hv =
      rw (swap-holding u v a b l hu hv, assign)
        (ap (λ n. some (holding v b, record { constructed = l.constructed + 3; destroyed = n }))
          (omega arith))

apply-void {ℓ} :
    {S : Type ℓ} (f : ℕ → Object → S → Object × S) (ts : List ℕ) (s : S)
    → apply false ts f void s ≡ none
unfolding apply get
apply-void f [] s = refl
apply-void f (t ∷ ts) s = apply-void f ts s

apply-no_type {ℓ} :
    {S : Type ℓ} (f : ℕ → Object → S → Object × S) (ts : List ℕ) (o : Option Object) (s : S)
    → apply true ts f (record { m_dtor = none; m_data = o }) s
      ≡ some (record { m_dtor = none; m_data = o }, s)
unfolding apply get
apply-no_type f [] o s = refl
apply-no_type f (t ∷ ts) o s = apply-no_type f ts o s

-- With assertions, the move construction fails one, whatever it moves from. Without them it takes
-- the value of a bounded type, and leaves the other variant with no destructor and a moved-from object.
pub move_construct-holding :
    (t : ℕ) (ts : List ℕ) (u a : ℕ) (l : Lifetimes)
    → bounded u t ts ≡ true
    → ((other : Variant) → move_construct false (t ∷ ts) other l ≡ none)
      × (move_construct true (t ∷ ts) (holding u a) l
          ≡ some (
            holding u a,
            record { m_dtor = none; m_data = some (record (fresh u a) { moved_from = true }) },
            record l { constructed = l.constructed + 1 },
          ))
unfolding move_construct swap move_into
move_construct-holding t ts u a l h = (
  λ other. rw (apply-void move_to (t ∷ ts) (none, l), move_construct, swap, move_into) refl,
  rw
      (
        apply-no_type move_to (t ∷ ts) none (none, l),
        apply-having true move_to t ts u (fresh u a) (none, l) h,
        apply-no_type move_to (t ∷ ts) none (
          some (record (fresh u a) { moved_from = true }),
          record l { constructed = l.constructed + 1 },
        ),
        move_construct,
        swap,
        move_into,
      )
      refl,
)

-- A variant constructed from a value of a bounded type gives it back at that type, and nothing at any
-- other bounded type.
pub get-construct :
    (t : ℕ) (ts : List ℕ) (u x : ℕ) (l : Lifetimes)
    → bounded u t ts ≡ true
    → (construct t ts u x l ≡ some (holding u x, record l { constructed = l.constructed + 1 }))
      × ((k : ℕ)
          → bounded k t ts ≡ true
          → get_bounded t ts k (holding u x) ≡ some (if k == u then some (fresh u x) else none))
unfolding construct get get_bounded
get-construct t ts u x l h = (rw (h, construct) refl, λ k b. rw (b, get_bounded) refl)
