-- ===== src/Variant.antt =====
-- `Variant` of include/util/variant.hpp. A bounded type is a number, and an object a value of such a
-- type, which a move leaves behind as a moved-from object. A variant has a pointer to a destructor,
-- by its type (`none` is that of `void`), and a storage. `ndebug` says that assertions are compiled
-- out; else `none` is one that fails. `constructed` and `destroyed` count objects.
pub mod Swap
mod Tests
use cxx_util.Prelude.{
  ℕ, suc, ◌+◌, Bool, true, false, List, [], ◌∷◌, map, Option, none, some, ◌==◌, if◌then◌else◌,
}
use cxx_util.Fold.{any}

pub record Object : Type 0 where
  pub type_of : ℕ
  pub value : ℕ
  pub moved_from : Bool

pub record Variant : Type 0 where
  pub m_dtor : Option ℕ
  pub m_data : Option Object

pub record Lifetimes : Type 0 where
  pub constructed : ℕ
  pub destroyed : ℕ

abbrev pub bounded : ℕ → ℕ → List ℕ → Bool
bounded u t ts = any (u == t) (map (λ x. u == x) ts)

-- The private default constructor: no value.
abbrev pub void : Variant
void = record { m_dtor = none; m_data = none }

-- The constructor from a value of a bounded type; the static assertion.
pub construct : ℕ → List ℕ → ℕ → ℕ → Lifetimes → Option (Variant × Lifetimes)
construct t ts u x l =
    if bounded u t ts
    then some (
      record {
        m_dtor = some u;
        m_data = some (record { type_of = u; value = x; moved_from = false });
      },
      record l { constructed = l.constructed + 1 },
    )
    else none

abbrev dtor : Option ℕ → Lifetimes → Lifetimes
dtor none l = l
dtor (some u) l = record l { destroyed = l.destroyed + 1 }

-- The destructor.
abbrev pub destroy : Variant → Lifetimes → Lifetimes
destroy v l = dtor v.m_dtor l

abbrev is_dtor : ℕ → Option ℕ → Bool
is_dtor u none = false
is_dtor u (some t) = u == t

pub get : ℕ → Variant → Option Object
get u v = if is_dtor u v.m_dtor then v.m_data else none

-- `get` of a pointer to a variant, with its static assertion.
pub get_bounded : ℕ → List ℕ → ℕ → Variant → Option (Option Object)
get_bounded t ts u v = if bounded u t ts then some (get u v) else none

-- The visitor `MoveTo`: it constructs an object at its destination by a move.
abbrev pub move_to : ℕ → Object → Option Object × Lifetimes → Object × (Option Object × Lifetimes)
move_to t x (destination, l) =
    (record x { moved_from = true }, (some x, record l { constructed = l.constructed + 1 }))

module _ (ndebug : Bool) where
  -- `apply`: the visitor is called with the object as one of the first bounded type that fits, and may
  -- change it and a state of its own.
  pub apply {ℓ} :
      {S : Type ℓ} → List ℕ → (ℕ → Object → S → Object × S) → Variant → S → Option (Variant × S)
  apply [] f v s = if ndebug then some (v, s) else none
  apply (t ∷ ts) f v s = elim (get t v) [
    | some x ↦ some (record v { m_data = some (f t x s).0 }, (f t x s).1)
    | none ↦ apply ts f v s
  ]

  -- One of the moves of `swap`: from a variant into the storage of another.
  pub move_into : List ℕ → Variant → Variant → Lifetimes → Option (Variant × Variant × Lifetimes)
  move_into ts source target l = elim (apply ts move_to source (target.m_data, l)) [
    | none ↦ none
    | some r ↦ some (r.0, record { m_dtor = source.m_dtor; m_data = r.1.0 }, r.1.1)
  ]

  -- `swap`, with the destruction of its temporary: `lhs` and `rhs` are two variants.
  pub swap : List ℕ → Variant → Variant → Lifetimes → Option (Variant × Variant × Lifetimes)
  swap ts lhs rhs l = elim (move_into ts lhs void l) [
    | none ↦ none
    | some (lhs1, tmp, l1) ↦ elim (move_into ts rhs lhs1 l1) [
      | none ↦ none
      | some (rhs1, lhs2, l2) ↦ elim (move_into ts tmp rhs1 l2) [
        | none ↦ none
        | some (tmp1, rhs2, l3) ↦ some (lhs2, rhs2, destroy tmp1 l3)
      ]
    ]
  ]

  -- The move constructor: the new variant, and the one that is moved from.
  pub move_construct : List ℕ → Variant → Lifetimes → Option (Variant × Variant × Lifetimes)
  move_construct ts other l = swap ts void other l

  -- The assignment takes its argument by value, and destroys it at the end.
  pub assign : List ℕ → Variant → Variant → Lifetimes → Option (Variant × Lifetimes)
  assign ts v other l = elim (swap ts v other l) [
    | none ↦ none
    | some (v', other', l') ↦ some (v', destroy other' l')
  ]
