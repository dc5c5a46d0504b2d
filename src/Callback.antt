-- ===== src/Callback.antt =====
-- include/util/callback.hpp. The objects of a class are in a store, at an address each; `none` is a
-- call through a null pointer or of no object. A free function may read and change the whole store,
-- and a member function its object. The instances of the templates of `wrapper` are the constructors
-- of `Wrapper`, each with the function that is its template argument.
pub mod Signal
mod Tests
use cxx_util.Prelude.{ℕ, Bool, true, false, not, List, Option, none, some, get_elem?, set}

module _ (T P R : Type 0) where
  pub data Wrapper : Type 0 where
    free : (P → List T → R × List T) → Wrapper
    member : (T → P → R × T) → Wrapper
    const_member : (T → P → R) → Wrapper

  pub record Callback : Type 0 where
    pub func : Option Wrapper
    pub obj : Option ℕ

-- What a call by a pointer does with what it points to.
abbrev pub and_then : {A B : Type 0} → Option A → (A → Option B) → Option B
and_then none f = none
and_then (some a) f = f a

module _ {T : Type 0} where
  abbrev object : Option ℕ → List T → Option T
  object o store = and_then o (get_elem? store)

  abbrev store_at : Option ℕ → T → List T → List T
  store_at none x store = store
  store_at (some o) x store = set store o x

module _ {T P R : Type 0} where
  -- The default constructor, and that from a `NullCallback`.
  abbrev pub null_callback : Callback T P R
  null_callback = record { func = none; obj = none }

  -- The copy constructor.
  pub copy : Callback T P R → Callback T P R
  copy rhs = record { func = rhs.func; obj = rhs.obj }

  -- The assignments, of a `NullCallback` and of another callback.
  pub assign_null : Callback T P R → Callback T P R
  assign_null c = record (record c { obj = none }) { func = none }

  pub assign : Callback T P R → Callback T P R → Callback T P R
  assign c rhs = record (record c { obj = rhs.obj }) { func = rhs.func }

  -- The bodies of the functions `wrapper`.
  pub wrapper : Wrapper T P R → Option ℕ → P → List T → Option (R × List T)
  wrapper (free f) o p store = some (f p store)
  wrapper (member f) o p store =
      and_then (object o store) (λ x. some ((f x p).0, store_at o (f x p).1 store))
  wrapper (const_member f) o p store = and_then (object o store) (λ x. some (f x p, store))

  -- `operator()`.
  pub call : Callback T P R → P → List T → Option (R × List T)
  call c p store = and_then c.func (λ f. wrapper f c.obj p store)

  -- The conversion to a truth value, and `operator!`.
  pub to_bool : Callback T P R → Bool
  to_bool c = elim c.func [ none ↦ false | some f ↦ true ]

  pub is_null : Callback T P R → Bool
  is_null c = elim c.func [ none ↦ true | some f ↦ false ]

  -- The functions `bind` of the three factories.
  pub bind_free : (P → List T → R × List T) → Callback T P R
  bind_free f = record { func = some (free f); obj = none }

  pub bind_member : (T → P → R × T) → ℕ → Callback T P R
  bind_member f o = record { func = some (member f); obj = some o }

  pub bind_const_member : (T → P → R) → ℕ → Callback T P R
  bind_const_member f o = record { func = some (const_member f); obj = some o }
