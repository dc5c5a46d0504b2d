-- ===== src/Global/Single.antt =====
-- The pointers that `util::global` of include/util/global.hpp gives out.
use cxx_util.Prelude.{
  ℕ, zero, suc, ◌+◌, ◌<◌, ◌≡◌, refl, sym, ap, subst, ◌∙◌, arith, Bool, true, false, false≢true,
  List, [], ◌∷◌, ◌++◌, Option, none, some, some-injective, get_elem?, ==_iff, if◌then◌else◌,
}
use cxx_util.Global.{
  Store, initial, lives, erase, lock, hold, get, global, release, Action, access, let_go, step, run,
}

-- Each pointer of a list is to one object.
abbrev Only : ℕ → List ℕ → Type 0
Only o [] = Unit {0}
Only o (p ∷ ps) = (p ≡ o) × Only o ps

-- Every pointer held is to the object that is observed, which has been made.
abbrev Observed : ℕ → List ℕ → Option ℕ → Type 0
Observed made held none = held ≡ []
Observed made held (some o) = (o < made) × Only o held

abbrev IsSingle : Store → Type 0
IsSingle s = Observed s.made s.held s.observed

Only-snoc : (o : ℕ) (ps : List ℕ) → Only o ps → Only o (ps ++ (o ∷ []))
Only-snoc o [] h = (refl, tt)
Only-snoc o (p ∷ ps) h = (h.0, Only-snoc o ps h.1)

Only-erase : (o i : ℕ) (ps : List ℕ) → Only o ps → Only o (erase i ps)
Only-erase o i [] h = tt
Only-erase o zero (p ∷ ps) h = h.1
Only-erase o (suc i) (p ∷ ps) h = (h.0, Only-erase o i ps h.1)

no_item : {p : ℕ} (i : ℕ) → get_elem? {A = ℕ} [] i ≡ some p → ⊥
no_item i e = false≢true (ap (λ o. elim o [ none ↦ false | some q ↦ true ]) e)

Only-get : (o i p : ℕ) (ps : List ℕ) → Only o ps → get_elem? ps i ≡ some p → p ≡ o
Only-get o i p [] h e = absurd (no_item i e)
Only-get o zero p (q ∷ ps) h e = sym (some-injective _ _ e) ∙ h.0
Only-get o (suc i) p (q ∷ ps) h e = Only-get o i p ps h.1 e

lives-first : (o p : ℕ) (ps : List ℕ) → p ≡ o → lives o (p ∷ ps) ≡ true
lives-first o p ps e = rw ((==_iff p o).1 e) refl

lock-held :
    (made : ℕ) (held : List ℕ) (observed : Option ℕ) (i p : ℕ)
    → Observed made held observed
    → get_elem? held i ≡ some p
    → lock observed held ≡ some p
lock-held made held none i p h e = absurd (no_item i (sym (ap (λ l. get_elem? l i) h) ∙ e))
lock-held made [] (some o) i p h e = absurd (no_item i e)
lock-held made (q ∷ ps) (some o) i p h e =
    rw (lives-first o q ps h.1.0) (ap some (sym (Only-get o i p (q ∷ ps) h.1 e)))

lock_empty : (observed : Option ℕ) → lock observed [] ≡ none
lock_empty none = refl
lock_empty (some o) = refl

-- A pointer that locks is to the object that is observed, and without one there is none held.
lock-some :
    (made : ℕ) (held : List ℕ) (observed : Option ℕ) (o : ℕ)
    → Observed made held observed
    → lock observed held ≡ some o
    → Observed made (held ++ (o ∷ [])) observed
lock-some made held none o h e =
    absurd (false≢true (ap (λ x. elim x [ none ↦ false | some q ↦ true ]) e))
lock-some made held (some q) o h e = by_life (lives q held) e
  where
    by_life :
        (b : Bool)
        → (if b then some q else none) ≡ some o
        → Observed made (held ++ (o ∷ [])) (some q)
    by_life true u =
        (h.0, subst (λ x. Only q (held ++ (x ∷ []))) (some-injective _ _ u) (Only-snoc q held h.1))
    by_life false u = absurd (false≢true (ap (λ x. elim x [ none ↦ false | some r ↦ true ]) u))

lock-none :
    (made : ℕ) (held : List ℕ) (observed : Option ℕ)
    → Observed made held observed
    → lock observed held ≡ none
    → held ≡ []
lock-none made held none h e = h
lock-none made [] (some o) h e = refl
lock-none made (q ∷ ps) (some o) h e = absurd (
    false≢true (
      ap (λ x. elim x [ none ↦ false | some r ↦ true ])
        (sym e ∙ lock-held made (q ∷ ps) (some o) 0 q h refl)))

global-IsSingle : (b : Bool) (s : Store) → IsSingle s → IsSingle (global b s).1
unfolding global
global-IsSingle b s h = by_lock (lock s.observed s.held) refl b
  where
    by_lock : (o : Option ℕ) → lock s.observed s.held ≡ o → (b : Bool) → IsSingle (get b s o).1
    by_lock (some o) e b = lock-some s.made s.held s.observed o h e
    by_lock none e true = (
      omega arith,
      subst (λ x. Only s.made (x ++ (s.made ∷ []))) (sym (lock-none s.made s.held s.observed h e))
          (refl, tt),
    )
    by_lock none e false = h

release-IsSingle : (i : ℕ) (s : Store) → IsSingle s → IsSingle (release i s)
unfolding release
release-IsSingle i s h = erased s.observed h
  where
    erased : (o : Option ℕ) → Observed s.made s.held o → Observed s.made (erase i s.held) o
    erased none k = ap (erase i) k
    erased (some o) k = (k.0, Only-erase o i s.held k.1)

run-IsSingle : (l : List Action) (s : Store) → IsSingle s → IsSingle (run l s)
unfolding run step
run-IsSingle [] s h = h
run-IsSingle (access b ∷ l) s h = run-IsSingle l (global b s).1 (global-IsSingle b s h)
run-IsSingle (let_go i ∷ l) s h = run-IsSingle l (release i s) (release-IsSingle i s h)

-- However the function was called and the pointers were let go, any two pointers held are to the same
-- object.
pub run-same_object :
    (l : List Action) (i j p q : ℕ)
    → get_elem? (run l initial).held i ≡ some p
    → get_elem? (run l initial).held j ≡ some q
    → p ≡ q
run-same_object l i j p q e f =
    some-injective _ _ (
      sym (lock-held s.made s.held s.observed i p h e) ∙ lock-held s.made s.held s.observed j q h f)
  where
    s : Store
    s = run l initial

    h : IsSingle s
    h = run-IsSingle l initial refl

-- However the function was called and the pointers were let go, a call gives another pointer to the
-- object whose pointer is held, and constructs nothing; when none is held it constructs a new object and
-- gives a pointer to it, or throws, if the constructor does, and changes nothing.
pub global-after_run :
    (l : List Action)
    → ((i p : ℕ) (b : Bool)
        → get_elem? (run l initial).held i ≡ some p
        → global b (run l initial) ≡ (some p, hold p (run l initial)))
      × ((run l initial).held ≡ []
          → (global true (run l initial) ≡ (
            some (run l initial).made,
            record {
              made = (run l initial).made + 1;
              observed = some (run l initial).made;
              held = (run l initial).made ∷ [];
            },
          ))
            × (global false (run l initial) ≡ (none, run l initial)))
unfolding global
global-after_run l = (
  λ i p b e. ap (get b s) (lock-held s.made s.held s.observed i p (run-IsSingle l initial refl) e),
  λ e. (ap (get true s) (unlocked e) ∙ ap constructed e, ap (get false s) (unlocked e)),
)
  where
    s : Store
    s = run l initial

    unlocked : s.held ≡ [] → lock s.observed s.held ≡ none
    unlocked e = ap (lock s.observed) e ∙ lock_empty s.observed

    constructed : List ℕ → Option ℕ × Store
    constructed h = (
      some s.made,
      record { made = s.made + 1; observed = some s.made; held = h ++ (s.made ∷ []) },
    )
