-- ===== src/Log/Lines.antt =====
-- The lines of the default formatter of src/log.cpp.
use cxx_util.Prelude.{
  ℕ, ◌≡◌, refl, sym, ◌∙◌, arith, Bool, true, false, false≢true, List, [], ◌∷◌, ◌++◌, length, ltb,
  if◌then◌else◌,
}
use cxx_util.Version.{less}
use cxx_util.TimeStamp.{fresh, put_clock}
use cxx_util.TimeStamp.Order.{fields, IsInRange, clock_texts_ordered, length-put_clock}
use cxx_util.Log.{Record, default_formatter, rest_of_line}

-- Texts of the same length that differ stay in their order when they go on.
less-append :
    (xs ys : List ℕ) (us vs : List ℕ)
    → length xs ≡ length ys
    → less ltb xs ys ≡ true
    → less ltb (xs ++ us) (ys ++ vs) ≡ true
unfolding less
less-append [] [] us vs h e = absurd (false≢true e)
less-append [] (y ∷ ys) us vs h e = absurd (omega arith)
less-append (x ∷ xs) [] us vs h e = absurd (omega arith)
less-append (x ∷ xs) (y ∷ ys) us vs h e =
    by_order (ltb x y) (ltb y x) e (less-append xs ys us vs (omega arith))
  where
    by_order :
        (b d : Bool)
        → (if b then true else if d then false else less ltb xs ys) ≡ true
        → (less ltb xs ys ≡ true → less ltb (xs ++ us) (ys ++ vs) ≡ true)
        → (if b then true else if d then false else less ltb (xs ++ us) (ys ++ vs)) ≡ true
    by_order true d q ih = refl
    by_order false true q ih = q
    by_order false false q ih = ih q

-- The line of a record with an earlier time stamp comes first in the order of strings, whatever the
-- records' other attributes and messages, when the time stamps' fields have at most 4, 2, 2, 2, 2, 2 and 6
-- digits.
pub lines_ordered :
    (r q : Record)
    → IsInRange r.time_stamp
    → IsInRange q.time_stamp
    → less ltb (fields r.time_stamp) (fields q.time_stamp) ≡ true
    → less ltb (default_formatter r) (default_formatter q) ≡ true
unfolding default_formatter less
lines_ordered r q hr hq e =
    less-append (put_clock r.time_stamp fresh).text (put_clock q.time_stamp fresh).text
      (b']' ∷ rest_of_line r) (b']' ∷ rest_of_line q)
      (length-put_clock r.time_stamp hr ∙ sym (length-put_clock q.time_stamp hq))
      (clock_texts_ordered r.time_stamp q.time_stamp hr hq ∙ e)
