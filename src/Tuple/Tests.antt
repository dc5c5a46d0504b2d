-- ===== src/Tuple/Tests.antt =====
-- Five indices.
use cxx_util.Prelude.{◌≡◌, refl, [], ◌∷◌, some}
use cxx_util.Tuple.{make_index_sequence}

five : make_index_sequence 6 5 ≡ some (0 ∷ 1 ∷ 2 ∷ 3 ∷ 4 ∷ [])
unfolding make_index_sequence
five = refl
