-- ===== src/Variant/Tests.antt =====
-- Variants of the types 0 and 1.
use cxx_util.Prelude.{◌≡◌, refl, true, false, [], ◌∷◌, none, some}
use cxx_util.Fold.{any}
use cxx_util.Variant.{Variant, Lifetimes, construct, get, swap, move_construct}
use cxx_util.Variant.Swap.{holding, swap-holding, move_construct-holding}

abbrev none_yet : Lifetimes
none_yet = record { constructed = 0; destroyed = 0 }

-- Only a value of a bounded type makes a variant.
unbounded : construct 0 (1 ∷ []) 2 7 none_yet ≡ none
unfolding construct any
unbounded = refl

-- What a swap leaves in the first variant is its second type's object.
swapped : get 1 (holding 1 9) ≡ some (record { type_of = 1; value = 9; moved_from = false })
unfolding get
swapped = refl

swap-holding_example :
    swap false (0 ∷ 1 ∷ []) (holding 0 7) (holding 1 9) none_yet
    ≡ some (holding 1 9, holding 0 7, record { constructed = 3; destroyed = 1 })
unfolding any
swap-holding_example = swap-holding false 0 (1 ∷ []) 0 1 7 9 none_yet refl refl

move_construct-holding_example :
    ((other : Variant) → move_construct false (0 ∷ 1 ∷ []) other none_yet ≡ none)
    × (move_construct true (0 ∷ 1 ∷ []) (holding 1 9) none_yet
        ≡ some (
          holding 1 9,
          record {
            m_dtor = none;
            m_data = some (record { type_of = 1; value = 9; moved_from = true });
          },
          record { constructed = 1; destroyed = 0 },
        ))
unfolding any
move_construct-holding_example = move_construct-holding 0 (1 ∷ []) 1 9 none_yet refl
