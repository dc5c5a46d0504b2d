-- ===== src/ProgramPath/Tests.antt =====
-- A name of two characters, for which the buffer grows twice.
use cxx_util.Prelude.{
  ℕ, ◌≤◌, ◌≡◌, refl, arith, false, List, [], ◌∷◌, Option, some, length, take, ltb, lt→ltb,
  if◌then◌else◌,
}
use cxx_util.ProgramPath.{k_max_buf_size, returned, threw, of_canonical, loop, program_path}
use cxx_util.ProgramPath.Loop.{program_path_lem}

abbrev name : List ℕ
name = b'c' ∷ b':' ∷ []

-- With a terminating zero if there is room.
abbrev module_file_name : ℕ → List ℕ × ℕ
module_file_name size =
    if ltb (length name) size then (b'c' ∷ b':' ∷ 0 ∷ [], length name) else (take size name, size)

abbrev canonical : List ℕ → Option (List ℕ)
canonical p = some p

path_returned : program_path module_file_name canonical ≡ returned name
unfolding program_path loop
path_returned = refl

program_path_lem_example :
    program_path module_file_name canonical
    ≡ (if ltb (length name) k_max_buf_size then of_canonical (canonical name) else threw)
program_path_lem_example =
    program_path_lem module_file_name canonical name
      (λ size h. rw (lt→ltb (length name) size h) (refl, refl))
      (λ size h. rw (too_small size h) refl)
  where
    too_small : (size : ℕ) → size ≤ length name → ltb (length name) size ≡ false
    too_small size h = ground arith
