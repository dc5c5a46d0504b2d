-- ===== src/ProgramPath.antt =====
-- `programPath` of src/programpath.cpp as it is on Windows. `GetModuleFileName`, which gives the buffer
-- for its size and a count, and `fs::canonical` are parameters. The loop is on fuel, a unit for each call.
mod Loop
mod Tests
use cxx_util.Prelude.{ℕ, zero, suc, ◌*◌, List, Option, none, some, take, ltb, ◌==◌, if◌then◌else◌}

abbrev pub k_max_buf_size : ℕ
k_max_buf_size = 65536

pub data Result : Type 0 where
  returned : List ℕ → Result
  threw : Result
  out_of_fuel : Result

abbrev pub of_canonical : Option (List ℕ) → Result
of_canonical none = threw
of_canonical (some p) = returned p

module _ (get_module_file_name : ℕ → List ℕ × ℕ) (canonical : List ℕ → Option (List ℕ)) where
  unfoldable pub loop : ℕ → ℕ → Result
  loop zero size = out_of_fuel
  loop (suc fuel) size =
      let rest = loop fuel (2 * size) in
      if size == (get_module_file_name size).1
      then if ltb k_max_buf_size (2 * size) then threw else rest
      else of_canonical
          (canonical (take (get_module_file_name size).1 (get_module_file_name size).0))

  unfoldable pub program_path : Result
  program_path = loop 17 1
