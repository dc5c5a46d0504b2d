-- ===== src/ProgramPath/Loop.antt =====
-- The loop of `programPath` of src/programpath.cpp, on Windows.
use cxx_util.Prelude.{
  ℕ, zero, suc, ◌*◌, ◌≤◌, ◌<◌, ◌≡◌, refl, ap, ◌∙◌, arith, true, false, Bool-cases, List, Option,
  inl, inr, length, take, ltb, lt→ltb, ◌==◌, ==_iff, if◌then◌else◌,
}
use cxx_util.ProgramPath.{k_max_buf_size, Result, threw, of_canonical, loop, program_path}

abbrev doubled : ℕ → ℕ → ℕ
doubled zero size = size
doubled (suc n) size = doubled n (2 * size)

doubled_le : (n size : ℕ) → size ≤ doubled n size
doubled_le zero size = omega arith
doubled_le (suc n) size = omega (arith, doubled_le n (2 * size))

module _ (get_module_file_name : ℕ → List ℕ × ℕ) (canonical : List ℕ → Option (List ℕ))
    (name : List ℕ)
    (fits : (size : ℕ)
      → length name < size
      → (take (length name) (get_module_file_name size).0 ≡ name)
        × ((get_module_file_name size).1 ≡ length name))
    (truncates : (size : ℕ) → size ≤ length name → (get_module_file_name size).1 ≡ size) where
  abbrev full : Result
  full = if ltb (length name) k_max_buf_size then of_canonical (canonical name) else threw

  loop_fits :
      (fuel size : ℕ)
      → length name < size
      → size ≤ k_max_buf_size
      → loop get_module_file_name canonical (suc fuel) size ≡ full
  unfolding loop
  loop_fits fuel size h k =
      rw (differs, lt→ltb (length name) k_max_buf_size (omega arith), (fits size h).1)
        (ap (λ p. of_canonical (canonical p)) (fits size h).0)
    where
      differs : (size == (get_module_file_name size).1) ≡ false
      differs = rw ((fits size h).1) (ground arith)

  loop_truncates :
      (fuel size : ℕ)
      → size ≤ length name
      → loop get_module_file_name canonical (suc fuel) size ≡ (
          if ltb k_max_buf_size (2 * size)
          then threw
          else loop get_module_file_name canonical fuel (2 * size))
  unfolding loop
  loop_truncates fuel size h = rw (same) refl
    where
      same : (size == (get_module_file_name size).1) ≡ true
      same = rw (truncates size h) ((==_iff size size).1 refl)

  loop_lem :
      (fuel size : ℕ)
      → doubled (suc fuel) size ≡ 2 * k_max_buf_size
      → loop get_module_file_name canonical (suc fuel) size ≡ full
  loop_lem zero size h = elim (Bool-cases (ltb (length name) size)) [
    | inl e ↦ loop_fits zero size (ground arith) (omega arith)
    | inr e ↦ loop_truncates zero size (ground arith) ∙ too_long (ltb-≥ (length name) size e)
  ]
    where
      ltb-≥ : (a b : ℕ) → ltb a b ≡ false → b ≤ a
      ltb-≥ a b q = ground arith

      too_long :
          size ≤ length name
          → (if ltb k_max_buf_size (2 * size)
              then threw
              else loop get_module_file_name canonical zero (2 * size))
            ≡ full
      too_long u = rw (lt→ltb k_max_buf_size (2 * size) (omega arith), not_below) refl
        where
          not_below : ltb (length name) k_max_buf_size ≡ false
          not_below = ground arith
  loop_lem (suc fuel) size h = elim (Bool-cases (ltb (length name) size)) [
    | inl e ↦
        loop_fits (suc fuel) size (ground arith) (omega (arith, doubled_le fuel (2 * (2 * size))))
    | inr e ↦
        loop_truncates (suc fuel) size (ground arith)
        ∙ rw (below (omega (arith, doubled_le fuel (2 * (2 * size))))) (loop_lem fuel (2 * size) h)
  ]
    where
      below : 2 * size ≤ k_max_buf_size → ltb k_max_buf_size (2 * size) ≡ false
      below u = ground arith

  -- With a `GetModuleFileName` that gives the name and its length when the buffer is larger than it, and
  -- otherwise the size of the buffer, the result is the canonical path of the name if the name is shorter
  -- than `kMaxBufSize`, and otherwise an error, within the 17 calls of the fuel.
  pub program_path_lem :
      program_path get_module_file_name canonical
      ≡ (if ltb (length name) k_max_buf_size then of_canonical (canonical name) else threw)
  unfolding program_path
  program_path_lem = loop_lem 16 1 refl
