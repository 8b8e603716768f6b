-- ===== src/Tools/Windows.antt =====
-- tools/tools.cpp, as built for Windows, with a text as its wide characters.
pub mod Processes
use license_checker.Prelude.{
  ℕ, suc, Text, length, take, drop, find_last, c_str, text_eq, ltb, Bool, true, false, Option, none,
  some, List, [], ◌∷◌, ◌++◌, Outcome, ok, fault, if◌then◌else◌,
}

-- `find_last_of` gives `npos` where there is no backslash, and `substr(0, npos)` takes everything.
unfoldable pub current_module_path : Text → Text
current_module_path module_path =
    let path : Text = elim (find_last b'\\' module_path) [
      | none ↦ module_path
      | some i ↦ take i module_path
    ] in
    path ++ b'\\' ∷ []

unfoldable pub split_file_name : Text → Text
split_file_name buffer = elim (find_last b'\\' buffer) [
  | none ↦ buffer
  | some i ↦ drop (suc i) buffer
]

unfoldable pub split_file_path : Text → Text
split_file_path buffer = elim (find_last b'\\' buffer) [
  | none ↦ b'.' ∷ []
  | some i ↦ take (suc i) buffer
]

-- `PROCESSENTRY32`
pub record ProcessEntry : Type 0 where
  pub exe_file : Text
  pub process_id : ℕ

-- What Windows does, on machines `D`: the entries of a snapshot, whether `OpenProcess` gives a handle
-- that may terminate the process, and `TerminateProcess`.
pub record Windows (D : Type 0) : Type 0 where
  pub snapshot : D → List ProcessEntry
  pub opens : D → ℕ → Bool
  pub terminate : D → ℕ → D

module _ {D : Type 0} (os : Windows D) where
  -- the body of the loop, with `result`
  visit : Text → ProcessEntry → Bool → D → Bool × D
  visit name e result d =
      if text_eq (c_str e.exe_file) name
      then if os.opens d e.process_id then (true, os.terminate d e.process_id) else (result, d)
      else (result, d)

  walk : Text → List ProcessEntry → Bool × D → Bool × D
  unfolding visit
  walk name [] (result, d) = (result, d)
  walk name (e ∷ entries) (result, d) = walk name entries (visit name e result d)

  -- `wcscpy_s` ends the process where the name and its NUL do not fit into `szPath`.
  unfoldable pub terminate_process : Text → D → Outcome (Bool × D)
  unfolding walk
  terminate_process name d =
      let done = walk (c_str name) (os.snapshot d) (false, d) in
      if ltb 19 (length (c_str name)) then fault else ok done
