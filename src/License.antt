-- ===== src/License.antt =====
-- license/license_checker.cpp: what `LicenseChecker` asks of the files, of the clock and of the
-- program `lic`. `CONFIG` and `PARSER::instance()->options()` are the parameter `o`.
pub mod Dates
pub mod Frames
pub mod Verdicts
use license_checker.Config.{Options}
use license_checker.Platform.{Platform, DirEntry, World}
use license_checker.Prelude.{
  ℕ, suc, ℤ, pos, negsuc, ltb_ℤ, leb_ℤ, pos_part, neg_part, negate, Text, codes, c_str, text_eq,
  is_empty, is_digit, is_space, skip_spaces, read_digits, take_before, last?, drop_last, length,
  get_elem?, ltb, leb, ◌==◌, ◌+◌, ◌++◌, Bool, true, false, not, ◌&&◌, Option, none, some, List, [],
  ◌∷◌, Outcome, ok, throws, fault, runtime_error, Action, pure, throw, undefined, deref, gets, lift,
  ◌>>=◌, ◌>>◌, if◌then◌else◌, to_string,
}
use license_checker.Tools.{split_file_path}

-- `lic::constants`
abbrev pub uid_size : ℕ
uid_size = 58

abbrev pub check_days : ℕ
check_days = 5

-- `BUFSIZ` of glibc
abbrev pub bufsiz : ℕ
bufsiz = 8192

pub record Date : Type 0 where
  pub day : ℤ
  pub month : ℤ
  pub year : ℤ

-- `ACE_Date_Time(0)`
abbrev pub no_date : Date
no_date = record { day = pos 0; month = pos 0; year = pos 0 }

-- The loop of `find_file` goes through the whole directory; directories are passed over.
unfoldable pub find_in : Text → List DirEntry → Bool
find_in name [] = false
find_in name (e ∷ entries) =
    let found = not e.is_directory && text_eq e.leaf name in
    if found then true else find_in name entries

unfoldable pub find_file : Outcome (Option (List DirEntry)) → Text → Outcome Bool
unfolding find_in
find_file (ok none) name = ok false
find_file (ok (some entries)) name = ok (find_in name entries)
find_file (throws e) name = throws e
find_file fault name = fault

-- What `std::getline` reads piece by piece up to each `x`.
push_front : ℕ → List Text → List Text
push_front c [] = (c ∷ []) ∷ []
push_front c (piece ∷ pieces) = (c ∷ piece) ∷ pieces

unfoldable pub getlines : ℕ → Text → List Text
unfolding push_front
getlines x [] = []
getlines x (c ∷ s) = let rest = getlines x s in if c == x then [] ∷ rest else push_front c rest

-- `%d` of `sscanf`, and what follows it; `none` where nothing is converted
scan_digits : Text → Option (ℕ × Text)
scan_digits [] = none
scan_digits (c ∷ s) = if is_digit c then some (read_digits 0 (c ∷ s)) else none

scan_after_sign : Text → Option (ℤ × Text)
scan_after_sign [] = none
scan_after_sign (c ∷ s) =
    if c == b'-'
    then elim (scan_digits s) [ none ↦ none | some r ↦ some (negate r.0, r.1) ]
    else elim (scan_digits (if c == b'+' then s else c ∷ s)) [
      | none ↦ none
      | some r ↦ some (pos r.0, r.1)
    ]

unfoldable pub scan_int : Text → Option (ℤ × Text)
unfolding scan_digits scan_after_sign skip_spaces read_digits
scan_int s = scan_after_sign (skip_spaces s)

expect_dash : Text → Option Text
expect_dash [] = none
expect_dash (c ∷ s) = if c == b'-' then some s else none

infixl 5 ◌then◌
abbrev ◌then◌ {ℓ κ} : {A : Type ℓ} {B : Type κ} → Option A → (A → Option B) → Option B
none then f = none
(some a) then f = f a

-- `sscanf(s, "%d-%d-%d", &year, &month, &day)`. Where it converts fewer than three numbers the
-- variables that are left stay uninitialised, and reading them is undefined.
unfoldable pub scan_date : Text → Option Date
unfolding scan_int expect_dash
scan_date s = scan_int s then λ y. expect_dash y.1 then λ s1. scan_int s1 then λ m.
    expect_dash m.1 then λ s2.
    scan_int s2 then λ d. some (record { day = d.0; month = m.0; year = y.0 })

-- the first run of characters that are not white space, as `file >> license` reads it
until_space : Text → Text
until_space [] = []
until_space (c ∷ s) = let rest = until_space s in if is_space c then [] else c ∷ rest

abbrev ends_with : ℕ → Text → Bool
ends_with x line = elim (last? line) [ none ↦ false | some c ↦ c == x ]

-- what is written: the license without one NUL at its end
unfoldable pub strip_nul : Text → Text
strip_nul license = if ends_with 0 license then drop_last license else license

-- whether the file is open, which is whether it is written
save_result : {D : Type 0} → Option D → Action (World D) Bool
save_result none w = (ok false, w)
save_result (some d) w = (ok true, record w { disk = d })

module _ {D J : Type 0} (os : Platform D J) (o : Options) where
  -- `run_proc`: the first line that the command prints
  unfoldable pub run_proc : Text → Action (World D) Text
  run_proc command w =
      let (out, d) = os.exec w.disk command in
      (lift out >>= λ text. pure (take_before b'\n' text)) (record w { disk = d })

  unfoldable pub is_license_file : Action (World D) Bool
  unfolding find_file
  is_license_file w =
      (find_file (os.listing w.disk (split_file_path (c_str o.lic_file))) o.lic_file_name, w)

  -- `ACE_OS::sprintf` into a buffer of `bufsiz` characters, the last of them for the NUL
  unfoldable pub make_verify_license_cmd : Outcome Text
  make_verify_license_cmd =
      let cmd =
        c_str o.lic_app
        ++ (codes " -v --uid-file "
            ++ (c_str o.uid_file_name
                ++ (codes " --lic-file "
                    ++ (c_str o.lic_file ++ (codes " --prod " ++ c_str o.prod))))) in
      if ltb (length cmd) bufsiz then ok cmd else fault

  -- `code.compare("SUCCESS")` is 0, which is false, where the two are equal.
  unfoldable pub read_verdict : Text → Text → Action (World D) Bool
  read_verdict cmd line =
      let code = take_before b':' line in
      if is_empty line
      then throw (runtime_error (cmd ++ codes " of output is empty"))
      else if text_eq code (codes "ERROR")
      then pure false
      else if not (text_eq code (codes "SUCCESS"))
      then pure true
      else throw (runtime_error (cmd ++ codes " returned invalid responce"))

  unfoldable pub verify_license : Action (World D) Bool
  verify_license = do cmd ← lift make_verify_license_cmd; line ← run_proc cmd; read_verdict cmd line

  unfoldable pub make_machine_uid_cmd : Text
  make_machine_uid_cmd = o.lic_app ++ (b' ' ∷ (o.make_uid_cmd ++ (b' ' ∷ o.prod)))

  unfoldable pub check_uid : Text → Action (World D) Text
  check_uid line =
      if is_empty line
      then throw (runtime_error (codes "does not make file by lic"))
      else (let uid = if ends_with 0x0D line then drop_last line else line in
          if not (length uid == uid_size)
          then throw (runtime_error (codes "size of UID isn't valid: " ++ to_string (length uid)))
          else pure uid)

  unfoldable pub generate_machine_uid : Action (World D) Text
  generate_machine_uid = do line ← run_proc make_machine_uid_cmd; check_uid line

  unfoldable pub save_license_to_file : Text → Action (World D) Bool
  unfolding save_result strip_nul
  save_license_to_file license w =
      save_result (os.write_file w.disk o.lic_file (strip_nul license)) w

  unfoldable pub read_license_from_file : Text → D → Text
  unfolding until_space skip_spaces
  read_license_from_file name d = elim (os.read_file d name) [
    | none ↦ []
    | some content ↦ until_space (skip_spaces content)
  ]

  -- `splitted[2]` of a license with fewer than three pieces is out of range.
  unfoldable pub date_of_piece : Option Text → Outcome Date
  date_of_piece none = fault
  date_of_piece (some []) = ok no_date
  date_of_piece (some (c ∷ s)) = elim (os.from_base64 (c ∷ s)) [
    | throws e ↦ throws e
    | fault ↦ fault
    | ok str ↦ elim (scan_date (c_str str)) [ none ↦ fault | some date ↦ ok date ]
  ]

  unfoldable pub extract_license_date : Text → Outcome Date
  unfolding date_of_piece
  extract_license_date lic = date_of_piece (get_elem? (getlines b'.' lic) 2)

  unfoldable pub current_license_date : Action (World D) Date
  current_license_date w = (extract_license_date (read_license_from_file o.lic_file w.disk), w)

  unfoldable pub is_license_update_day : Action (World D) Bool
  is_license_update_day w =
      let day = os.day w.disk in
      (
        ok (
            leb_ℤ o.day_license_update (pos day)
            && leb (day + neg_part o.day_license_update)
                (pos_part o.day_license_update + check_days)),
        w,
      )

  unfoldable pub is_license_check_day : Action (World D) Bool
  is_license_check_day w =
      let day = os.day w.disk in
      (ok (pos_part o.day_license_check == day && neg_part o.day_license_check == 0), w)

  unfoldable pub is_check_licenses_months : ℤ → Action (World D) Bool
  is_check_licenses_months next_month = do
    date ← current_license_date
    pure (ltb_ℤ date.month next_month)
