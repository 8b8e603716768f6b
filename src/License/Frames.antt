-- ===== src/License/Frames.antt =====
-- license/license_checker.cpp: what the calls of `LicenseChecker` leave alone.
use license_checker.Config.{Options}
use license_checker.Platform.{Platform, World}
use license_checker.Prelude.Frames.{Leaves, Leaves-same, Leaves-bind}
use license_checker.Prelude.{
  Text, Outcome, ok, throws, fault, ◌>>=◌, ◌≡◌, refl, ap, ◌∙◌, lift, pure, none, some, arith, ℤ,
  Option,
}
use license_checker.License.{
  run_proc, is_license_file, verify_license, make_verify_license_cmd, read_verdict,
  generate_machine_uid, check_uid, save_license_to_file, save_result, strip_nul,
  current_license_date, is_check_licenses_months, is_license_update_day, is_license_check_day,
}

-- A part of the world that is no part of the machine, or that running a command does not change.
module _ {D J X : Type 0} (os : Platform D J) (o : Options) (f : World D → X) where
  abbrev pub IsKeptByExec : Type 0
  IsKeptByExec = (cmd : Text) (w : World D) → f (record w { disk = (os.exec w.disk cmd).1 }) ≡ f w

  lift-state :
      {A B : Type 0} (r : Outcome A) (g : A → B) (w : World D)
      → ((lift r >>= λ a. pure (g a)) w).1 ≡ w
  lift-state (ok a) g w = refl
  lift-state (throws e) g w = refl
  lift-state fault g w = refl

  module _ (kept : IsKeptByExec) where
    pub run_proc-Leaves : (cmd : Text) → Leaves f (run_proc os o cmd)
    unfolding run_proc
    run_proc-Leaves cmd = record {
      at = λ w.
          let (out, d) = os.exec w.disk cmd in
          ap f (lift-state out _ (record w { disk = d })) ∙ kept cmd w;
    }

    lift-Leaves : {A : Type 0} (r : Outcome A) → Leaves f (lift r)
    lift-Leaves r = Leaves-same _ (λ w. refl)

    pub generate_machine_uid-Leaves : Leaves f (generate_machine_uid os o)
    unfolding generate_machine_uid
    generate_machine_uid-Leaves =
        Leaves-bind _ _ (run_proc-Leaves _) (λ line. Leaves-same _ (check_uid_state line))
      where
        check_uid_state : (line : Text) (w : World D) → (check_uid os o line w).1 ≡ w
        check_uid_state line w = unfold check_uid in ground arith

    pub verify_license-Leaves : Leaves f (verify_license os o)
    unfolding verify_license
    verify_license-Leaves =
        Leaves-bind _ _ (lift-Leaves (make_verify_license_cmd os o)) λ cmd.
          Leaves-bind _ _ (run_proc-Leaves cmd) λ line. Leaves-same _ (verdict_state cmd line)
      where
        verdict_state : (cmd line : Text) (w : World D) → (read_verdict os o cmd line w).1 ≡ w
        verdict_state cmd line w = unfold read_verdict in ground arith

  pub is_license_file-Leaves : Leaves f (is_license_file os o)
  unfolding is_license_file
  is_license_file-Leaves = Leaves-same _ (λ w. refl)

  pub is_license_update_day-Leaves : Leaves f (is_license_update_day os o)
  unfolding is_license_update_day
  is_license_update_day-Leaves = Leaves-same _ (λ w. refl)

  pub is_license_check_day-Leaves : Leaves f (is_license_check_day os o)
  unfolding is_license_check_day
  is_license_check_day-Leaves = Leaves-same _ (λ w. refl)

  pub is_check_licenses_months-Leaves : (m : ℤ) → Leaves f (is_check_licenses_months os o m)
  unfolding is_check_licenses_months current_license_date
  is_check_licenses_months-Leaves m =
      Leaves-same _ (λ w. lift-state (current_license_date os o w).0 _ w)

-- A part of the world that is no part of the machine.
module _ {D J X : Type 0} (os : Platform D J) (o : Options) (f : World D → X)
    (apart : (w : World D) (d : D) → f (record w { disk = d }) ≡ f w) where
  save_result_apart : (written : Option D) (w : World D) → f (save_result written w).1 ≡ f w
  unfolding save_result
  save_result_apart none w = refl
  save_result_apart (some d) w = apart w d

  pub save_license_to_file-Leaves : (text : Text) → Leaves f (save_license_to_file os o text)
  unfolding save_license_to_file
  save_license_to_file-Leaves text = record {
    at = λ w. save_result_apart (os.write_file w.disk o.lic_file (strip_nul text)) w;
  }
