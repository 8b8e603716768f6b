-- ===== src/Tasks/GetLicense/Saving.antt =====
-- get_license_task/get_license_task.cpp: when the license file is written, and with what.
use license_checker.Client.{
  HostLicense, HostStatus, LicenseResult, Extractor, mime_types_code, status_active,
  status_suspended, processing_license,
}
use license_checker.Config.{Options}
use license_checker.License.Frames.{
  IsKeptByExec, is_license_file-Leaves, is_check_licenses_months-Leaves,
  is_license_update_day-Leaves,
}
use license_checker.License.{Date, is_license_file, is_check_licenses_months, current_license_date}
use license_checker.Platform.{Platform, World}
use license_checker.Prelude.Frames.{
  Leaves, Leaves-same, Leaves-then, Leaves-if, Leaves-catch, Keeps-bind,
}
use license_checker.Prelude.{
  ℤ, pos, Text, is_empty, Bool, true, false, Bool-cases, Option, none, some, Outcome, ok, throws,
  fault, Exception, process_error, runtime_error, http_exception, json_exception, uri_exception,
  invalid_argument, Action, pure, continue, ap, ◌>>=◌, ltb_ℤ, ◌≡◌, ◌⊎◌, inl, inr, refl,
}
use license_checker.Tasks.GetLicense.{
  eq_ℤ, wait_next_day, write_if_newer, keep_license, take_license, by_status, request_license,
  attempt_license, on_exception, try_block, svc,
}
use license_checker.Tasks.Saving.{
  saved, IsReadBack, IsReceived, Stores, write_license-Stores, received_then,
}

module _ {D J : Type 0} (os : Platform D J) (o : Options) (path : Text) (mins waiting : ℤ) where
  -- With the file as `old`: it was not in its directory, or its license is of an earlier month of
  -- the year than `h`.
  abbrev pub IsNewer : Option Text → HostLicense → Type 0
  IsNewer old h =
      ((w : World D) × (saved os path w ≡ old) × ((is_license_file os o w).0 ≡ ok false))
      ⊎ ((w : World D) × (date : Date) × (saved os path w ≡ old)
          × ((current_license_date os o w).0 ≡ ok date)
          × (ltb_ℤ date.month h.month ≡ true))

  months-eq_true :
      (m : ℤ) (r : Outcome Date) (w v : World D)
      → continue (λ date. pure (ltb_ℤ date.month m)) r w ≡ (ok true, v)
      → (date : Date) × (r ≡ ok date) × (ltb_ℤ date.month m ≡ true)
  months-eq_true m (ok date) w v e = (date, refl, cc)
  months-eq_true m (throws x) w v e = cc
  months-eq_true m fault w v e = cc

  newer_months :
      (m : ℤ) (w v : World D)
      → is_check_licenses_months os o m w ≡ (ok true, v)
      → (date : Date) × ((current_license_date os o w).0 ≡ ok date) × (ltb_ℤ date.month m ≡ true)
  unfolding is_check_licenses_months
  newer_months m w v = let (r, u) = current_license_date os o w in months-eq_true m r u v

  module _ (read-write : IsReadBack os path) (kept : IsKeptByExec os o (saved os path))
      (old : Option Text) where
    abbrev Keeps : Action (World D) (Unit {0}) → World D → Type 0
    Keeps m w = Stores os o path (IsNewer old) old (saved os path (m w).1)

    write_if_newer-Keeps :
        (h : HostLicense) (b : Bool)
        → IsReceived os o h
        → (b ≡ true → IsNewer old h)
        → (w : World D) → saved os path w ≡ old
        → Keeps (write_if_newer os o mins waiting h b >>= λ _. wait_next_day os o mins waiting) w
    unfolding write_if_newer
    write_if_newer-Keeps h false received new w e = inl e
    write_if_newer-Keeps h true received new w e =
        Leaves-then {f = saved os path} (Stores os o path (IsNewer old) old)
          (write_if_newer os o mins waiting h true) _ w (λ _. record { at = λ v. refl })
          (write_license-Stores os o path read-write (IsNewer old) old h received (new refl) _
            (λ n. Leaves-same _ (λ v. refl)) w e)

    keep_license-Keeps :
        (h : HostLicense) (b : Bool)
        → IsReceived os o h
        → (w v : World D) → saved os path v ≡ old
        → is_license_file os o v ≡ (ok b, w)
        → saved os path w ≡ old
        → Keeps (keep_license os o mins waiting h b) w
    unfolding keep_license
    keep_license-Keeps h false received w v ev absent_file e =
        write_license-Stores os o path read-write (IsNewer old) old h received
          (inl (v, ev, ap (λ x. x.0) absent_file)) _ (λ n. record { at = λ v. refl }) w e
    keep_license-Keeps h true received w v ev present e = elim (Bool-cases (eq_ℤ h.month (pos 0))) [
      | inl zero_month ↦ rw zero_month (inl e)
      | inr month ↦ rw month (
          Keeps-bind (Stores os o path (IsNewer old) old) old
            (is_check_licenses_months os o h.month) _ w
            (is_check_licenses_months-Leaves os o (saved os path) h.month) e (inl refl)
            λ b u eu checked.
              write_if_newer-Keeps h b received
                (λ yes_b.
                  let (date, now, later) = newer_months h.month w u (rw yes_b at checked) in
                  inr (w, date, e, now, later))
                u eu)
    ]

    take_license-Keeps :
        (h : Option HostLicense) (w : World D)
        → ((l : HostLicense) → h ≡ some l → is_empty l.license ≡ false → IsReceived os o l)
        → saved os path w ≡ old
        → Keeps (take_license os o mins waiting h) w
    unfolding take_license
    take_license-Keeps none w received e = inl e
    take_license-Keeps (some h) w received e = elim (Bool-cases (is_empty h.license)) [
      | inl bare ↦ rw bare (inl e)
      | inr given ↦ rw given (
          Keeps-bind (Stores os o path (IsNewer old) old) old (is_license_file os o) _ w
            (is_license_file-Leaves os o (saved os path)) e (inl refl)
            λ b u eu present. keep_license-Keeps h b (received h refl given) u w e present eu)
    ]

    by_status-Keeps :
        (r : LicenseResult) (s : HostStatus) (w : World D)
        → saved os path w ≡ old
        → r.host_status ≡ some s
        → ((x : Extractor) × (v : World D) × (processing_license os x v ≡ (ok r, v)))
        → Keeps (by_status os o mins waiting r s) w
    unfolding by_status
    by_status-Keeps r s w e status (x, v, answer) = elim (Bool-cases (eq_ℤ s.id status_active)) [
      | inl active ↦ rw active (
          take_license-Keeps r.host_license w
            (λ l has_license given. record {
              extractor = x;
              seen = v;
              result = r;
              status = s;
              answered = answer;
              has_status = status;
              is_active = active;
              has_license = has_license;
              is_given = given;
            })
            e)
      | inr other ↦ rw other (elim (Bool-cases (eq_ℤ s.id status_suspended)) [
        | inl suspended ↦ rw suspended (inl e)
        | inr unknown ↦ rw unknown (inl e)
      ])
    ]

    attempt_license-Keeps :
        (b : Bool) (w : World D)
        → saved os path w ≡ old
        → Keeps (attempt_license os o mins waiting b) w
    unfolding attempt_license request_license
    attempt_license-Keeps true w e =
        received_then os o path kept (IsNewer old) old 1 _
          (λ r s v ev status answer. by_status-Keeps r s _ ev status answer) w e
    attempt_license-Keeps false w e = inl e

    on_exception-Leaves :
        (x : Exception) → Leaves (saved os path) (on_exception os o mins waiting x)
    unfolding on_exception
    on_exception-Leaves (process_error what) = record { at = λ w. refl }
    on_exception-Leaves (runtime_error what) = record { at = λ w. refl }
    on_exception-Leaves (json_exception what) = record { at = λ w. refl }
    on_exception-Leaves (uri_exception what) = record { at = λ w. refl }
    on_exception-Leaves (invalid_argument what) = record { at = λ w. refl }
    on_exception-Leaves (http_exception code what) =
        Leaves-if (eq_ℤ code mime_types_code) _ _ (record { at = λ w. refl })
          (record { at = λ w. refl })

    -- If commands leave a file alone and what is written is what is read, then one run of the task
    -- leaves the file as it was, or it is the license file and holds the license of an answer of the
    -- server that said that the host is active. That license is not empty, and before it the file
    -- was not in its directory or held a license of an earlier month of the year.
    pub svc-Stores :
        (w : World D)
        → saved os path w ≡ old
        → Stores os o path (IsNewer old) old (saved os path (svc os o mins waiting w).1)
    unfolding svc try_block
    svc-Stores w e =
        Leaves-catch (Stores os o path (IsNewer old) old) (try_block os o mins waiting)
          (on_exception os o mins waiting) w on_exception-Leaves
          (Keeps-bind (Stores os o path (IsNewer old) old) old _ _ w
            (is_license_update_day-Leaves os o (saved os path)) e (inl refl)
            λ b v ev _. attempt_license-Keeps b v ev)
