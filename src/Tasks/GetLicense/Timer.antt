-- ===== src/Tasks/GetLicense/Timer.antt =====
-- get_license_task/get_license_task.cpp: when the task runs again.
use license_checker.Client.Frames.{make_license_extractor-Leaves, processing_license-Leaves}
use license_checker.Client.{
  HostLicense, HostStatus, LicenseResult, mime_types_code, status_active, status_suspended,
}
use license_checker.Config.{Options}
use license_checker.License.Frames.{
  is_license_file-Leaves, is_license_update_day-Leaves, is_check_licenses_months-Leaves,
  save_license_to_file-Leaves,
}
use license_checker.Platform.{Platform, World}
use license_checker.Prelude.Frames.{
  Leaves, Leaves-same, Leaves-bind, Leaves-if, Ends, Ends-bind, Ends-if,
}
use license_checker.Prelude.{
  ℤ, pos, Text, is_empty, Bool, true, false, Option, none, some, Outcome, ok, throws, fault,
  process_error, runtime_error, http_exception, json_exception, uri_exception, invalid_argument,
  Action, ◌>>=◌, ◌≡◌, ◌⊎◌, inl, inr, refl, not, catch, deref,
}
use license_checker.Tasks.GetLicense.{
  eq_ℤ, write_if_newer, keep_license, take_license, by_status, request_license, attempt_license,
  on_exception, try_block, svc,
}
use license_checker.Tasks.Shared.{minutes, hours, write_license}

abbrev timer_of : {D : Type 0} → World D → Option ℤ
timer_of w = w.timer

module _ {D J : Type 0} (os : Platform D J) (o : Options) (mins waiting : ℤ) where
  -- one of the two delays of the task
  abbrev pub IsRescheduled : Option ℤ → Type 0
  IsRescheduled t = (t ≡ some (minutes mins)) ⊎ (t ≡ some (hours waiting))

  -- A part of the `try` block has scheduled the task, or has thrown with its timer as before.
  abbrev Timed : Option ℤ → Outcome (Unit {0}) → World D → Type 0
  Timed t (ok u) w = IsRescheduled w.timer
  Timed t (throws e) w = w.timer ≡ t
  Timed t fault w = Unit

  write_license-Leaves : (h : HostLicense) → Leaves timer_of (write_license os o h)
  unfolding write_license
  write_license-Leaves h =
      Leaves-bind _ _ (save_license_to_file-Leaves os o timer_of (λ w d. refl) h.license)
        (λ saved. Leaves-same _ (λ w. refl))

  write_if_newer-Leaves :
      (h : HostLicense) (b : Bool) → Leaves timer_of (write_if_newer os o mins waiting h b)
  unfolding write_if_newer
  write_if_newer-Leaves h b =
      Leaves-if b _ _ (Leaves-bind _ _ (write_license-Leaves h) (λ _. Leaves-same _ (λ w. refl)))
        (Leaves-same _ (λ w. refl))

  module _ (t : Option ℤ) where
    Timed-bind :
        {A : Type 0} (m : Action (World D) A) (g : A → Action (World D) (Unit {0})) (w : World D)
        → Leaves timer_of m
        → w.timer ≡ t
        → ((a : A) (v : World D) → v.timer ≡ t → Ends (Timed t) (g a v))
        → Ends (Timed t) ((m >>= g) w)
    Timed-bind m g w l e k = Ends-bind (Timed t) t m g w l e (λ x v h. h) (λ v h. tt) k

    keep_license-Timed :
        (h : HostLicense) (b : Bool) (w : World D)
        → w.timer ≡ t
        → Ends (Timed t) (keep_license os o mins waiting h b w)
    unfolding keep_license
    keep_license-Timed h false w e = Timed-bind _ _ w (write_license-Leaves h) e (λ _ v k. inr refl)
    keep_license-Timed h true w e =
        Ends-if (Timed t) (not (eq_ℤ h.month (pos 0))) _ _ w
          (λ _.
            Timed-bind _ _ w (is_check_licenses_months-Leaves os o timer_of h.month) e
              λ b v k. Timed-bind _ _ v (write_if_newer-Leaves h b) k (λ _ u _. inr refl))
          (λ _. inl refl)

    take_license-Timed :
        (h : Option HostLicense) (w : World D)
        → w.timer ≡ t
        → Ends (Timed t) (take_license os o mins waiting h w)
    unfolding take_license
    take_license-Timed none w e = inl refl
    take_license-Timed (some h) w e =
        Ends-if (Timed t) (is_empty h.license) _ _ w (λ _. inl refl)
          (λ _.
            Timed-bind _ _ w (is_license_file-Leaves os o timer_of) e
              (λ b v k. keep_license-Timed h b v k))

    by_status-Timed :
        (r : LicenseResult) (s : HostStatus) (w : World D)
        → w.timer ≡ t
        → Ends (Timed t) (by_status os o mins waiting r s w)
    unfolding by_status
    by_status-Timed r s w e =
        Ends-if (Timed t) (eq_ℤ s.id status_active) _ _ w
          (λ _. take_license-Timed r.host_license w e)
          (λ _.
            Ends-if (Timed t) (eq_ℤ s.id status_suspended) _ _ w (λ _. inr refl) (λ _. inl refl))

    deref-Leaves : {A : Type 0} (a : Option A) → Leaves timer_of (deref {S = World D} a)
    deref-Leaves none = Leaves-same _ (λ w. refl)
    deref-Leaves (some a) = Leaves-same _ (λ w. refl)

    request_license-Timed :
        (w : World D) → w.timer ≡ t → Ends (Timed t) (request_license os o mins waiting w)
    unfolding request_license
    request_license-Timed w e =
        Timed-bind _ _ w (make_license_extractor-Leaves os o timer_of (λ cmd v. refl) 1) e λ x v k.
          Timed-bind _ _ v (processing_license-Leaves os o timer_of x) k λ r v k.
            Timed-bind _ _ v (deref-Leaves r.host_status) k λ s v k. by_status-Timed r s _ k

    attempt_license-Timed :
        (b : Bool) (w : World D)
        → w.timer ≡ t
        → Ends (Timed t) (attempt_license os o mins waiting b w)
    unfolding attempt_license
    attempt_license-Timed true w e = request_license-Timed w e
    attempt_license-Timed false w e = inr refl

    try_block-Timed : (w : World D) → w.timer ≡ t → Ends (Timed t) (try_block os o mins waiting w)
    unfolding try_block
    try_block-Timed w e =
        Timed-bind _ _ w (is_license_update_day-Leaves os o timer_of) e
          λ b v k. attempt_license-Timed b v k

  -- What one run of the task has done to its timer when it is over.
  abbrev pub Rescheduled : World D → Outcome (Unit {0}) → World D → Type 0
  Rescheduled w (ok u) w' =
      IsRescheduled w'.timer
      ⊎ ((code : ℤ) × (what : Text) × ((try_block os o mins waiting w).0
            ≡ throws (http_exception code what))
          × (eq_ℤ code mime_types_code ≡ false)
          × (w'.timer ≡ w.timer))
  Rescheduled w (throws e) w' =
      ((what : Text) × ((e ≡ json_exception what)
          ⊎ (e ≡ uri_exception what)
          ⊎ (e ≡ invalid_argument what)))
      × (w'.timer ≡ w.timer)
  Rescheduled w fault w' = (try_block os o mins waiting w).0 ≡ fault

  on_outcome :
      (w : World D) (r : Outcome (Unit {0})) (v : World D)
      → (try_block os o mins waiting w).0 ≡ r
      → Timed w.timer r v
      → Ends (Rescheduled w) (catch (λ _. (r, v)) (on_exception os o mins waiting) w)
  unfolding on_exception
  on_outcome w (ok u) v e h = inl h
  on_outcome w (throws (process_error what)) v e h = inl (inl refl)
  on_outcome w (throws (runtime_error what)) v e h = inl (inl refl)
  on_outcome w (throws (json_exception what)) v e h = ((what, inl refl), h)
  on_outcome w (throws (uri_exception what)) v e h = ((what, inr (inl refl)), h)
  on_outcome w (throws (invalid_argument what)) v e h = ((what, inr (inr refl)), h)
  on_outcome w (throws (http_exception code what)) v e h =
      Ends-if (Rescheduled w) (eq_ℤ code mime_types_code) _ _ v (λ _. inl (inl refl))
        (λ other. inr (code, what, e, other, h))
  on_outcome w fault v e h = e

  -- A run of the task that ends without an error has scheduled the next one, after one of the task's
  -- two delays, with one exception: where the HTTP client failed with a code that is not the MIME
  -- one, the timer is what it was. Only a JSON exception, a URI exception or an invalid argument leaves
  -- `svc`, and the timer is what it was.
  pub svc-Rescheduled : (w : World D) → Ends (Rescheduled w) (svc os o mins waiting w)
  unfolding svc
  svc-Rescheduled w =
      on_outcome w (try_block os o mins waiting w).0 (try_block os o mins waiting w).1 refl
        (try_block-Timed w.timer w refl)
