-- ===== src/Tasks/EventSink/Saving.antt =====
-- event_sink_task/event_sink_task.cpp: when the license file is written, and with what.
use license_checker.Client.{HostLicense, status_active, mime_types_code}
use license_checker.Config.{Options}
use license_checker.License.Frames.{IsKeptByExec}
use license_checker.Tasks.Shared.Frames.{lacks_license-Leaves}
use license_checker.Platform.{Platform, World}
use license_checker.Prelude.Frames.{Leaves, Leaves-same, Leaves-if, Leaves-catch, Keeps-bind}
use license_checker.Prelude.{
  ℤ, pos, negsuc, Text, is_empty, Bool, true, false, Bool-cases, Option, none, some, ok, Exception,
  process_error, runtime_error, http_exception, json_exception, uri_exception, invalid_argument,
  Action, pure, undefined, ◌≡◌, inl, inr, refl, ap, if◌then◌else◌,
}
use license_checker.Tasks.EventSink.{
  fits_buffer, log_saved, take_license, request_license, on_exception, try_block, svc,
}
use license_checker.Tasks.GetLicense.{eq_ℤ}
use license_checker.Tasks.Saving.{
  saved, IsReadBack, IsReceived, Stores, write_license-Stores, received_then,
}
use license_checker.Tasks.Shared.{lacks_license}

module _ {D J : Type 0} (os : Platform D J) (o : Options) where
  -- This task writes where, at the start `w` of its run, the license file was missing or its
  -- verification had failed.
  abbrev pub IsLacking : World D → HostLicense → Type 0
  IsLacking w h = (lacks_license os o w).0 ≡ ok true

module _ {D J : Type 0} (os : Platform D J) (o : Options) (path : Text) where
  module _ (read-write : IsReadBack os path) (kept : IsKeptByExec os o (saved os path))
      (old : Option Text) (start : World D) where
    log_saved-Leaves : (h : HostLicense) (n : ℤ) → Leaves (saved os path) (log_saved h n)
    unfolding log_saved
    log_saved-Leaves h (pos n) =
        Leaves-if (fits_buffer h) (pure tt) undefined (Leaves-same _ (λ v. refl))
          (Leaves-same _ (λ v. refl))
    log_saved-Leaves h (negsuc n) = Leaves-same _ (λ v. refl)

    abbrev Keeps : Action (World D) (Unit {0}) → World D → Type 0
    Keeps m w = Stores os o path (IsLacking os o start) old (saved os path (m w).1)

    take_license-Keeps :
        (h : Option HostLicense) (w : World D)
        → ((l : HostLicense) → h ≡ some l → is_empty l.license ≡ false → IsReceived os o l)
        → ((lacks_license os o start).0 ≡ ok true)
        → saved os path w ≡ old
        → Keeps (take_license os o h) w
    unfolding take_license
    take_license-Keeps none w received lacking e = inl e
    take_license-Keeps (some h) w received lacking e = elim (Bool-cases (is_empty h.license)) [
      | inl bare ↦ rw bare (inl e)
      | inr given ↦ rw given (
          write_license-Stores os o path read-write (IsLacking os o start) old h
            (received h refl given) lacking _ (log_saved-Leaves h) w e)
    ]

    request_license-Keeps :
        ((lacks_license os o start).0 ≡ ok true)
        → (w : World D) → saved os path w ≡ old
        → Keeps (request_license os o) w
    unfolding request_license
    request_license-Keeps lacking w e =
        received_then os o path kept (IsLacking os o start) old 60 _
          (λ r s v ev status (x, u, answer). elim (Bool-cases (eq_ℤ s.id status_active)) [
            | inl active ↦ rw active (
                take_license-Keeps r.host_license _
                  (λ l has_license given. record {
                    extractor = x;
                    seen = u;
                    result = r;
                    status = s;
                    answered = answer;
                    has_status = status;
                    is_active = active;
                    has_license = has_license;
                    is_given = given;
                  })
                  lacking ev)
            | inr other ↦ rw other (inl ev)
          ])
          w e

    if_lacking-Keeps :
        (b : Bool) (v : World D)
        → (lacks_license os o start).0 ≡ ok b
        → saved os path v ≡ old
        → Keeps (if b then request_license os o else pure tt) v
    if_lacking-Keeps true v lacks e = request_license-Keeps lacks v e
    if_lacking-Keeps false v lacks e = inl e

    on_exception-Leaves : (x : Exception) → Leaves (saved os path) (on_exception os o x)
    unfolding on_exception
    on_exception-Leaves (process_error what) = record { at = λ w. refl }
    on_exception-Leaves (runtime_error what) = record { at = λ w. refl }
    on_exception-Leaves (json_exception what) = record { at = λ w. refl }
    on_exception-Leaves (uri_exception what) = record { at = λ w. refl }
    on_exception-Leaves (invalid_argument what) = record { at = λ w. refl }
    on_exception-Leaves (http_exception code what) =
        Leaves-if (eq_ℤ code mime_types_code) _ _ (record { at = λ w. refl })
          (record { at = λ w. refl })

    -- If commands leave a file alone and what is written is what is read, then one run of the task
    -- leaves the file as it was, or it is the license file, which at the start of this run was missing
    -- or whose verification failed, and now holds the license, which is not empty, of an answer of the
    -- server that said that the host is active.
    pub svc-Stores-IsLacking :
        saved os path start ≡ old
        → Stores os o path (IsLacking os o start) old (saved os path (svc os o start).1)
    unfolding svc try_block
    svc-Stores-IsLacking e =
        Leaves-catch (Stores os o path (IsLacking os o start) old) (try_block os o)
          (on_exception os o) start on_exception-Leaves
          (Keeps-bind (Stores os o path (IsLacking os o start) old) old _ _ start
            (lacks_license-Leaves os o (saved os path) kept) e (inl refl)
            λ b v ev lacks. if_lacking-Keeps b v (ap (λ x. x.0) lacks) ev)
