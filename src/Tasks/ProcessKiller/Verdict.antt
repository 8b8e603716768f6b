-- ===== src/Tasks/ProcessKiller/Verdict.antt =====
-- process_killer_task/process_killer_task.cpp: which processes are stopped, and when.
use license_checker.Config.{Options}
use license_checker.License.{is_license_check_day}
use license_checker.License.Frames.{IsKeptByExec}
use license_checker.Platform.{Platform, ProcEntry, World}
use license_checker.Prelude.Frames.{Leaves}
use license_checker.Prelude.{
  ◌++◌, ◌⊎◌, ◌==◌, ◌&&◌, pos_part, neg_part, codes, Bool, true, false, Bool-cases, inl, inr,
  Outcome, ok, throws, fault, Exception, process_error, runtime_error, http_exception,
  json_exception, uri_exception, invalid_argument, ◌≡◌, refl, some, Option, List, [], ◌∷◌, Text, ℤ,
  arith, ap, ◌∙◌,
}
use license_checker.Tasks.ProcessKiller.{
  must_stop, try_block, on_exception, svc, stop_process, report_kill,
}
use license_checker.Tasks.Shared.{hours, lacks_license, send_process_error, send_critical}
use license_checker.Tasks.Shared.Frames.{lacks_license-Leaves}
use license_checker.Tools.{send_message, terminate_process}
use license_checker.Tools.Processes.{Terminates, terminate_process-Terminates}

module _ {D J : Type 0} (os : Platform D J) (o : Options) (name : Text) (waiting : ℤ) where
  -- the processes of the machine
  abbrev pub processes : World D → Option (List ProcEntry)
  processes w = os.proc w.disk

  on_exception-Leaves : (e : Exception) → Leaves processes (on_exception os o name waiting e)
  unfolding on_exception send_process_error send_critical send_message
  on_exception-Leaves (process_error what) = record { at = λ w. refl }
  on_exception-Leaves (runtime_error what) = record { at = λ w. refl }
  on_exception-Leaves (http_exception code what) = record { at = λ w. refl }
  on_exception-Leaves (json_exception what) = record { at = λ w. refl }
  on_exception-Leaves (uri_exception what) = record { at = λ w. refl }
  on_exception-Leaves (invalid_argument what) = record { at = λ w. refl }

  -- Whatever the verdict was, what is done with the machine when no process is to be stopped.
  svc-judged :
      (w w1 : World D) (r : Outcome Bool)
      → must_stop os o name waiting w ≡ (r, w1)
      → ¬ (r ≡ ok true)
      → processes (svc os o name waiting w).1 ≡ processes w1
  unfolding svc try_block
  svc-judged w w1 (ok true) e n = elim (n refl) [ ]
  svc-judged w w1 (ok false) e n = rw e refl
  svc-judged w w1 (throws x) e n = rw e ((on_exception-Leaves x).at w1)
  svc-judged w w1 fault e n = rw e refl

  must_stop_other_day :
      (w : World D)
      → is_license_check_day os o w ≡ (ok false, w)
      → must_stop os o name waiting w ≡ (ok false, w)
  unfolding must_stop
  must_stop_other_day w e = rw e refl

  must_stop_check_day :
      (w : World D)
      → is_license_check_day os o w ≡ (ok true, w)
      → must_stop os o name waiting w ≡ lacks_license os o w
  unfolding must_stop
  must_stop_check_day w e = rw e refl

  check_day_cases :
      (w : World D)
      → (is_license_check_day os o w ≡ (ok true, w)) ⊎ (is_license_check_day os o w ≡ (ok false, w))
  unfolding is_license_check_day
  check_day_cases w =
      elim (Bool-cases
        (pos_part o.day_license_check == os.day w.disk && neg_part o.day_license_check == 0)) [
          | inl e ↦ inl (ap (λ b. (ok b, w)) e)
          | inr e ↦ inr (ap (λ b. (ok b, w)) e)
        ]

  -- Where running a command does not change which processes there are, a run changes it only on
  -- the day of the check, and then only if the license file is missing or was found not to be valid.
  pub svc-Spares :
      IsKeptByExec os o processes
      → (w : World D)
      → ¬ ((is_license_check_day os o w ≡ (ok true, w)) × ((lacks_license os o w).0 ≡ ok true))
      → processes (svc os o name waiting w).1 ≡ processes w
  svc-Spares kept w idle = elim (check_day_cases w) [
    | inr other ↦ svc-judged w w (ok false) (must_stop_other_day w other) (λ e. ground (arith, e))
    | inl day ↦
        svc-judged w (lacks_license os o w).1 (lacks_license os o w).0 (must_stop_check_day w day)
          (λ e. idle (day, e))
        ∙ (lacks_license-Leaves os o processes kept).at w
  ]

  abbrev pub kill_message : Bool → Text
  kill_message true =
      codes "{ \"code\": \"1\", \"disc\": \"" ++ (name ++ codes " was killed" ++ codes "\" }")
  kill_message false =
      codes "{ \"code\": \"1\", \"disc\": \""
      ++ (codes "Process " ++ (name ++ codes " not found") ++ codes "\" }")

  stop_process_lem :
      (w : World D) (b : Bool) (d : D)
      → terminate_process os name w ≡ (ok b, record w { disk = d })
      → stop_process os o name waiting w
        ≡ (ok tt, record w { disk = d; sent = w.sent ++ kill_message b ∷ [] })
  unfolding stop_process report_kill send_message
  stop_process_lem w true d e = rw e refl
  stop_process_lem w false d e = rw e refl

  svc-stopping :
      (w w1 w2 : World D)
      → must_stop os o name waiting w ≡ (ok true, w1)
      → stop_process os o name waiting w1 ≡ (ok tt, w2)
      → svc os o name waiting w ≡ (ok tt, record w2 { timer = some (hours waiting) })
  unfolding svc try_block
  svc-stopping w w1 w2 e k = rw (e, k) refl

  -- On the day of the check, if the license file is missing or was found not to be valid, a run
  -- signals the first process that runs the named program and no other, reports whether it did, and
  -- waits for the hours set.
  pub svc-Stops :
      (w w1 : World D)
      → is_license_check_day os o w ≡ (ok true, w)
      → lacks_license os o w ≡ (ok true, w1)
      → (b : Bool) × (d : D) × Terminates os name w1.disk b d
        × (svc os o name waiting w ≡ (
          ok tt,
          record w1 {
            disk = d;
            sent = w1.sent ++ kill_message b ∷ [];
            timer = some (hours waiting);
          },
        ))
  svc-Stops w w1 day lacking =
      let (b, d, ended, signal) = terminate_process-Terminates os name w1 in
      (
        b,
        d,
        signal,
        svc-stopping w w1 _ (must_stop_check_day w day ∙ lacking) (stop_process_lem w1 b d ended),
      )
