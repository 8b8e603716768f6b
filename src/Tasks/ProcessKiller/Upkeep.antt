-- ===== src/Tasks/ProcessKiller/Upkeep.antt =====
-- process_killer_task/process_killer_task.cpp: when the task runs again, and what a run leaves alone.
use license_checker.Config.{Options}
use license_checker.License.Frames.{IsKeptByExec, is_license_check_day-Leaves}
use license_checker.Platform.{Platform, World}
use license_checker.Prelude.Frames.{Leaves, Leaves-same, Leaves-bind, Leaves-if, Leaves-catch}
use license_checker.Prelude.{
  ℤ, Text, Bool, true, false, some, Outcome, ok, throws, fault, Exception, process_error,
  runtime_error, http_exception, json_exception, uri_exception, invalid_argument, ◌>>◌, ◌≡◌, refl,
  ltb_ℤ, pos, if◌then◌else◌, continue, Option, List, Bool-cases, inl, inr, catch, pure,
}
use license_checker.Tasks.ProcessKiller.{
  wait_next_day, report_kill, stop_process, must_stop, try_block, on_exception, svc,
}
use license_checker.Tasks.Shared.Frames.{lacks_license-Leaves}
use license_checker.Tasks.Shared.{hours, send_process_error, send_critical}
use license_checker.Tools.{send_message, terminate_process, get_proc_id_by_name}

module _ {D J : Type 0} (os : Platform D J) (o : Options) (name : Text) (waiting : ℤ) where
  -- what a run of the task ends in
  abbrev pub Waits : Outcome (Unit {0}) → World D → Type 0
  Waits (ok u) w = w.timer ≡ some (hours waiting)
  Waits _ w = Unit {0}

  on_outcome :
      (r : Outcome (Unit {0})) (v w : World D)
      → (r ≡ ok tt → v.timer ≡ some (hours waiting))
      → let x = catch (λ _. (r, v)) (on_exception os o name waiting) w in Waits x.0 x.1
  unfolding on_exception
  on_outcome (ok tt) v w h = h refl
  on_outcome (throws (process_error what)) v w h = refl
  on_outcome (throws (runtime_error what)) v w h = refl
  on_outcome (throws (http_exception code what)) v w h = tt
  on_outcome (throws (json_exception what)) v w h = tt
  on_outcome (throws (uri_exception what)) v w h = tt
  on_outcome (throws (invalid_argument what)) v w h = tt
  on_outcome fault v w h = tt

  waits_after :
      (r : Outcome (Unit {0})) (v : World D)
      → let x = continue (λ _. wait_next_day os o name waiting) r v in
        x.0 ≡ ok tt → x.1.timer ≡ some (hours waiting)
  waits_after (ok u) v e = refl
  waits_after (throws x) v e = cc
  waits_after fault v e = cc

  stop_waits :
      (r : Outcome Bool) (v : World D)
      → let x =
          continue
            (λ stop.
              (if stop then stop_process os o name waiting else pure tt)
              >> wait_next_day os o name waiting)
            r
            v in
        x.0 ≡ ok tt → x.1.timer ≡ some (hours waiting)
  stop_waits (ok b) v e =
      let x = (if b then stop_process os o name waiting else pure tt) v in waits_after x.0 x.1 e
  stop_waits (throws x) v e = cc
  stop_waits fault v e = cc

  -- A run of the task that ends without an error has scheduled the next one after the hours set.
  pub svc-Waits : (w : World D) → let x = svc os o name waiting w in Waits x.0 x.1
  unfolding svc try_block
  svc-Waits w =
      on_outcome (try_block os o name waiting w).0 (try_block os o name waiting w).1 w
        (stop_waits (must_stop os o name waiting w).0 (must_stop os o name waiting w).1)

  module _ {X : Type 0} (f : World D → X) (kept : IsKeptByExec os o f)
      (apart : (w : World D) (t : Option ℤ) (sent : List Text)
        → f (record w { timer = t; sent = sent }) ≡ f w)
      (killed : (w : World D) (pid : ℤ)
        → f (record w { disk = (os.kill w.disk pid).1 }) ≡ f w) where
    report_kill-Leaves : (b : Bool) → Leaves f (report_kill os o name waiting b)
    unfolding report_kill send_message
    report_kill-Leaves true = record { at = λ w. apart w w.timer _ }
    report_kill-Leaves false = record { at = λ w. apart w w.timer _ }

    terminate_process-Leaves : Leaves f (terminate_process os name)
    unfolding terminate_process
    terminate_process-Leaves = record {
      at = λ w. elim (Bool-cases (ltb_ℤ (pos 0) (get_proc_id_by_name os name w.disk))) [
        | inl running ↦ rw running (killed w (get_proc_id_by_name os name w.disk))
        | inr idle ↦ rw idle refl
      ];
    }

    stop_process-Leaves : Leaves f (stop_process os o name waiting)
    unfolding stop_process
    stop_process-Leaves = Leaves-bind _ _ terminate_process-Leaves report_kill-Leaves

    must_stop-Leaves : Leaves f (must_stop os o name waiting)
    unfolding must_stop
    must_stop-Leaves =
        Leaves-bind _ _ (is_license_check_day-Leaves os o f)
          λ b. Leaves-if b _ _ (lacks_license-Leaves os o f kept) (Leaves-same _ (λ w. refl))

    try_block-Leaves : Leaves f (try_block os o name waiting)
    unfolding try_block
    try_block-Leaves = Leaves-bind _ _ must_stop-Leaves λ b.
        Leaves-bind _ _ (Leaves-if b _ _ stop_process-Leaves (Leaves-same _ (λ w. refl)))
          λ _. record { at = λ w. apart w _ w.sent }

    on_exception-Leaves : (e : Exception) → Leaves f (on_exception os o name waiting e)
    unfolding on_exception send_process_error send_critical send_message
    on_exception-Leaves (process_error what) = record { at = λ w. apart w _ _ }
    on_exception-Leaves (runtime_error what) = record { at = λ w. apart w _ _ }
    on_exception-Leaves (http_exception code what) = record { at = λ w. refl }
    on_exception-Leaves (json_exception what) = record { at = λ w. refl }
    on_exception-Leaves (uri_exception what) = record { at = λ w. refl }
    on_exception-Leaves (invalid_argument what) = record { at = λ w. refl }

    -- A run leaves alone what commands, signals, messages and timers leave alone.
    pub svc-Leaves : Leaves f (svc os o name waiting)
    unfolding svc
    svc-Leaves = record {
      at = λ w.
          Leaves-catch (λ x. x ≡ f w) (try_block os o name waiting) (on_exception os o name waiting)
            w on_exception-Leaves (try_block-Leaves.at w);
    }
