-- ===== src/Tasks/ProcessKiller.antt =====
-- process_killer_task/process_killer_task.cpp and process_killer_task.h. `name` and `waiting` are the
-- members `process_stopping_name_` and `day_waiting_hours_`.
pub mod Upkeep
pub mod Verdict
use license_checker.Config.{Options}
use license_checker.License.{is_license_check_day}
use license_checker.Platform.{Platform, World}
use license_checker.Prelude.{
  ℕ, ℤ, pos, negsuc, Text, codes, ◌++◌, ◌==◌, Bool, true, false, Option, none, some, ok, Exception,
  process_error, runtime_error, http_exception, json_exception, uri_exception, invalid_argument,
  Action, pure, throw, catch, ◌>>=◌, ◌>>◌, if◌then◌else◌,
}
use license_checker.Tasks.Shared.{
  schedule_handle_timeout, send_process_error, send_critical, hours, lacks_license,
}
use license_checker.Tools.{send_message, terminate_process}

module _ {D J : Type 0} (os : Platform D J) (o : Options) (name : Text) (waiting : ℤ) where
  abbrev pub wait_next_day : Action (World D) (Unit {0})
  wait_next_day = schedule_handle_timeout (hours waiting)

  abbrev report : Text → Text
  report message = codes "{ \"code\": \"1\", \"disc\": \"" ++ (message ++ codes "\" }")

  unfoldable pub report_kill : Bool → Action (World D) (Unit {0})
  unfolding send_message
  report_kill killed =
      if killed
      then send_message (report (name ++ codes " was killed"))
      else send_message (report (codes "Process " ++ (name ++ codes " not found")))

  unfoldable pub stop_process : Action (World D) (Unit {0})
  unfolding report_kill
  stop_process = do killed ← terminate_process os name; report_kill killed

  -- `is_license_check_day() && (!is_license_file() || !verify_license())`
  unfoldable pub must_stop : Action (World D) Bool
  must_stop = do check ← is_license_check_day os o; if check then lacks_license os o else pure false

  unfoldable pub try_block : Action (World D) (Unit {0})
  try_block = do stop ← must_stop; if stop then stop_process else pure tt; wait_next_day

  unfoldable pub on_exception : Exception → Action (World D) (Unit {0})
  unfolding send_process_error send_critical
  on_exception (process_error what) = do send_process_error what; wait_next_day
  on_exception (runtime_error what) = do send_critical what; wait_next_day
  on_exception (http_exception code what) = throw (http_exception code what)
  on_exception (json_exception what) = throw (json_exception what)
  on_exception (uri_exception what) = throw (uri_exception what)
  on_exception (invalid_argument what) = throw (invalid_argument what)

  unfoldable pub svc : Action (World D) (Unit {0})
  unfolding on_exception
  svc = catch try_block on_exception

  -- `handle_timeout`: the timer fires once, is gone, and `svc` runs on a new thread.
  unfoldable pub handle_timeout : Action (World D) (Unit {0})
  handle_timeout w = svc (record w { timer = none })

-- `execute_process`, which nothing calls: `spawn` is `ACE_Process`, the exit status of a command
-- line that starts.
unfoldable pub execute_process :
    {D : Type 0} → (Text → D → Option ℕ × D) → Text → Action (World D) ℤ
execute_process spawn command w =
    let (status, d) = spawn command w.disk in
    elim status [
      | none ↦ (ok (negsuc 0), record w { disk = d })
      | some n ↦ (ok (if n == 1 then pos 0 else negsuc 0), record w { disk = d })
    ]

-- `shutdown_service`, which nothing calls either; `ended` is what `end_event_loop` returns.
unfoldable pub shutdown_service : {D : Type 0} → ℤ → Action (World D) ℤ
shutdown_service ended w = (ok ended, record w { timer = none })
