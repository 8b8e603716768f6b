-- ===== src/Tasks/Shared.antt =====
-- What the tasks share: the timer, the handlers of their `catch` clauses and `write_license`.
pub mod Frames
use license_checker.Client.{HostLicense}
use license_checker.Config.{Options}
use license_checker.License.{is_license_file, verify_license, save_license_to_file}
use license_checker.Platform.{Platform, World}
use license_checker.Prelude.{
  ℕ, ℤ, pos, negsuc, scale, Text, codes, c_str, take_before, ◌++◌, ◌*◌, Bool, true, false, not,
  Option, some, Outcome, ok, Action, pure, ◌>>=◌, ◌>>◌, if◌then◌else◌,
}
use license_checker.Tools.{send_message}

module _ {D : Type 0} where
  -- `schedule_handle_timeout`: `cancel_timer` drops what is pending, and `schedule_timer` adds one.
  abbrev pub schedule_handle_timeout : ℤ → Action (World D) (Unit {0})
  schedule_handle_timeout seconds w = (ok tt, record w { timer = some seconds })

  -- the message of a `process_error`, and that of another `runtime_error`
  unfoldable pub send_process_error : Text → Action (World D) (Unit {0})
  unfolding send_message
  send_process_error what = send_message (codes "0#Critical#" ++ take_before b':' what)

  unfoldable pub send_critical : Text → Action (World D) (Unit {0})
  unfolding send_message
  send_critical what = send_message (codes "0#Critical#" ++ what)

-- `next_try_get_license_secs` and `next_day_waiting_secs`
abbrev pub minutes : ℤ → ℤ
minutes mins = scale 60 mins

abbrev pub hours : ℤ → ℤ
hours h = scale 60 (scale 60 h)

module _ {D J : Type 0} (os : Platform D J) (o : Options) where
  -- What `write_license` of both tasks does before it logs the result: 0, or -1 where the file cannot
  -- be written. The text that Get_License_Task logs always fits its buffer of 100 characters; for the
  -- buffer of EventSink_Task see `log_saved`.
  unfoldable pub write_license : HostLicense → Action (World D) ℤ
  write_license h = do
    saved ← save_license_to_file os o h.license
    pure (if saved then pos 0 else negsuc 0)

  -- `!is_license_file() || !verify_license()`
  unfoldable pub lacks_license : Action (World D) Bool
  lacks_license = do
    present ← is_license_file os o
    if not present then pure true else (do valid ← verify_license os o; pure (not valid))
