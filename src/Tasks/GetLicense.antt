-- ===== src/Tasks/GetLicense.antt =====
-- get_license_task/get_license_task.cpp and get_license_task.h. `mins` and `waiting` are the members
-- `try_get_license_mins_` and `day_waiting_hours_`.
pub mod Timer
pub mod Saving
use license_checker.Client.{
  HostLicense, HostStatus, LicenseResult, make_license_extractor, processing_license, status_active,
  status_suspended, mime_types_code,
}
use license_checker.Config.{Options}
use license_checker.License.{is_license_update_day, is_license_file, is_check_licenses_months}
use license_checker.Platform.{Platform, World}
use license_checker.Prelude.{
  ℕ, ℤ, pos, negsuc, pos_part, neg_part, Text, codes, is_empty, ◌++◌, ◌+◌, ◌==◌, Bool, true, false,
  not, ◌&&◌, Option, none, some, Outcome, ok, Exception, process_error, runtime_error,
  http_exception, json_exception, uri_exception, invalid_argument, Action, pure, throw, deref,
  catch, ◌>>=◌, ◌>>◌, if◌then◌else◌,
}
use license_checker.Tasks.Shared.{
  schedule_handle_timeout, send_process_error, send_critical, minutes, hours, write_license,
}
use license_checker.Tools.{send_message}

-- `==` of two `int`
abbrev pub eq_ℤ : ℤ → ℤ → Bool
eq_ℤ a b = pos_part a == pos_part b && neg_part a == neg_part b

module _ {D J : Type 0} (os : Platform D J) (o : Options) (mins waiting : ℤ) where
  abbrev pub retry_soon : Action (World D) (Unit {0})
  retry_soon = schedule_handle_timeout (minutes mins)

  abbrev pub wait_next_day : Action (World D) (Unit {0})
  wait_next_day = schedule_handle_timeout (hours waiting)

  count_day : Action (World D) (Unit {0})
  count_day w = (ok tt, record w { day_counter = w.day_counter + 1 })

  write_if_newer : HostLicense → Bool → Action (World D) (Unit {0})
  write_if_newer h newer = if newer then (do write_license os o h; pure tt) else pure tt

  -- a license that is not empty
  unfoldable pub keep_license : HostLicense → Bool → Action (World D) (Unit {0})
  unfolding write_if_newer send_message
  keep_license h present =
      if present
      then if not (eq_ℤ h.month (pos 0))
        then (do
          newer ← is_check_licenses_months os o h.month
          write_if_newer h newer
          wait_next_day)
        else (do
          send_message (codes "1#Host License#Error restponse: retrived host license is wrong")
          retry_soon)
      else (do write_license os o h; wait_next_day)

  -- the branch of an active host
  unfoldable pub take_license : Option HostLicense → Action (World D) (Unit {0})
  take_license none = retry_soon
  take_license (some h) =
      if is_empty h.license
      then retry_soon
      else (do present ← is_license_file os o; keep_license h present)

  unfoldable pub by_status : LicenseResult → HostStatus → Action (World D) (Unit {0})
  by_status result s =
      if eq_ℤ s.id status_active
      then take_license result.host_license
      else if eq_ℤ s.id status_suspended
      then wait_next_day
      else retry_soon

  unfoldable pub request_license : Action (World D) (Unit {0})
  unfolding send_message
  request_license = do
    x ← make_license_extractor os o 1
    result ← processing_license os x
    status ← deref result.host_status
    send_message (codes "2#Host Status#" ++ status.name)
    by_status result status

  -- the `try` block
  unfoldable pub attempt_license : Bool → Action (World D) (Unit {0})
  unfolding count_day
  attempt_license update = if update then request_license else (do count_day; wait_next_day)

  -- the `catch` clauses; a JSON exception is no `runtime_error`, and leaves `svc`
  unfoldable pub on_exception : Exception → Action (World D) (Unit {0})
  unfolding send_process_error send_critical send_message
  on_exception (process_error what) = do send_process_error what; retry_soon
  on_exception (runtime_error what) = do send_critical what; retry_soon
  on_exception (http_exception code what) =
      if eq_ℤ code mime_types_code
      then (do send_message (codes "1#Error#" ++ what); retry_soon)
      else pure tt
  on_exception (json_exception what) = throw (json_exception what)
  on_exception (uri_exception what) = throw (uri_exception what)
  on_exception (invalid_argument what) = throw (invalid_argument what)

  unfoldable pub try_block : Action (World D) (Unit {0})
  try_block = do update ← is_license_update_day os o; attempt_license update

  unfoldable pub svc : Action (World D) (Unit {0})
  unfolding on_exception
  svc = catch try_block on_exception

  -- `handle_timeout`: the timer fires once, is gone, and `svc` runs on a new thread.
  unfoldable pub handle_timeout : Action (World D) (Unit {0})
  handle_timeout w = svc (record w { timer = none })
