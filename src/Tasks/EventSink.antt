-- ===== src/Tasks/EventSink.antt =====
-- event_sink_task/event_sink_task.cpp, which runs when openvpn is started.
pub mod Saving
use license_checker.Client.{
  HostLicense, LicenseResult, HostStatus, make_license_extractor, processing_license, status_active,
  mime_types_code,
}
use license_checker.Config.{Options}
use license_checker.Platform.{Platform, World}
use license_checker.Prelude.{
  ℤ, pos, negsuc, suc, ltb, length, to_string, ◌+◌, ◌∷◌, undefined, Text, codes, is_empty, ◌++◌,
  Bool, true, false, not, Option, none, some, Exception, process_error, runtime_error,
  http_exception, json_exception, uri_exception, invalid_argument, Action, pure, throw, deref,
  catch, ◌>>=◌, ◌>>◌, if◌then◌else◌,
}
use license_checker.Tasks.GetLicense.{eq_ℤ}
use license_checker.Tasks.Shared.{send_process_error, send_critical, write_license, lacks_license}
use license_checker.Tools.{send_message}

-- what `%d` prints
print_number : ℤ → Text
print_number (pos n) = to_string n
print_number (negsuc n) = b'-' ∷ to_string (suc n)

-- whether the text that `sprintf` writes, 43 bytes beside the month and the year, and a final 0, is
-- within the buffer of 50
unfoldable pub fits_buffer : HostLicense → Bool
unfolding print_number
fits_buffer h = ltb (43 + length (print_number h.month) + length (print_number h.year)) 50

-- The last statements of `EventSink_Task::write_license`, which log that the license was saved.
unfoldable pub log_saved : {D : Type 0} → HostLicense → ℤ → Action (World D) (Unit {0})
unfolding fits_buffer
log_saved h (pos n) = if fits_buffer h then pure tt else undefined
log_saved h (negsuc n) = pure tt

module _ {D J : Type 0} (os : Platform D J) (o : Options) where
  unfoldable pub take_license : Option HostLicense → Action (World D) (Unit {0})
  take_license none = pure tt
  take_license (some h) =
      if not (is_empty h.license) then (do n ← write_license os o h; log_saved h n) else pure tt

  unfoldable pub request_license : Action (World D) (Unit {0})
  unfolding send_message
  request_license = do
    x ← make_license_extractor os o 60
    result ← processing_license os x
    status ← deref result.host_status
    send_message (codes "2#Host Status#" ++ status.name)
    if eq_ℤ status.id status_active then take_license result.host_license else pure tt

  unfoldable pub try_block : Action (World D) (Unit {0})
  try_block = do lacks ← lacks_license os o; if lacks then request_license else pure tt

  unfoldable pub on_exception : Exception → Action (World D) (Unit {0})
  unfolding send_process_error send_critical
  on_exception (process_error what) = send_process_error what
  on_exception (runtime_error what) = send_critical what
  on_exception (http_exception code what) =
      if eq_ℤ code mime_types_code then send_critical what else pure tt
  on_exception (json_exception what) = throw (json_exception what)
  on_exception (uri_exception what) = throw (uri_exception what)
  on_exception (invalid_argument what) = throw (invalid_argument what)

  unfoldable pub svc : Action (World D) (Unit {0})
  unfolding on_exception
  svc = catch try_block on_exception
