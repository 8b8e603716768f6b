-- ===== src/Client/Types.antt =====
-- client/client_license.h: what is sent to the license server and what comes back. The `Errors` of the
-- header are the record `ErrorReport` here.
use license_checker.Prelude.{
  ℕ, ℤ, pos, pos_part, Text, is_empty, ◌==◌, Bool, not, ◌&&◌, Option, none, List, [],
}

-- `lic::lic_host_status` and `lic::error_code`
abbrev pub status_active : ℤ
status_active = pos 1

abbrev pub status_suspended : ℤ
status_suspended = pos 2

abbrev pub mime_types_code : ℤ
mime_types_code = pos 12010

pub record FieldError : Type 0 where
  pub message : Text
  pub field_name : Text
  pub validation_error_name : Text

-- `code` is `none` until it is set: the constructor leaves it uninitialised.
pub record ErrorReport : Type 0 where
  pub code : Option ℤ
  pub error_type : Text
  pub user_message : Text
  pub developer_message : Text
  pub field_errors : List FieldError

abbrev pub no_errors : ErrorReport
no_errors = record {
  code = none;
  error_type = [];
  user_message = [];
  developer_message = [];
  field_errors = [];
}

pub record HostLicense : Type 0 where
  pub year : ℤ
  pub month : ℤ
  pub license : Text

pub record HostStatus : Type 0 where
  pub id : ℤ
  pub name : Text

unfoldable pub is_active : HostStatus → Bool
is_active s = pos_part s.id == 1

-- `Result`; a null pointer is `none`.
pub record LicenseResult : Type 0 where
  pub errors : Option ErrorReport
  pub status_code : Option ℕ
  pub message : Text
  pub host_license : Option HostLicense
  pub host_status : Option HostStatus

abbrev pub new_result : LicenseResult
new_result = record {
  errors = none;
  status_code = none;
  message = [];
  host_license = none;
  host_status = none;
}

-- `Request_License`
pub record LicenseRequest : Type 0 where
  pub uid : Text
  pub unp : Text
  pub agent : Text
  pub host_type : Text

unfoldable pub is_valid : LicenseRequest → Bool
is_valid r =
    not (is_empty r.uid)
    && not (is_empty r.unp)
    && not (is_empty r.agent)
    && not (is_empty r.host_type)
