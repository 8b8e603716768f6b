-- ===== src/Client.antt =====
-- client/client_license.cpp and client/client_license.h: the request for a license and the reading
-- of the answer. The HTTP client and the JSON values are the C++ REST SDK's, and so parameters.
pub mod Frames
pub mod Requests
pub mod Retries
pub mod Reads
pub mod Answers
mod Types
unfoldable pub use Types.*
use license_checker.Config.{Options}
use license_checker.License.{generate_machine_uid}
use license_checker.Platform.{
  Platform, LicenseMessage, HttpResponse, Calls, answered, failed, World,
}
use license_checker.Prelude.{
  ℕ, ℤ, pos, pos_part, ltb, Text, codes, c_str, text_eq, is_empty, to_string, ◌==◌, ◌+◌, ◌++◌, Bool,
  true, false, not, ◌&&◌, Option, none, some, List, [], ◌∷◌, Outcome, ok, throws, fault, Exception,
  runtime_error, http_exception, uri_exception, invalid_argument, Action, pure, throw, undefined,
  gets, lift, ◌>>=◌, ◌>>◌, if◌then◌else◌,
}

abbrev pub make_request_message : LicenseRequest → LicenseMessage
make_request_message r = record {
  unp = r.unp;
  request = r.uid;
  agent_id = r.agent;
  host_type_id = r.host_type;
}

-- `LicenseExtractor`, its `result_` apart
pub record Extractor : Type 0 where
  pub address : Text
  pub attempt : ℕ
  pub request_license : LicenseRequest

-- `LicenseChecker::make_license_extractor`
abbrev Extracting : Type 0 → Type 0
Extracting = Action LicenseResult

module _ {J : Type 0} where
  -- The loop of `send_request`: a failed call is repeated until the clock is past the deadline.
  unfoldable pub retry : ℕ → Calls J → Extracting (HttpResponse J)
  retry deadline (answered response) r = (ok response, r)
  retry deadline (failed code what now later) r =
      let again = retry deadline later r in
      if ltb deadline now
      then (
        throws (http_exception code what),
        record r { errors = some (record no_errors { code = some code }) },
      )
      else again

-- what a constructor throws, if it throws
abbrev pub raise : {S : Type 0} → (Text → Exception) → Option Text → Action S (Unit {0})
raise e none = pure tt
raise e (some what) = throw (e what)

module _ {D J : Type 0} (os : Platform D J) where
  -- the constructor of `LicenseExtractor`
  unfoldable pub new_extractor : Options → ℕ → Text → Action (World D) Extractor
  new_extractor o attempt uid = do
    raise invalid_argument (os.client_error o.license_manager_uri)
    pure (record {
      address = o.license_manager_uri;
      attempt = attempt;
      request_license = record { uid = uid; unp = o.unp; agent = o.agent_id; host_type = o.prod };
    })

  -- `LicenseChecker::make_license_extractor`
  unfoldable pub make_license_extractor : Options → ℕ → Action (World D) Extractor
  unfolding new_extractor
  make_license_extractor o attempt = do
    raise uri_exception (os.uri_error o.license_manager_uri)
    uid ← generate_machine_uid os o
    new_extractor o attempt uid

  unfoldable pub send_request : Extractor → D → Extracting (HttpResponse J)
  send_request x d =
      if not (is_valid x.request_license)
      then throw (runtime_error (codes "message for request is empty"))
      else retry (os.clock d + x.attempt)
          (os.request d x.address (make_request_message x.request_license))

  at_text : J → Text → Extracting Text
  at_text j key = do v ← lift (os.at j key); lift (os.as_string v)

  pub member_text : J → Text → Extracting Text
  member_text j key = do v ← lift (os.member j key); lift (os.as_string v)

  -- the body of the loop over `fieldErrors`
  read_field_error : J → Extracting FieldError
  unfolding at_text
  read_field_error j = do
    field ← lift (os.as_object j)
    message ← at_text field (codes "message")
    validation ← at_text field (codes "validationErrorName")
    path ← at_text field (codes "fieldPath")
    pure (record { message = message; field_name = path; validation_error_name = validation })

  read_field_errors : List J → ErrorReport → Text → Extracting (ErrorReport × Text)
  unfolding read_field_error
  read_field_errors [] report error = pure (report, error)
  read_field_errors (j ∷ fields) report error = do
    e ← read_field_error j
    read_field_errors fields (record report { field_errors = report.field_errors ++ e ∷ [] })
        (error ++ (codes ", fieldPath: " ++ (e.field_name ++ (b' ' ∷ e.message))))

  read_unless_null : J → ErrorReport → Text → Extracting (ErrorReport × Text)
  unfolding read_field_errors
  read_unless_null fields report error =
      if not (os.is_null fields)
      then (do array ← lift (os.as_array fields); read_field_errors array report error)
      else pure (report, error)

  set_errors : ErrorReport → Extracting (Unit {0})
  set_errors report r = (ok tt, record r { errors = some report })

  -- status 422: the text of the error grows by what the server explains
  explain : HttpResponse J → ErrorReport → Text → Extracting Text
  unfolding member_text read_unless_null set_errors
  explain response report error = do
    json ← lift response.body
    user ← member_text json (codes "userMessage")
    fields ← lift (os.member json (codes "fieldErrors"))
    read ← read_unless_null fields (record report { user_message = user }) (error ++ (b' ' ∷ user))
    set_errors read.0
    pure read.1

  unfoldable pub processing_http_errors : HttpResponse J → Extracting (Unit {0})
  unfolding explain
  processing_http_errors response =
      let error = codes "Fault connection: status code - " ++ to_string response.status_code in
      let report = record no_errors { developer_message = error } in
      if response.status_code == 422
      then (do text ← explain response report error; throw (runtime_error (c_str text)))
      else if response.status_code == 502
      then (do set_errors report; throw (runtime_error (c_str error)))
      else throw (runtime_error (c_str error))

  -- a field of `hostLicense` that stays as it is where the JSON has null
  text_or : Text → J → Extracting Text
  text_or old v = if not (os.is_null v) then lift (os.as_string v) else pure old

  int_or : ℤ → J → Extracting ℤ
  int_or old v = if not (os.is_null v) then lift (os.as_integer v) else pure old

  pub read_host_license : J → Extracting HostLicense
  unfolding text_or int_or
  read_host_license json = do
    license ← lift (os.member json (codes "license")) >>= text_or []
    month ← lift (os.member json (codes "month")) >>= int_or (pos 0)
    year ← lift (os.member json (codes "year")) >>= int_or (pos 0)
    pure (record { year = year; month = month; license = license })

  set_host_license : HostLicense → Extracting (Unit {0})
  set_host_license h r = (ok tt, record r { host_license = some h })

  set_host_status : HostStatus → Extracting (Unit {0})
  set_host_status h r = (ok tt, record r { host_status = some h })

  read_license_unless_null : J → Extracting (Unit {0})
  unfolding read_host_license set_host_license
  read_license_unless_null json =
      if not (os.is_null json) then (do h ← read_host_license json; set_host_license h) else pure tt

  read_host_status : J → Extracting HostStatus
  unfolding set_host_status
  read_host_status json = do
    object ← lift (os.as_object json)
    id_json ← lift (os.at object (codes "id"))
    id ← lift (os.as_integer id_json)
    name_json ← lift (os.at object (codes "name"))
    name ← lift (os.as_string name_json)
    set_host_status (record { id = id; name = name })
    pure (record { id = id; name = name })

  read_license_if : Bool → J → Extracting (Unit {0})
  unfolding read_license_unless_null
  read_license_if true json = do
    license ← lift (os.member json (codes "hostLicense"))
    read_license_unless_null license
  read_license_if false json = pure tt

  set_message : Text → Extracting (Unit {0})
  set_message m r = (ok tt, record r { message = m })

  -- Where `hostStatus` is null the function ends with no `return`.
  read_answer : J → Extracting (Unit {0})
  unfolding set_message member_text read_host_status read_license_if is_active
  read_answer json = do
    message ← member_text json (codes "message")
    set_message message
    status ← lift (os.member json (codes "hostStatus"))
    if not (os.is_null status)
        then (do s ← read_host_status status; read_license_if (is_active s) json)
        else undefined

  set_status_code : ℕ → Extracting (Unit {0})
  set_status_code n r = (ok tt, record r { status_code = some n })

  set_error_type : Extracting (Unit {0})
  unfolding set_errors
  set_error_type = set_errors (record no_errors { error_type = os.text_plain_utf8 })

  -- an answer with status 200
  accept : HttpResponse J → Extracting (Unit {0})
  unfolding read_answer set_error_type
  accept response =
      if not (text_eq response.content_type os.application_json)
      then (do
        set_error_type
        throw (
            http_exception mime_types_code (codes "ERROR: server returned " ++ os.text_plain_utf8)))
      else (do json ← lift response.body; read_answer json)

  unfoldable pub processing : Extractor → D → Extracting (Unit {0})
  unfolding set_status_code accept
  processing x d = do
    response ← send_request x d
    set_status_code response.status_code
    if response.status_code == 200
        then accept response
        else (do processing_http_errors response; undefined)

  -- the result that the caller holds, which an exception leaves behind
  unfoldable pub processing_license : Extractor → Action (World D) LicenseResult
  processing_license x w =
      let (r, result) = processing x w.disk new_result in ((lift r >>= λ _. pure result) w)
