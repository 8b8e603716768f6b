-- ===== src/Platform.antt =====
-- What the agent takes from outside the repository: the operating system, boost::filesystem,
-- boost::process, the C++ REST SDK and the ACE reactor. Each call is a parameter.
use license_checker.Prelude.{ℕ, Text, Option, List, ℤ, Bool, Outcome}

-- an entry of /proc: its name, and the first line of its `cmdline` file
pub record ProcEntry : Type 0 where
  pub name : Text
  pub cmdline : Text

-- what a `directory_iterator` yields
pub record DirEntry : Type 0 where
  pub leaf : Text
  pub is_directory : Bool

-- the JSON message that asks for a license
pub record LicenseMessage : Type 0 where
  pub unp : Text
  pub request : Text
  pub agent_id : Text
  pub host_type_id : Text

-- `body` is what `extract_json().get()` gives or throws
pub record HttpResponse (J : Type 0) : Type 0 where
  pub status_code : ℕ
  pub content_type : Text
  pub body : Outcome J

-- The successive calls of the HTTP client: each throws with an error code and a text, and then the
-- steady clock reads the number given, up to the call that is answered.
pub data Calls (J : Type 0) : Type 0 where
  answered : HttpResponse J → Calls J
  failed : ℤ → Text → ℕ → Calls J → Calls J

-- `D` is the state of the machine, `J` the type `web::json::value`.
pub record Platform (D J : Type 0) : Type 0 where
  -- the day of the month that a new `ACE_Date_Time` has
  pub day : D → ℕ
  -- `none` where /proc cannot be opened
  pub proc : D → Option (List ProcEntry)
  -- `kill(pid, SIGTERM) == 0`
  pub kill : D → ℤ → Bool × D
  -- `none` where the directory does not exist; what is thrown is the `filesystem_error`, which is a
  -- `runtime_error`, of `exists`, of the iterator or of the status of an entry
  pub listing : D → Text → Outcome (Option (List DirEntry))
  -- `none` where the file does not open
  pub read_file : D → Text → Option Text
  -- `none` where the file does not open for writing
  pub write_file : D → Text → Text → Option D
  -- the standard output of a command line, or the `process_error` that starting it throws
  pub exec : D → Text → Outcome Text × D
  pub from_base64 : Text → Outcome Text
  -- what `web::http::uri` and `http_client` throw for an address that they refuse
  pub uri_error : Text → Option Text
  pub client_error : Text → Option Text
  -- the steady clock, in seconds, and the calls of the HTTP client for an address and a message
  pub clock : D → ℕ
  pub request : D → Text → LicenseMessage → Calls J
  -- `mime_types::application_json` and `mime_types::text_plain_utf8`
  pub application_json : Text
  pub text_plain_utf8 : Text
  -- `operator[]`, `object::at`, and the conversions of a JSON value
  pub member : J → Text → Outcome J
  pub at : J → Text → Outcome J
  pub is_null : J → Bool
  pub as_object : J → Outcome J
  pub as_array : J → Outcome (List J)
  pub as_string : J → Outcome Text
  pub as_integer : J → Outcome ℤ

-- What a task of the agent changes: the machine, the messages sent to the monitor on port 8005,
-- the delay in seconds of its one pending timer, and the counter of days with nothing to do.
pub record World (D : Type 0) : Type 0 where
  pub disk : D
  pub sent : List Text
  pub timer : Option ℤ
  pub day_counter : ℕ
