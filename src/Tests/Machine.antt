-- ===== src/Tests/Machine.antt =====
-- A machine with two files, a few processes and a license server.
use license_checker.Config.{Options}
use license_checker.Platform.{ProcEntry, HttpResponse, answered, Platform, World}
use license_checker.Prelude.{
  ℕ, ℤ, pos, Text, codes, text_eq, Bool, true, false, Option, none, some, List, [], ◌∷◌, Outcome,
  ok, throws, json_exception, if◌then◌else◌,
}

-- an object is its first field and the object of the others
pub data Json : Type 0 where
  json_null : Json
  json_string : Text → Json
  json_number : ℤ → Json
  json_array : List Text → Json
  json_empty : Json
  json_field : Text → Json → Json → Json

abbrev pub find_field : Json → Text → Outcome Json
find_field (json_field key value rest) name =
    let later = find_field rest name in if text_eq key name then ok value else later
find_field json_empty name = ok json_null
find_field _ name = throws (json_exception (codes "not an object"))

abbrev pub read_string : Json → Outcome Text
read_string (json_string s) = ok s
read_string _ = throws (json_exception (codes "not a string"))

abbrev pub read_number : Json → Outcome ℤ
read_number (json_number n) = ok n
read_number _ = throws (json_exception (codes "not a number"))

abbrev pub is_json_null : Json → Bool
is_json_null json_null = true
is_json_null _ = false

pub record Machine : Type 0 where
  pub today : ℕ
  pub license : Option Text
  pub config : Option Text
  pub processes : List ProcEntry
  pub last_signal : ℤ
  pub printed : Text

abbrev pub good_answer : Json
good_answer = json_field (codes "message") (json_string []) (
    json_field (codes "hostStatus")
      (json_field (codes "id") (json_number (pos 1))
        (json_field (codes "name") (json_string (codes "active")) json_empty))
      (json_field (codes "hostLicense")
        (json_field (codes "license") (json_string (codes "a.b.c")) (
          json_field (codes "month") (json_number (pos 3))
            (json_field (codes "year") (json_number (pos 2019)) json_empty)))
        json_empty))

abbrev pub answer : HttpResponse Json
answer = record { status_code = 200; content_type = codes "json"; body = ok good_answer }

abbrev pub os : Platform Machine Json
os = record {
  day = λ d. d.today;
  proc = λ d. some d.processes;
  kill = λ d pid. (true, record d { last_signal = pid });
  listing = λ d path. elim d.license [
    | none ↦ ok (some [])
    | some text ↦ ok (some (record { leaf = codes "lic"; is_directory = false } ∷ []))
  ];
  read_file = λ d path. if text_eq path (codes "/lic") then d.license else d.config;
  write_file = λ d path text.
      if text_eq path (codes "/lic") then some (record d { license = some text }) else none;
  exec = λ d command. (ok d.printed, d);
  from_base64 = λ text. ok (codes "2018-12-01");
  uri_error = λ address. none;
  client_error = λ address. none;
  clock = λ d. 10;
  request = λ d address message. answered answer;
  application_json = codes "json";
  text_plain_utf8 = codes "text";
  member = find_field;
  at = find_field;
  is_null = is_json_null;
  as_object = λ j. ok j;
  as_array = λ j. ok [];
  as_string = read_string;
  as_integer = read_number;
}

abbrev pub options : Options
options = record {
  unp = codes "1";
  prod = codes "p";
  lic_app = codes "lic";
  agent_id = codes "a";
  lic_file = codes "/lic";
  service_path = codes "/";
  make_uid_cmd = codes "uid";
  uid_file_name = codes "u";
  lic_file_name = codes "lic";
  kill_file_name = codes "vpn";
  log_files_path = codes "/logs";
  day_license_check = pos 7;
  day_license_update = pos 7;
  openvpn_file_path = codes "/vpn";
  next_day_waiting_hours = pos 24;
  license_manager_uri = codes "h";
  next_try_get_license_mins = pos 30;
}

abbrev pub fifty_eight : Text
fifty_eight = codes "0123456789012345678901234567890123456789012345678901234567"

abbrev pub machine : Machine
machine = record {
  today = 7;
  license = none;
  config = some (codes "[LICENSE]");
  processes =
      record { name = codes "self"; cmdline = codes "x" }
      ∷ record { name = codes "12"; cmdline = codes "/bin/vpn" }
      ∷ [];
  last_signal = pos 0;
  printed = fifty_eight;
}

abbrev pub world : World Machine
world = record { disk = machine; sent = []; timer = none; day_counter = 0 }

-- the same on another day
abbrev pub other_day : World Machine
other_day = record world { disk = record machine { today = 8 } }
