-- ===== src/Tests/Windows.antt =====
-- The theorems on the Windows service, at inputs.
use license_checker.Prelude.{
  ℕ, List, fault, not, ◌<◌, ◌↔◌, if◌then◌else◌, pos, Text, codes, text_eq, c_str, atoi, find_last,
  length, ◌+◌, ◌≤◌, true, false, some, [], ◌∷◌, ◌++◌, ok, ◌≡◌, refl, ap, arith,
}
use license_checker.Config.{
  Options, create_root, read_options, read_entries, get_number, get_value, check_range,
}
use license_checker.Tools.Windows.{split_file_name}
use license_checker.Config.Windows.{init, init_body, name_license}
use license_checker.Service.{Agent}
use license_checker.Tests.Agent.{agent, read_tree}
use license_checker.Tests.Machine.{os, machine}
use license_checker.Windows.Changes.{
  Change, IsChange, is_changed, print_changes, size_of_all, processing-is_changed,
}
use license_checker.Windows.Notifications.{ComCalls, new_notificator}
use license_checker.Windows.Notifications.Lifetime.{is_connected}
use license_checker.Windows.NtService.Ends.{failures}
use license_checker.Windows.NtService.Life.{stops, start-ends}
use license_checker.Windows.NtService.{
  NtService, Status, Event, controlled, turned, other_control, control_shutdown, run, shut_down,
  StartCalls, starting, start, start_tasks, own_reactor, start_after,
}
use license_checker.Windows.Rounds.{Reports, svc-stops}
use license_checker.Windows.{Watcher, Round, processing, svc}

-- two changes, of the files `ab` and `ini`
abbrev first_change : Change
first_change = record { action = 1; name = b'a' ∷ b'b' ∷ []; padding = [] }

abbrev second_change : Change
second_change = record { action = 3; name = b'i' ∷ b'n' ∷ b'i' ∷ []; padding = 0 ∷ 0 ∷ [] }

first-IsChange : IsChange first_change
first-IsChange = record {
  is_action = omega arith;
  is_short = omega arith;
  is_name = ((omega arith, omega arith), ((omega arith, omega arith), tt));
}

second-IsChange : IsChange second_change
second-IsChange = record {
  is_action = omega arith;
  is_short = omega arith;
  is_name =
      ((omega arith, omega arith), ((omega arith, omega arith), ((omega arith, omega arith), tt)));
}

abbrev ini : Text
ini = b'i' ∷ b'n' ∷ b'i' ∷ []

changes_fit : size_of_all first_change (second_change ∷ []) ≤ 61440
unfolding size_of_all
changes_fit = omega arith

processing-is_changed_example :
    processing ini 2 (print_changes first_change (second_change ∷ []) []) 61440 0
    ≡ some (ok (is_changed ini first_change (second_change ∷ [])))
processing-is_changed_example =
    processing-is_changed ini [] 61440 2 first_change (second_change ∷ []) first-IsChange
      (second-IsChange, tt) changes_fit (omega arith) (omega arith)

-- a round without the file, and one with it
abbrev quiet : Round
quiet = record { is_opened = true; is_waited = true; buffer = print_changes first_change [] [] }

abbrev loud : Round
loud = record { is_opened = true; is_waited = true; buffer = print_changes second_change [] [] }

first_fits : size_of_all first_change [] ≤ 61440
unfolding size_of_all
first_fits = omega arith

second_fits : size_of_all second_change [] ≤ 61440
unfolding size_of_all
second_fits = omega arith

quiet-Reports : Reports ini 1 false quiet
unfolding is_changed text_eq c_str
quiet-Reports = record {
  is_opened = refl;
  is_waited = refl;
  scanned =
      processing-is_changed ini [] 61440 1 first_change [] first-IsChange tt first_fits
        (omega arith) (omega arith);
}

loud-Reports : Reports ini 1 true loud
unfolding is_changed text_eq c_str
loud-Reports = record {
  is_opened = refl;
  is_waited = refl;
  scanned =
      processing-is_changed ini [] 61440 1 second_change [] second-IsChange tt second_fits
        (omega arith) (omega arith);
}

abbrev watcher : Watcher
watcher = record { is_stopped = false; is_signalled = false; is_active = false; open_handles = 0 }

svc-stops_example :
    svc ini 1 ((quiet ∷ quiet ∷ []) ++ loud ∷ quiet ∷ []) watcher
    ≡ some (
        ok (record watcher {
          is_stopped = true;
          is_signalled = true;
          is_active = true;
          open_handles = 0 + length (quiet ∷ quiet ∷ []);
        }))
svc-stops_example =
    svc-stops ini 1 (quiet ∷ quiet ∷ []) loud (quiet ∷ []) watcher
      (quiet-Reports, (quiet-Reports, tt)) loud-Reports

-- the calls of COM up to the connection
abbrev calls : ComCalls
calls = record {
  initialize = true;
  initialize_security = true;
  create_locator = true;
  connect_server = false;
  set_proxy_blanket = true;
  create_apartment = true;
  create_stub = true;
  query_interface = true;
  exec_query = true;
}

abbrev service : NtService
service = record {
  agent = agent;
  status = starting;
  notices = 0;
  is_looping = false;
  is_stopped = false;
  is_owner = false;
  notificator = new_notificator;
  watcher = watcher;
}

-- what is read of a file in which every entry is 7
abbrev seven : Text
seven = b'7' ∷ []

abbrev sevens : Options
sevens = record {
  unp = seven;
  prod = seven;
  lic_app = seven;
  agent_id = seven;
  lic_file = seven;
  service_path = codes "/";
  make_uid_cmd = seven;
  uid_file_name = seven;
  lic_file_name = seven;
  kill_file_name = seven;
  log_files_path = codes "/logs";
  day_license_check = pos 7;
  day_license_update = pos 7;
  openvpn_file_path = seven;
  next_day_waiting_hours = pos 7;
  license_manager_uri = seven;
  next_try_get_license_mins = pos 7;
}

init-sevens :
    init os read_tree machine agent.parser
    ≡ (ok (pos 0), record agent.parser { options = some sevens })
unfolding init init_body name_license create_root read_options read_entries get_number get_value
    check_range text_eq codes atoi c_str split_file_name find_last
init-sevens = refl

abbrev start_calls : StartCalls
start_calls = record {
  report_status = true;
  com_calls = calls;
  register_event = true;
  register_signal = true;
}

abbrev owner : NtService
owner = own_reactor true service

abbrev reader : Agent
reader = record agent { parser = record agent.parser { options = some sevens } }

abbrev started : NtService
started = start_tasks start_calls sevens (record owner { agent = reader })

start-sevens : start os read_tree machine start_calls service ≡ ok (some started)
unfolding start own_reactor start_after
start-sevens = ap (start_after start_calls owner) init-sevens

-- the base class leaves the status alone
abbrev inherited : ℕ → Status → Status
inherited code status = status

abbrev controls : List Event
controls = controlled (other_control 4) ∷ turned ∷ controlled control_shutdown ∷ []

start-ends_example :
    ((run inherited (controls ++ turned ∷ []) started).is_looping ≡ false
      ↔ (0 < service.notices + failures start_calls + stops controls))
    × ((run inherited (controls ++ turned ∷ []) started).is_stopped
        ≡ not (run inherited (controls ++ turned ∷ []) started).is_looping)
    × (shut_down (run inherited (controls ++ turned ∷ []) started) ≡ (
        if is_connected start_calls.com_calls
        then ok (record (run inherited (controls ++ turned ∷ []) started) {
          notificator = new_notificator;
        })
        else fault))
start-ends_example =
    start-ends os read_tree machine start_calls service started inherited controls start-sevens refl
