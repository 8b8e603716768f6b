-- ===== src/Tests/Agent.antt =====
-- The theorems on the agent, at inputs on the machine of the tests.
use license_checker.Config.{Parser, PropTree, init}
use license_checker.License.Dates.{print_date, extract_license_date-print_date}
use license_checker.Config.Bounds.{Initializes, init-Initializes}
use license_checker.License.{
  extract_license_date, read_verdict, is_license_check_day, is_license_file, find_file,
}
use license_checker.License.Verdicts.{IsVerdict, read_verdict_lem}
use license_checker.Platform.{Platform, World}
use license_checker.Prelude.Frames.{Ends}
use license_checker.Prelude.{
  text_eq, pos, Text, codes, Bool, true, false, none, some, [], ◌∷◌, if◌then◌else◌, Outcome, ok,
  fault, ◌≡◌, ◌≢◌, refl, arith,
}
use license_checker.Service.{Agent, reload}
use license_checker.Service.Process.{install_flag, kill_flag, run}
use license_checker.Service.Process.Commands.{SetsStartup, run-SetsStartup}
use license_checker.Service.Reload.{Reloads, reload-Reloads}
use license_checker.Tasks.EventSink
use license_checker.Tasks.EventSink.Saving.{IsLacking, svc-Stores-IsLacking}
use license_checker.Tasks.GetLicense
use license_checker.Tasks.GetLicense.Saving.{IsNewer, svc-Stores}
use license_checker.Tasks.GetLicense.Timer.{Rescheduled, svc-Rescheduled}
use license_checker.Tasks.ProcessKiller
use license_checker.Tasks.ProcessKiller.Verdict.{processes, kill_message, svc-Spares, svc-Stops}
use license_checker.Tasks.Saving.{IsReadBack, saved, Stores}
use license_checker.Tasks.Shared.{lacks_license, hours}
use license_checker.Tests.Machine.{os, options, machine, world, other_day, Machine, Json}
use license_checker.Tools.{terminate_process}
use license_checker.Tools.Processes.{Terminates, terminate_process-Terminates}

-- the laws of the machine
written_when :
    (b : Bool) (d d' : Machine) (text : Text)
    → (if b then some (record d { license = some text }) else none) ≡ some d'
    → d'.license ≡ (if b then some text else d.license)
written_when true d d' text e = ground (arith, e)
written_when false d d' text e = ground (arith, e)

pub written : IsReadBack os (codes "/lic")
unfolding text_eq codes
written d d' file text e = written_when (text_eq file (codes "/lic")) d d' text e

kept :
    {X : Type 0} (f : World Machine → X) (cmd : Text) (w : World Machine)
    → f (record w { disk = (os.exec w.disk cmd).1 }) ≡ f w
kept f cmd w = refl

svc-Rescheduled_example :
    Ends
      (Rescheduled os options (pos 30) (pos 24) world)
      (GetLicense.svc os options (pos 30) (pos 24) world)
svc-Rescheduled_example = svc-Rescheduled os options (pos 30) (pos 24) world

svc-Stores_example :
    Stores os options
      (codes "/lic")
      (IsNewer os options (codes "/lic") (pos 30) (pos 24) none)
      none
      (saved os (codes "/lic") (GetLicense.svc os options (pos 30) (pos 24) world).1)
unfolding text_eq codes
svc-Stores_example =
    svc-Stores os options (codes "/lic") (pos 30) (pos 24) written (kept (saved os (codes "/lic")))
      none world refl

svc-Stores-IsLacking_example :
    Stores os options
      (codes "/lic")
      (IsLacking os options world)
      none
      (saved os (codes "/lic") (EventSink.svc os options world).1)
unfolding text_eq codes
svc-Stores-IsLacking_example =
    svc-Stores-IsLacking os options (codes "/lic") written (kept (saved os (codes "/lic"))) none
      world refl

check_day : is_license_check_day os options world ≡ (ok true, world)
unfolding is_license_check_day
check_day = refl

no_check : ¬ (
    (is_license_check_day os options other_day ≡ (ok true, other_day))
    × ((lacks_license os options other_day).0 ≡ ok true))
unfolding is_license_check_day
no_check (e, h) = ground (arith, e)

svc-Spares_example :
    processes os options
      (codes "vpn")
      (pos 24)
      (ProcessKiller.svc os options (codes "vpn") (pos 24) other_day).1
    ≡ processes os options (codes "vpn") (pos 24) other_day
svc-Spares_example =
    svc-Spares os options (codes "vpn") (pos 24)
      (kept (processes os options (codes "vpn") (pos 24))) other_day no_check

no_license : lacks_license os options world ≡ (ok true, world)
unfolding lacks_license is_license_file find_file
no_license = refl

svc-Stops_example :
    (b : Bool) × (d : Machine) × Terminates os (codes "vpn") machine b d
    × (ProcessKiller.svc os options (codes "vpn") (pos 24) world ≡ (
      ok tt,
      record world {
        disk = d;
        sent = kill_message os options (codes "vpn") (pos 24) b ∷ [];
        timer = some (hours (pos 24));
      },
    ))
svc-Stops_example = svc-Stops os options (codes "vpn") (pos 24) world world check_day no_license

read_verdict_lem_example :
    ((read_verdict os options [] (codes "VALID: yes") world).1 ≡ world)
    × IsVerdict (codes "VALID: yes") (read_verdict os options [] (codes "VALID: yes") world).0
read_verdict_lem_example = read_verdict_lem os options [] world (codes "VALID: yes")

terminate_process-Terminates_example :
    (b : Bool) × (d : Machine) × (terminate_process os (codes "vpn") world
      ≡ (ok b, record world { disk = d }))
    × Terminates os (codes "vpn") machine b d
terminate_process-Terminates_example = terminate_process-Terminates os (codes "vpn") world

-- a tree in which every entry is 7
abbrev pub tree : PropTree
tree = record { is_bare = false; value = λ key. some (codes "7") }

abbrev pub read_tree : Text → Outcome PropTree
read_tree text = ok tree

pub read_tree-fault : (s : Text) → read_tree s ≢ fault
read_tree-fault s = λ e. ground (arith, e)

abbrev pub parser : Parser
parser = record {
  root = tree;
  options = some options;
  file_name = codes "c.ini";
  service_path = codes "/";
  log_file_path = codes "/logs";
  config_file_path = codes "/c.ini";
}

init-Initializes_example :
    Initializes
      (some options)
      (init os read_tree machine parser).0
      (init os read_tree machine parser).1.options
init-Initializes_example = init-Initializes os read_tree read_tree-fault machine parser

abbrev pub agent : Agent
agent = record {
  parser = parser;
  settings = record {
    waiting_hours = pos 1;
    try_mins = pos 1;
    stopping_name = [];
    license_timer = none;
    killer_timer = none;
  };
  is_interrupted = false;
}

reload-Reloads_example : Reloads agent (reload os read_tree machine agent)
reload-Reloads_example = reload-Reloads os read_tree read_tree-fault machine agent

run-SetsStartup_example :
    SetsStartup (pos 2) (omega arith) (run (pos 2) (install_flag (codes "3") ∷ kill_flag ∷ []))
run-SetsStartup_example =
    run-SetsStartup (pos 2) (omega arith) (install_flag (codes "3") ∷ kill_flag ∷ [])

-- the machine with licenses of another date
abbrev dated : Platform Machine Json
dated = record os { from_base64 = λ text. ok (print_date 2018 12 1) }

extract_license_date-print_date_example :
    extract_license_date dated options (b'a' ∷ b'.' ∷ (b'b' ∷ b'.' ∷ b'c' ∷ []))
    ≡ ok (record { day = pos 1; month = pos 12; year = pos 2018 })
extract_license_date-print_date_example =
    extract_license_date-print_date dated options (b'a' ∷ []) (b'b' ∷ []) [] b'c' 2018 12 1
      (refl, tt) (refl, tt) (refl, tt) refl
