-- ===== src/Tests/Daemon.antt =====
-- The theorems on the agent as it runs, on the machine of the tests.
use license_checker.Config.Bounds.{IsAccepted}
use license_checker.Daemon.{
  Daemon, Event, license_due, killer_due, config_changed, openvpn_noticed, machine_changed, run,
}
use license_checker.Daemon.Provenance.{IsFileSystem, IsUsed, Spares, Traces, run-Traces}
use license_checker.Daemon.Sound.{IsSound, five-IsDue}
use license_checker.Daemon.Start.{Starts, set_up-Starts}
use license_checker.Daemon.Upkeep.{Sustains, run-IsSound}
use license_checker.Prelude.{
  codes, text_eq, find_last, drop, true, false, none, List, [], ◌∷◌, All, inr, refl, arith,
}
use license_checker.Service.{Agent, Notice, settings_of, set_up}
use license_checker.Tests.Agent.{agent, written, read_tree, read_tree-fault}
use license_checker.Tests.Machine.{Machine, os, options, machine}
use license_checker.Tools.{split_file_name}

options-IsAccepted : IsAccepted options
unfolding codes split_file_name find_last drop
options-IsAccepted = record {
  unp_given = refl;
  prod_given = refl;
  agent_given = refl;
  app_given = refl;
  file_given = refl;
  cmd_given = refl;
  uid_given = refl;
  uri_given = refl;
  kill_given = refl;
  openvpn_given = refl;
  update_day = record { positive = omega arith; at_most = omega arith };
  check_day = record { positive = omega arith; at_most = omega arith };
  retry_mins = record { positive = omega arith; at_most = omega arith };
  wait_hours = record { positive = omega arith; at_most = omega arith };
  name_split = refl;
}

abbrev started : Agent
started = record agent { settings = settings_of options }

started-IsSound : IsSound started
unfolding settings_of
started-IsSound = record {
  options = options;
  is_read = refl;
  accepted = options-IsAccepted;
  waits = refl;
  retries = refl;
  names = refl;
  killer_is_due = five-IsDue;
  license_is_due = inr five-IsDue;
}

abbrev daemon : Daemon Machine
daemon = record {
  agent = started;
  disk = machine;
  sent = [];
  day_counter = 0;
  config_count = 0;
  exec_count = 0;
}

abbrev notice : Notice
notice = record { has_name = true; is_directory = false; is_watched = true; name = codes "vpn" }

-- On the next day the task that stops programs is due, then openvpn is used, then the file of the
-- configuration is touched.
abbrev events : List (Event Machine)
events =
    license_due
    ∷ machine_changed (λ d. record d { today = 8 })
    ∷ killer_due
    ∷ openvpn_noticed notice
    ∷ config_changed (record notice { name = codes "c.ini" })
    ∷ []

run-IsSound_example : Sustains (run os read_tree (codes "c.ini") (codes "vpn") events daemon)
run-IsSound_example =
    run-IsSound os read_tree (codes "c.ini") (codes "vpn") read_tree-fault events daemon
      started-IsSound

set_up-Starts_example : Starts (set_up os read_tree machine true agent)
set_up-Starts_example = set_up-Starts os read_tree read_tree-fault machine true agent

files : IsFileSystem os (codes "/lic")
files = record { read-write = written; read-kill = λ d pid. refl; read-exec = λ d cmd. refl }

spared : All (Spares os (codes "/lic")) events
spared = (tt, (λ d. refl, (tt, (tt, (tt, tt)))))

run-Traces_example :
    Traces os
      (codes "/lic")
      (IsUsed os read_tree (codes "c.ini") (codes "vpn") daemon events)
      none
      (run os read_tree (codes "c.ini") (codes "vpn") events daemon)
unfolding text_eq codes
run-Traces_example =
    run-Traces os (codes "/lic") read_tree (codes "c.ini") (codes "vpn") files events daemon spared
