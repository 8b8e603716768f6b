-- ===== src/Daemon.antt =====
-- The agent as it runs on Linux: nx_service/nxsvc.cpp, the two tasks and the two handlers of inotify
-- on one machine. A handler, or a run of a task, is one step; `run` takes the steps in any order.
pub mod Sound
pub mod Start
pub mod Upkeep
pub mod Provenance
use license_checker.Config.{Options, PropTree}
use license_checker.Platform.{Platform, World}
use license_checker.Prelude.{
  ℕ, ℤ, Text, Bool, true, false, Option, none, some, List, [], ◌∷◌, Outcome, ok, throws, fault,
}
use license_checker.Service.{Agent, Notice, Settings, handle_config_notice, handle_exec_notice}
use license_checker.Tasks.EventSink
use license_checker.Tasks.GetLicense
use license_checker.Tasks.ProcessKiller

-- the service and its tasks, the machine, what was sent to the monitor, and the three counters
pub record Daemon (D : Type 0) : Type 0 where
  pub agent : Agent
  pub disk : D
  pub sent : List Text
  pub day_counter : ℕ
  pub config_count : ℕ
  pub exec_count : ℕ

-- What can happen next. `machine_changed` is what the other programs do.
pub data Event (D : Type 0) : Type 0 where
  license_due : Event D
  killer_due : Event D
  config_changed : Notice → Event D
  openvpn_noticed : Notice → Event D
  machine_changed : (D → D) → Event D

module _ {D : Type 0} where
  -- the world that a task finds, with its own timer
  abbrev pub world_of : Daemon D → Option ℤ → World D
  world_of s timer = record {
    disk = s.disk;
    sent = s.sent;
    timer = timer;
    day_counter = s.day_counter;
  }

  -- what a task leaves behind: an exception that leaves `svc` ends the process
  unfoldable pub after_task :
      Daemon D → (Option ℤ → Settings) → Outcome (Unit {0}) × World D → Outcome (Daemon D)
  after_task s set (ok u, w) = ok (record s {
    agent = record s.agent { settings = set w.timer };
    disk = w.disk;
    sent = w.sent;
    day_counter = w.day_counter;
  })
  after_task s set (throws e, w) = throws e
  after_task s set (fault, w) = fault

  abbrev pub set_license_timer : Daemon D → Option ℤ → Settings
  set_license_timer s t = record s.agent.settings { license_timer = t }

  abbrev pub set_killer_timer : Daemon D → Option ℤ → Settings
  set_killer_timer s t = record s.agent.settings { killer_timer = t }

  unfoldable pub set_agent : Daemon D → Outcome (Agent × ℕ) → Outcome (Daemon D)
  set_agent s (ok (a, n)) = ok (record s { agent = a; config_count = n })
  set_agent s (throws e) = throws e
  set_agent s fault = fault

  -- The tasks read the options of the singleton: before the first success they are uninitialised.
  abbrev pub with_options : Option Options → (Options → Outcome (Daemon D)) → Outcome (Daemon D)
  with_options none f = fault
  with_options (some o) f = f o

  -- A timer that is not pending does not fire.
  abbrev pub if_pending : Option ℤ → Daemon D → Outcome (Daemon D) → Outcome (Daemon D)
  if_pending none s next = ok s
  if_pending (some n) s next = next

module _ {D J : Type 0} (os : Platform D J) (read_ini : Text → Outcome PropTree)
    (config_file openvpn_file : Text) where
  run_license : Daemon D → Options → Outcome (Daemon D)
  run_license s o = after_task s (set_license_timer s) (
      GetLicense.handle_timeout os o s.agent.settings.try_mins s.agent.settings.waiting_hours
        (world_of s s.agent.settings.license_timer))

  run_killer : Daemon D → Options → Outcome (Daemon D)
  run_killer s o = after_task s (set_killer_timer s) (
      ProcessKiller.handle_timeout os o s.agent.settings.stopping_name
        s.agent.settings.waiting_hours (world_of s s.agent.settings.killer_timer))

  -- This task has no timer.
  run_sink : Daemon D → Options → Outcome (Daemon D)
  run_sink s o = after_task s (λ t. s.agent.settings) (EventSink.svc os o (world_of s none))

  sink_if : Bool × ℕ → Daemon D → Outcome (Daemon D)
  unfolding run_sink
  sink_if (true, n) s = with_options s.agent.parser.options (run_sink (record s { exec_count = n }))
  sink_if (false, n) s = ok (record s { exec_count = n })

  unfoldable pub step : Event D → Daemon D → Outcome (Daemon D)
  unfolding run_license run_killer sink_if
  step license_due s =
      if_pending s.agent.settings.license_timer s
        (with_options s.agent.parser.options (run_license s))
  step killer_due s =
      if_pending s.agent.settings.killer_timer s
        (with_options s.agent.parser.options (run_killer s))
  step (config_changed n) s =
      set_agent s (handle_config_notice os read_ini s.disk config_file n (s.agent, s.config_count))
  step (openvpn_noticed n) s = sink_if (handle_exec_notice openvpn_file n s.exec_count) s
  step (machine_changed f) s = ok (record s { disk = f s.disk })

  unfoldable pub run : List (Event D) → Daemon D → Outcome (Daemon D)
  run [] s = ok s
  run (e ∷ events) s = elim (step e s) [ ok t ↦ run events t | throws x ↦ throws x | fault ↦ fault ]
