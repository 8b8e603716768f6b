-- ===== src/Service.antt =====
-- nx_service: the Linux service, its handlers of inotify and the tasks that it sets up; nt_service
-- has its command line on Windows.
pub mod Notices
pub mod Process
pub mod Reload
use license_checker.Config.{Options, Parser, PropTree, init, make_paths}
use license_checker.Platform.{Platform}
use license_checker.Prelude.{
  ℕ, suc, ℤ, pos, negsuc, ltb, Text, text_eq, ◌+◌, Bool, true, false, not, Option, none, some,
  Outcome, ok, throws, fault, if◌then◌else◌,
}

-- What the service sets in its two tasks: the members, and the delay of the pending timer.
pub record Settings : Type 0 where
  pub waiting_hours : ℤ
  pub try_mins : ℤ
  pub stopping_name : Text
  pub license_timer : Option ℤ
  pub killer_timer : Option ℤ

-- The service: the parser singleton, the tasks, and whether SIGINT was raised.
pub record Agent : Type 0 where
  pub parser : Parser
  pub settings : Settings
  pub is_interrupted : Bool

-- `reshedule_tasks`, and the same values at the start in `run`
unfoldable pub settings_of : Options → Settings
settings_of o = record {
  waiting_hours = o.next_day_waiting_hours;
  try_mins = o.next_try_get_license_mins;
  stopping_name = o.kill_file_name;
  license_timer = some (pos 5);
  killer_timer = some (pos 5);
}

-- The numbers of `PARSER::instance()->options()` are uninitialised before the first success.
unfoldable pub reshedule_tasks : Agent → Outcome Agent
reshedule_tasks a = elim a.parser.options [
  | none ↦ fault
  | some o ↦ ok (record a { settings = settings_of o })
]

-- an `inotify_event`: whether it has a name, its mask, and the name
pub record Notice : Type 0 where
  pub has_name : Bool
  pub is_directory : Bool
  pub is_watched : Bool
  pub name : Text

-- whether the notice is one of the file, after the tests of the mask
unfoldable pub concerns : Text → Notice → Bool
concerns file n =
    if n.has_name
    then if n.is_directory then false else if n.is_watched then text_eq file n.name else false
    else false

-- `iterations_++ > 1`, which resets the counter: whether the notice is acted on, and the counter
unfoldable pub count_notice : ℕ → Bool × ℕ
count_notice iterations = if ltb 1 iterations then (false, 0) else (true, suc iterations)

-- The result of `init` decides between SIGINT and the new schedule.
unfoldable pub after_init : Agent → Outcome ℤ × Parser → Outcome Agent
after_init a (ok (pos n), p) = reshedule_tasks (record a { parser = p })
after_init a (ok (negsuc n), p) = ok (record a { parser = p; is_interrupted = true })
after_init a (throws e, p) = throws e
after_init a (fault, p) = fault

unfoldable pub with_count : ℕ → Outcome Agent → Outcome (Agent × ℕ)
with_count n (ok a) = ok (a, n)
with_count n (throws e) = throws e
with_count n fault = fault

module _ {D J : Type 0} (os : Platform D J) (read_ini : Text → Outcome PropTree) (disk : D) where
  unfoldable pub reload : Agent → Outcome Agent
  unfolding after_init
  reload a = after_init a (init os read_ini disk a.parser)

  unfoldable pub reload_if : Bool × ℕ → Agent → Outcome (Agent × ℕ)
  unfolding with_count
  reload_if (true, n) a = with_count n (reload a)
  reload_if (false, n) a = ok (a, n)

  -- `Config_Handler::handle_input` after a read that succeeds; a read that fails changes nothing
  unfoldable pub handle_config_notice : Text → Notice → Agent × ℕ → Outcome (Agent × ℕ)
  unfolding reload_if
  handle_config_notice file n (a, iterations) =
      if concerns file n then reload_if (count_notice iterations) a else ok (a, iterations)

  -- the tasks that `run` makes, where the configuration was read
  unfoldable pub start_tasks : Agent → Outcome ℤ × Parser → Outcome (Option Agent)
  start_tasks a (ok (pos n), p) = elim (reshedule_tasks (record a { parser = p })) [
    | ok b ↦ ok (some b)
    | throws e ↦ throws e
    | fault ↦ fault
  ]
  start_tasks a (ok (negsuc n), p) = ok none
  start_tasks a (throws e, p) = throws e
  start_tasks a (fault, p) = fault

  -- `Service::run` up to the event loop; `parsed` is whether the arguments are right. Where they or
  -- the configuration are wrong it raises SIGINT, which ends the process, since its handler is
  -- registered later: `none`.
  unfoldable pub set_up : Bool → Agent → Outcome (Option Agent)
  unfolding start_tasks
  set_up false a = ok none
  set_up true a = start_tasks a (make_paths os read_ini disk a.parser)

-- `Itvpn_Exec_Handler::handle_input`: whether the worker task is opened, and the counter
unfoldable pub handle_exec_notice : Text → Notice → ℕ → Bool × ℕ
handle_exec_notice file n iterations =
    if concerns file n then count_notice iterations else (false, iterations)
