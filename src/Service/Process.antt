-- ===== src/Service/Process.antt =====
-- nt_service/initializer.cpp: the command line of the service on Windows. `ACE_Get_Opt` is
-- a parameter: what comes is the options that it gives, and `exit(1)` is `none`.
pub mod Commands
use license_checker.Prelude.{
  ℤ, pos, negsuc, Text, c_str, atoi, leb_ℤ, Bool, true, false, not, ◌&&◌, ◌||◌, Option, none, some,
  List, [], ◌∷◌, if◌then◌else◌,
}

-- what `get_opt()` gives; `bare_install` is a `-i` that has no value
pub data Flag : Type 0 where
  install_flag : Text → Flag
  remove_flag : Flag
  start_flag : Flag
  kill_flag : Flag
  type_flag : Text → Flag
  debug_flag : Flag
  bare_install : Flag
  unknown_flag : Flag

pub record Process : Type 0 where
  pub opt_install : Bool
  pub opt_remove : Bool
  pub opt_start : Bool
  pub opt_kill : Bool
  pub opt_type : Bool
  pub opt_debug : Bool
  pub opt_startup : ℤ

abbrev pub new_process : Process
new_process = record {
  opt_install = false;
  opt_remove = false;
  opt_start = false;
  opt_kill = false;
  opt_type = false;
  opt_debug = false;
  opt_startup = pos 0;
}

-- `print_usage_and_die` where the number is not positive
abbrev positive : ℤ → Process → Option Process
positive n p = if leb_ℤ n (pos 0) then none else some p

module _ (default_startup : ℤ) where
  -- the `switch` of `parse_args`
  unfoldable pub parse_flag : Flag → Process → Option Process
  parse_flag (install_flag arg) p =
      positive (atoi (c_str arg)) (record p { opt_install = true; opt_startup = atoi (c_str arg) })
  parse_flag remove_flag p = some (record p { opt_remove = true })
  parse_flag start_flag p = some (record p { opt_start = true })
  parse_flag kill_flag p = some (record p { opt_kill = true })
  parse_flag (type_flag arg) p =
      positive (atoi (c_str arg)) (record p { opt_type = true; opt_startup = atoi (c_str arg) })
  parse_flag debug_flag p = some (record p { opt_debug = true })
  parse_flag bare_install p = some (record p { opt_install = true; opt_startup = default_startup })
  parse_flag unknown_flag p = none

  unfoldable pub parse_args : List Flag → Process → Option Process
  parse_args [] p = some p
  parse_args (f ∷ flags) p = elim (parse_flag f p) [ none ↦ none | some q ↦ parse_args flags q ]

-- what `run` asks of the service manager, or runs itself
pub data Command : Type 0 where
  insert : ℤ → Command
  remove : Command
  start_svc : Command
  stop_svc : Command
  startup : ℤ → Command
  run_debug : Command
  run_service : Command

-- `none` is `print_usage_and_die`
unfoldable pub choose_command : Process → Option Command
choose_command p =
    if p.opt_install && not p.opt_remove
    then some (insert p.opt_startup)
    else if p.opt_remove && not p.opt_install
    then some remove
    else if p.opt_start && p.opt_kill
    then none
    else if p.opt_start
    then some start_svc
    else if p.opt_kill
    then some stop_svc
    else if p.opt_type
    then some (startup p.opt_startup)
    else if p.opt_debug
    then some run_debug
    else some run_service

unfoldable pub run : ℤ → List Flag → Option Command
run default_startup flags = elim (parse_args default_startup flags new_process) [
  | none ↦ none
  | some p ↦ choose_command p
]
