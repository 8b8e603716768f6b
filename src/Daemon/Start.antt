-- ===== src/Daemon/Start.antt =====
-- nx_service/nxsvc.cpp, `run`: the agent that is started.
use license_checker.Daemon.Sound.{IsSound, five-IsDue}
use license_checker.Config.Bounds.{Initializes, init-Initializes}
use license_checker.Config.{Options, Parser, PropTree, init, make_paths}
use license_checker.Platform.{Platform}
use license_checker.Prelude.{
  ℤ, pos, negsuc, Text, true, false, Bool, Option, none, some, Outcome, ok, throws, fault, ◌≢◌, inl,
  inr, refl, arith, ◌++◌, codes, c_str,
}
use license_checker.Service.{Agent, settings_of, reshedule_tasks, set_up, start_tasks}
use license_checker.Tools.{split_file_name, split_file_path}

-- What the start of the service ends in: a sound agent, or none.
abbrev pub Starts : Outcome (Option Agent) → Type 0
Starts (ok none) = Unit {0}
Starts (ok (some a)) = IsSound a
Starts (throws e) = ⊥
Starts fault = ⊥

start_tasks-Starts :
    {D J : Type 0} (os : Platform D J) (read_ini : Text → Outcome PropTree) (disk : D) (a : Agent)
    (old : Option Options) (r : Outcome ℤ) (p : Parser)
    → Initializes old r p.options
    → Starts (start_tasks os read_ini disk a (r, p))
unfolding start_tasks reshedule_tasks settings_of
start_tasks-Starts os read_ini disk a old (ok (pos n)) p (inl (o, z, new, accepted)) =
    rw new (record {
      options = o;
      is_read = refl;
      accepted = accepted;
      waits = refl;
      retries = refl;
      names = refl;
      killer_is_due = five-IsDue;
      license_is_due = inr five-IsDue;
    })
start_tasks-Starts os read_ini disk a old (ok (negsuc n)) p (inl (o, z, new, accepted)) = tt
start_tasks-Starts os read_ini disk a old (throws e) p (inl (o, z, new, accepted)) =
    ground (arith, z)
start_tasks-Starts os read_ini disk a old fault p (inl (o, z, new, accepted)) = ground (arith, z)
start_tasks-Starts os read_ini disk a old (ok (pos n)) p (inr (z, same)) = ground (arith, z)
start_tasks-Starts os read_ini disk a old (ok (negsuc n)) p (inr (z, same)) = tt
start_tasks-Starts os read_ini disk a old (throws e) p (inr (z, same)) = ground (arith, z)
start_tasks-Starts os read_ini disk a old fault p (inr (z, same)) = ground (arith, z)

module _ {D J : Type 0} (os : Platform D J) (read_ini : Text → Outcome PropTree) where
  -- If the INI reader returns or throws, then the start of the service ends in no agent, or in one
  -- that is sound; it never throws, and never reads options that are not set.
  pub set_up-Starts :
      ((s : Text) → read_ini s ≢ fault)
      → (disk : D) (parsed : Bool) (a : Agent) → Starts (set_up os read_ini disk parsed a)
  unfolding set_up make_paths
  set_up-Starts no_fault disk false a = tt
  set_up-Starts no_fault disk true a =
      let service = split_file_path (c_str a.parser.config_file_path) in
      let p = record a.parser {
        service_path = service;
        file_name = split_file_name (c_str a.parser.config_file_path);
        log_file_path = service ++ codes "logs";
      } in
      start_tasks-Starts os read_ini disk a p.options (init os read_ini disk p).0
        (init os read_ini disk p).1 (init-Initializes os read_ini no_fault disk p)
