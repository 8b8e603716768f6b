-- ===== src/Service/Reload.antt =====
-- nx_service/config_change.cpp and nx_service/nxsvc.cpp: what a change of the configuration does.
use license_checker.Config.{Options, Parser, PropTree, init}
use license_checker.Config.Bounds.{IsAccepted, Initializes, init-Initializes}
use license_checker.Platform.{Platform}
use license_checker.Prelude.{
  ℤ, pos, negsuc, Text, true, some, Outcome, ok, throws, fault, ◌≡◌, ◌≢◌, inl, inr, refl, arith,
}
use license_checker.Service.{Agent, settings_of, reshedule_tasks, after_init, reload}

-- What a reload of the configuration makes of the agent `a`: it runs with new options, with the timers
-- and the settings that they say, or it is interrupted, and its options and settings have not changed.
pub data Reloads (a : Agent) : Outcome Agent → Type 0 where
  renewed :
      (o : Options) {b : Agent}
      → IsAccepted o
      → b.parser.options ≡ some o
      → b.settings.waiting_hours ≡ o.next_day_waiting_hours
      → b.settings.try_mins ≡ o.next_try_get_license_mins
      → b.settings.stopping_name ≡ o.kill_file_name
      → b.settings.license_timer ≡ some (pos 5)
      → b.settings.killer_timer ≡ some (pos 5)
      → b.is_interrupted ≡ a.is_interrupted
      → Reloads a (ok b)
  interrupted :
      {b : Agent}
      → b.is_interrupted ≡ true
      → b.parser.options ≡ a.parser.options
      → b.settings ≡ a.settings
      → Reloads a (ok b)

after_init-Reloads :
    (a : Agent) (r : Outcome ℤ) (p : Parser)
    → Initializes a.parser.options r p.options
    → Reloads a (after_init a (r, p))
unfolding after_init reshedule_tasks settings_of
after_init-Reloads a (ok (pos n)) p (inl (o, z, new, accepted)) =
    rw new (renewed o accepted new refl refl refl refl refl refl)
after_init-Reloads a (ok (negsuc n)) p (inl (o, z, new, accepted)) = ground (arith, z)
after_init-Reloads a (throws e) p (inl (o, z, new, accepted)) = ground (arith, z)
after_init-Reloads a fault p (inl (o, z, new, accepted)) = ground (arith, z)
after_init-Reloads a (ok (pos n)) p (inr (z, same)) = ground (arith, z)
after_init-Reloads a (ok (negsuc n)) p (inr (z, same)) = interrupted refl same refl
after_init-Reloads a (throws e) p (inr (z, same)) = ground (arith, z)
after_init-Reloads a fault p (inr (z, same)) = ground (arith, z)

module _ {D J : Type 0} (os : Platform D J) (read_ini : Text → Outcome PropTree) where
  -- If the INI reader returns or throws, then after a change of the configuration file either the
  -- agent has new options, all of them in range, the waiting hours, the minutes between two tries and
  -- the name of the program to stop are what they say, the timers of both tasks are set to five
  -- seconds, and SIGINT is raised only if it was before; or SIGINT is raised and the options and the
  -- settings of the tasks, their timers included, are as they were.
  pub reload-Reloads :
      ((s : Text) → read_ini s ≢ fault)
      → (disk : D) (a : Agent) → Reloads a (reload os read_ini disk a)
  unfolding reload
  reload-Reloads no_fault disk a =
      after_init-Reloads a (init os read_ini disk a.parser).0 (init os read_ini disk a.parser).1
        (init-Initializes os read_ini no_fault disk a.parser)
