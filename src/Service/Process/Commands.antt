-- ===== src/Service/Process/Commands.antt =====
-- nt_service/initializer.cpp: the startup type that is set is always a positive one.
use license_checker.Prelude.{
  ℤ, pos, negsuc, pos_part, atoi, c_str, leb_ℤ, ◌&&◌, ◌<◌, Bool, true, false, Bool-cases, inl, inr,
  not, Option, none, some, List, [], ◌∷◌, ◌≡◌, refl, arith, if◌then◌else◌,
}
use license_checker.Service.Process.{
  Flag, install_flag, remove_flag, start_flag, kill_flag, type_flag, debug_flag, bare_install,
  unknown_flag, Process, new_process, parse_flag, parse_args, positive, Command, insert, startup,
  choose_command, run, remove, start_svc, stop_svc, run_debug,
}

-- The startup type is set wherever it is used.
abbrev pub HasStartup : Process → Type 0
HasStartup p =
    (p.opt_install ≡ true → 0 < pos_part p.opt_startup)
    × (p.opt_type ≡ true → 0 < pos_part p.opt_startup)

abbrev MayHave : Option Process → Type 0
MayHave none = Unit
MayHave (some p) = HasStartup p

positive-MayHave : (n : ℤ) (p : Process) → (0 < pos_part n → HasStartup p) → MayHave (positive n p)
positive-MayHave n p h = elim (Bool-cases (leb_ℤ n (pos 0))) [
  | inl low ↦ rw low tt
  | inr high ↦ rw high (h (leb_lem n high))
]
  where
    leb_lem : (m : ℤ) → leb_ℤ m (pos 0) ≡ false → 0 < pos_part m
    leb_lem (pos k) e = ground (arith, e)
    leb_lem (negsuc k) e = ground (arith, e)

module _ (default_startup : ℤ) (h0 : 0 < pos_part default_startup) where
  parse_flag-MayHave :
      (f : Flag) (p : Process) → HasStartup p → MayHave (parse_flag default_startup f p)
  unfolding parse_flag
  parse_flag-MayHave (install_flag arg) p h =
      positive-MayHave (atoi (c_str arg))
        (record p { opt_install = true; opt_startup = atoi (c_str arg) }) (λ k. (λ e. k, λ e. k))
  parse_flag-MayHave remove_flag p h = h
  parse_flag-MayHave start_flag p h = h
  parse_flag-MayHave kill_flag p h = h
  parse_flag-MayHave (type_flag arg) p h =
      positive-MayHave (atoi (c_str arg))
        (record p { opt_type = true; opt_startup = atoi (c_str arg) }) (λ k. (λ e. k, λ e. k))
  parse_flag-MayHave debug_flag p h = h
  parse_flag-MayHave bare_install p h = (λ e. h0, λ e. h0)
  parse_flag-MayHave unknown_flag p h = tt

  parse_args-MayHave :
      (flags : List Flag) (p : Process)
      → HasStartup p
      → MayHave (parse_args default_startup flags p)
  unfolding parse_args
  parse_args-MayHave [] p h = h
  parse_args-MayHave (f ∷ flags) p h =
      next (parse_flag default_startup f p) (parse_flag-MayHave f p h) (parse_args-MayHave flags)
    where
      next :
          (o : Option Process)
          → MayHave o
          → ((q : Process) → HasStartup q → MayHave (parse_args default_startup flags q))
          → MayHave (elim o [ none ↦ none | some q ↦ parse_args default_startup flags q ])
      next none k g = tt
      next (some q) k g = g q k

  abbrev pub SetsStartup : Option Command → Type 0
  SetsStartup (some (insert n)) = 0 < pos_part n
  SetsStartup (some (startup n)) = 0 < pos_part n
  SetsStartup _ = Unit

  SetsStartup-if :
      (b : Bool) (x y : Option Command)
      → (b ≡ true → SetsStartup x)
      → SetsStartup y
      → SetsStartup (if b then x else y)
  SetsStartup-if true x y hx hy = hx refl
  SetsStartup-if false x y hx hy = hy

  install_lem : (b c : Bool) → (b && c) ≡ true → b ≡ true
  install_lem true c e = refl
  install_lem false c e = e

  choose_command-SetsStartup : (p : Process) → HasStartup p → SetsStartup (choose_command p)
  unfolding choose_command
  choose_command-SetsStartup p (h, k) =
      SetsStartup-if (p.opt_install && not p.opt_remove) (some (insert p.opt_startup)) _
        (λ e. h (install_lem p.opt_install (not p.opt_remove) e))
        (SetsStartup-if (p.opt_remove && not p.opt_install) (some remove) _ (λ _. tt)
          (SetsStartup-if (p.opt_start && p.opt_kill) none _ (λ _. tt)
            (SetsStartup-if p.opt_start (some start_svc) _ (λ _. tt)
              (SetsStartup-if p.opt_kill (some stop_svc) _ (λ _. tt)
                (SetsStartup-if p.opt_type (some (startup p.opt_startup)) _ k
                  (SetsStartup-if p.opt_debug (some run_debug) _ (λ _. tt) tt))))))

  -- Where the default is positive, the service manager is never given a startup type that is not,
  -- whatever the command line is.
  pub run-SetsStartup : (flags : List Flag) → SetsStartup (run default_startup flags)
  unfolding run
  run-SetsStartup flags =
      chosen (parse_args default_startup flags new_process)
        (parse_args-MayHave flags new_process (λ e. ground (arith, e), λ e. ground (arith, e)))
    where
      chosen :
          (o : Option Process)
          → MayHave o
          → SetsStartup (elim o [ none ↦ none | some p ↦ choose_command p ])
      chosen none k = tt
      chosen (some p) k = choose_command-SetsStartup p k
