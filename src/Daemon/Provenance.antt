-- ===== src/Daemon/Provenance.antt =====
-- The agent as it runs on Linux: where the contents of a file come from, whatever happens.
use license_checker.Client.{HostLicense}
use license_checker.Config.{Options, PropTree}
use license_checker.Daemon.{
  Daemon, Event, license_due, killer_due, config_changed, openvpn_noticed, machine_changed,
  after_task, set_agent, with_options, if_pending, world_of, run_license, run_killer, run_sink,
  sink_if, step, run,
}
use license_checker.License.{strip_nul}
use license_checker.Platform.{Platform, World}
use license_checker.Prelude.{
  ℕ, ℤ, Text, text_eq, true, false, Bool, Option, none, some, List, [], ◌∷◌, ◌++◌, ap, All, Outcome,
  ok, throws, fault, ◌≡◌, ◌⊎◌, inl, inr, refl, subst, sym,
}
use license_checker.Service.{Agent, Settings, handle_exec_notice}
use license_checker.Tasks.EventSink
use license_checker.Tasks.EventSink.Saving.{IsLacking, svc-Stores-IsLacking}
use license_checker.Tasks.GetLicense
use license_checker.Tasks.GetLicense.Saving.{IsNewer, svc-Stores}
use license_checker.Tasks.ProcessKiller
use license_checker.Tasks.ProcessKiller.Upkeep.{svc-Leaves}
use license_checker.Tasks.Saving.{saved, IsReadBack, IsReceived, Stores}

module _ {D J : Type 0} (os : Platform D J) (read_ini : Text → Outcome PropTree)
    (config_file openvpn_file : Text) where
  -- The agent has the options `o` in `s`, or after some first part of the events.
  abbrev pub IsUsed : Daemon D → List (Event D) → Options → Type 0
  IsUsed s events o =
      (before : List (Event D)) × (after : List (Event D)) × (t : Daemon D) × (events
        ≡ before ++ after)
      × (run os read_ini config_file openvpn_file before s ≡ ok t)
      × (t.agent.parser.options ≡ some o)

  IsUsed-start :
      (s : Daemon D) (events : List (Event D)) (o : Options)
      → s.agent.parser.options ≡ some o
      → IsUsed s events o
  unfolding run
  IsUsed-start s events o h = ([], events, s, refl, refl, h)

  IsUsed-step :
      (e : Event D) (s t : Daemon D) (events : List (Event D)) (o : Options)
      → step os read_ini config_file openvpn_file e s ≡ ok t
      → IsUsed t events o
      → IsUsed s (e ∷ events) o
  unfolding run
  IsUsed-step e s t events o k (before, after, u, split, ran, h) =
      (e ∷ before, after, u, ap (◌∷◌ e) split, rw (k, run) ran, h)

module _ {D J : Type 0} (os : Platform D J) (path : Text) where
  -- Signals and commands leave the file alone, and writing files is as one expects.
  pub record IsFileSystem : Type 0 where
    pub read-write : IsReadBack os path
    pub read-kill : (d : D) (pid : ℤ) → os.read_file (os.kill d pid).1 path ≡ os.read_file d path
    pub read-exec : (d : D) (cmd : Text) → os.read_file (os.exec d cmd).1 path ≡ os.read_file d path

  -- Other programs leave the file alone.
  abbrev pub Spares : Event D → Type 0
  Spares (machine_changed f) = (d : D) → os.read_file (f d) path ≡ os.read_file d path
  Spares _ = Unit {0}

  module _ (Seen : Options → Type 0) where
    -- What the file holds, where it held `old`: the same, or a license that the server has sent to an
    -- agent whose options were among `Seen` and named this file as the license file.
    abbrev pub IsFrom : Option Text → Option Text → Type 0
    IsFrom old now =
        (now ≡ old)
        ⊎ ((o : Options) × (h : HostLicense) × Seen o
            × (text_eq o.lic_file path ≡ true)
            × IsReceived os o h
            × (now ≡ some (strip_nul h.license)))

    -- What is done, if it is done, leaves such a file.
    abbrev pub Traces : Option Text → Outcome (Daemon D) → Type 0
    Traces old (ok s) = IsFrom old (os.read_file s.disk path)
    Traces old _ = Unit {0}

    Stores-IsFrom :
        (o : Options) (New : HostLicense → Type 0) (old now later : Option Text)
        → Seen o
        → IsFrom old now
        → Stores os o path New now later
        → IsFrom old later
    Stores-IsFrom o New old now later seen h (inl same) = subst (IsFrom old) (sym same) h
    Stores-IsFrom o New old now later seen h (inr (file, l, received, new, held)) =
        inr (o, l, seen, file, received, held)

    after_task-Traces :
        (old : Option Text) (s : Daemon D) (set : Option ℤ → Settings)
        (x : Outcome (Unit {0}) × World D)
        → IsFrom old (saved os path x.1)
        → Traces old (after_task s set x)
    unfolding after_task
    after_task-Traces old s set (ok u, w) h = h
    after_task-Traces old s set (throws e, w) h = tt
    after_task-Traces old s set (fault, w) h = tt

    if_pending-Traces :
        (old : Option Text) (t : Option ℤ) (s : Daemon D) (next : Outcome (Daemon D))
        → IsFrom old (os.read_file s.disk path)
        → Traces old next
        → Traces old (if_pending t s next)
    if_pending-Traces old none s next h k = h
    if_pending-Traces old (some n) s next h k = k

    with_options-Traces :
        (old : Option Text) (m : Option Options) (f : Options → Outcome (Daemon D))
        → ((o : Options) → m ≡ some o → Traces old (f o))
        → Traces old (with_options m f)
    with_options-Traces old none f h = tt
    with_options-Traces old (some o) f h = h o refl

    set_agent-Traces :
        (old : Option Text) (s : Daemon D) (r : Outcome (Agent × ℕ))
        → IsFrom old (os.read_file s.disk path)
        → Traces old (set_agent s r)
    unfolding set_agent
    set_agent-Traces old s (ok (a, n)) h = h
    set_agent-Traces old s (throws e) h = tt
    set_agent-Traces old s fault h = tt

    module _ (read_ini : Text → Outcome PropTree) (config_file openvpn_file : Text)
        (files : IsFileSystem) where
      kept :
          (o : Options) (cmd : Text) (w : World D)
          → saved os path (record w { disk = (os.exec w.disk cmd).1 }) ≡ saved os path w
      kept o cmd w = files.read-exec w.disk cmd

      license-Traces :
          (old : Option Text) (s : Daemon D) (o : Options)
          → Seen o
          → IsFrom old (os.read_file s.disk path)
          → Traces old (run_license os read_ini config_file openvpn_file s o)
      unfolding run_license GetLicense.handle_timeout
      license-Traces old s o seen h =
          let mins = s.agent.settings.try_mins in
          let waiting = s.agent.settings.waiting_hours in
          let now = os.read_file s.disk path in
          after_task-Traces old s _ (GetLicense.svc os o mins waiting (world_of s none)) (
            Stores-IsFrom o (IsNewer os o path mins waiting now) old now _ seen h (
              svc-Stores os o path mins waiting files.read-write (kept o) now (world_of s none)
                refl))

      killer-Traces :
          (old : Option Text) (s : Daemon D) (o : Options)
          → IsFrom old (os.read_file s.disk path)
          → Traces old (run_killer os read_ini config_file openvpn_file s o)
      unfolding run_killer ProcessKiller.handle_timeout
      killer-Traces old s o h =
          let name = s.agent.settings.stopping_name in
          let waiting = s.agent.settings.waiting_hours in
          let same =
            svc-Leaves os o name waiting (saved os path) (kept o) (λ w t sent. refl)
              (λ w pid. files.read-kill w.disk pid) in
          after_task-Traces old s _ (ProcessKiller.svc os o name waiting (world_of s none))
            (subst (IsFrom old) (sym (same.at (world_of s none))) h)

      sink-Traces :
          (old : Option Text) (s : Daemon D) (o : Options)
          → Seen o
          → IsFrom old (os.read_file s.disk path)
          → Traces old (run_sink os read_ini config_file openvpn_file s o)
      unfolding run_sink
      sink-Traces old s o seen h =
          let now = os.read_file s.disk path in
          after_task-Traces old s _ (EventSink.svc os o (world_of s none)) (
            Stores-IsFrom o (IsLacking os o (world_of s none)) old now _ seen h
              (svc-Stores-IsLacking os o path files.read-write (kept o) now (world_of s none) refl))

      sink_if-Traces :
          (old : Option Text) (x : Bool × ℕ) (s : Daemon D)
          → ((o : Options) → s.agent.parser.options ≡ some o → Seen o)
          → IsFrom old (os.read_file s.disk path)
          → Traces old (sink_if os read_ini config_file openvpn_file x s)
      unfolding sink_if
      sink_if-Traces old (true, n) s seen h =
          with_options-Traces old s.agent.parser.options _
            (λ o e. sink-Traces old (record s { exec_count = n }) o (seen o e) h)
      sink_if-Traces old (false, n) s seen h = h

      step-Traces :
          (old : Option Text) (e : Event D) (s : Daemon D)
          → Spares e
          → ((o : Options) → s.agent.parser.options ≡ some o → Seen o)
          → IsFrom old (os.read_file s.disk path)
          → Traces old (step os read_ini config_file openvpn_file e s)
      unfolding step
      step-Traces old license_due s q seen h =
          if_pending-Traces old s.agent.settings.license_timer s _ h (
            with_options-Traces old s.agent.parser.options _
              (λ o e. license-Traces old s o (seen o e) h))
      step-Traces old killer_due s q seen h =
          if_pending-Traces old s.agent.settings.killer_timer s _ h
            (with_options-Traces old s.agent.parser.options _ (λ o e. killer-Traces old s o h))
      step-Traces old (config_changed n) s q seen h = set_agent-Traces old s _ h
      step-Traces old (openvpn_noticed n) s q seen h =
          sink_if-Traces old (handle_exec_notice openvpn_file n s.exec_count) s seen h
      step-Traces old (machine_changed f) s q seen h = subst (IsFrom old) (sym (q s.disk)) h

      run_on-Traces :
          (old : Option Text) (e : Event D) (events : List (Event D)) (s : Daemon D)
          (r : Outcome (Daemon D))
          → step os read_ini config_file openvpn_file e s ≡ r
          → ((t : Daemon D)
              → step os read_ini config_file openvpn_file e s ≡ ok t
              → IsFrom old (os.read_file t.disk path)
              → Traces old (run os read_ini config_file openvpn_file events t))
          → Traces old r
          → Traces old (elim r [
            | ok t ↦ run os read_ini config_file openvpn_file events t
            | throws x ↦ throws x
            | fault ↦ fault
          ])
      run_on-Traces old e events s (ok t) k h l = h t k l
      run_on-Traces old e events s (throws x) k h l = tt
      run_on-Traces old e events s fault k h l = tt

      run-IsFrom :
          (old : Option Text) (events : List (Event D)) (s : Daemon D)
          → All Spares events
          → ((o : Options) → IsUsed os read_ini config_file openvpn_file s events o → Seen o)
          → IsFrom old (os.read_file s.disk path)
          → Traces old (run os read_ini config_file openvpn_file events s)
      unfolding run
      run-IsFrom old [] s q seen h = h
      run-IsFrom old (e ∷ events) s (q, qs) seen h =
          run_on-Traces old e events s (step os read_ini config_file openvpn_file e s) refl
            (λ t k l.
              run-IsFrom old events t qs
                (λ o u.
                  seen o (IsUsed-step os read_ini config_file openvpn_file e s t events o k u))
                l)
            (step-Traces old e s q
              (λ o k. seen o (IsUsed-start os read_ini config_file openvpn_file s (e ∷ events) o k))
              h)

  module _ (read_ini : Text → Outcome PropTree) (config_file openvpn_file : Text)
      (files : IsFileSystem) where
    -- Let a file be one that commands, signals and the other programs leave alone, and that is read
    -- as it was written. Then whatever happens in whatever order, and however often the configuration
    -- changes, after every run that is not cut off the file is as it was at the start, or it holds a
    -- license, not empty, that the server sent with the status of an active host, and it was the
    -- license file in the options that the agent had at the start or after some of the events.
    pub run-Traces :
        (events : List (Event D)) (s : Daemon D)
        → All Spares events
        → Traces
            (IsUsed os read_ini config_file openvpn_file s events)
            (os.read_file s.disk path)
            (run os read_ini config_file openvpn_file events s)
    run-Traces events s q =
        run-IsFrom (IsUsed os read_ini config_file openvpn_file s events) read_ini config_file
          openvpn_file files (os.read_file s.disk path) events s q (λ o u. u) (inl refl)
