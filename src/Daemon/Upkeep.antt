-- ===== src/Daemon/Upkeep.antt =====
-- The agent as it runs on Linux: its configuration and its timers, in every state that it reaches.
use license_checker.Daemon.Sound.{
  IsDue, IsSound, hours-IsDue, minutes-IsDue, five-IsDue, set_license_timer-IsSound,
  set_killer_timer-IsSound,
}
use license_checker.Config.Bounds.{IsAccepted}
use license_checker.Config.{Options, PropTree}
use license_checker.Daemon.{
  Daemon, Event, license_due, killer_due, config_changed, openvpn_noticed, machine_changed,
  after_task, set_license_timer, set_killer_timer, set_agent, with_options, if_pending, world_of,
  run_license, run_killer, run_sink, sink_if, step, run,
}
use license_checker.Platform.{Platform, World}
use license_checker.Prelude.{
  ℕ, ℤ, Text, true, false, Bool, Option, none, some, List, [], ◌∷◌, Outcome, ok, throws, fault, ◌≡◌,
  ◌≢◌, inl, inr, refl, ap, ◌∙◌,
}
use license_checker.Service.{
  Agent, Notice, settings_of, handle_config_notice, handle_exec_notice, concerns, count_notice,
  reload, reload_if, with_count,
}
use license_checker.Service.Reload.{Reloads, renewed, interrupted, reload-Reloads}
use license_checker.Tasks.EventSink
use license_checker.Tasks.GetLicense
use license_checker.Tasks.GetLicense.Timer.{Rescheduled, IsRescheduled, svc-Rescheduled}
use license_checker.Tasks.ProcessKiller
use license_checker.Tasks.ProcessKiller.Upkeep.{Waits, svc-Waits}

-- What is done, if it is done, leaves the agent sound.
abbrev pub Sustains : {D : Type 0} → Outcome (Daemon D) → Type 0
Sustains (ok s) = IsSound s.agent
Sustains _ = Unit {0}

module _ {D J : Type 0} (os : Platform D J) where
  rescheduled-IsDue :
      (o : Options) (s : Agent) (t : Option ℤ)
      → IsAccepted o
      → s.settings.waiting_hours ≡ o.next_day_waiting_hours
      → s.settings.try_mins ≡ o.next_try_get_license_mins
      → IsRescheduled os o s.settings.try_mins s.settings.waiting_hours t
      → IsDue t
  rescheduled-IsDue o s t a e k (inl soon) = rw soon (minutes-IsDue o s.settings.try_mins a k)
  rescheduled-IsDue o s t a e k (inr later) = rw later (hours-IsDue o s.settings.waiting_hours a e)

  after_license-Sustains :
      (s : Daemon D) (h : IsSound s.agent) (w : World D) (x : Outcome (Unit {0}) × World D)
      → w.timer ≡ none
      → Rescheduled os h.options s.agent.settings.try_mins s.agent.settings.waiting_hours w x.0 x.1
      → Sustains (after_task s (set_license_timer s) x)
  unfolding after_task
  after_license-Sustains s h w (ok u, v) e (inl due) =
      set_license_timer-IsSound s.agent v.timer h
        (inr (rescheduled-IsDue h.options s.agent v.timer h.accepted h.waits h.retries due))
  after_license-Sustains s h w (ok u, v) e (inr (code, what, thrown, other, same)) =
      set_license_timer-IsSound s.agent v.timer h (inl (same ∙ e))
  after_license-Sustains s h w (throws x, v) e k = tt
  after_license-Sustains s h w (fault, v) e k = tt

  after_killer-Sustains :
      (s : Daemon D) (h : IsSound s.agent) (x : Outcome (Unit {0}) × World D)
      → Waits os h.options s.agent.settings.stopping_name s.agent.settings.waiting_hours x.0 x.1
      → Sustains (after_task s (set_killer_timer s) x)
  unfolding after_task
  after_killer-Sustains s h (ok u, v) k =
      set_killer_timer-IsSound s.agent v.timer h
        (rw k (hours-IsDue h.options s.agent.settings.waiting_hours h.accepted h.waits))
  after_killer-Sustains s h (throws x, v) k = tt
  after_killer-Sustains s h (fault, v) k = tt

  after_sink-Sustains :
      (s : Daemon D) (x : Outcome (Unit {0}) × World D)
      → IsSound s.agent
      → Sustains (after_task s (λ t. s.agent.settings) x)
  unfolding after_task
  after_sink-Sustains s (ok u, v) h = h
  after_sink-Sustains s (throws x, v) h = tt
  after_sink-Sustains s (fault, v) h = tt

  if_pending-Sustains :
      (t : Option ℤ) (s : Daemon D) (next : Outcome (Daemon D))
      → IsSound s.agent
      → Sustains next
      → Sustains (if_pending t s next)
  if_pending-Sustains none s next h k = h
  if_pending-Sustains (some n) s next h k = k

  with_options-Sustains :
      (s : Agent) (f : Options → Outcome (Daemon D)) (h : IsSound s)
      → Sustains (f h.options)
      → Sustains (with_options s.parser.options f)
  with_options-Sustains s f h k = rw h.is_read k

  set_agent-Sustains :
      (s : Daemon D) (n : ℕ) (r : Outcome Agent)
      → IsSound s.agent
      → Reloads s.agent r
      → Sustains (set_agent s (with_count n r))
  unfolding set_agent with_count settings_of
  set_agent-Sustains s n r h (renewed o {b} accepted new waits tries name license killer same) =
      record {
        options = o;
        is_read = new;
        accepted = accepted;
        waits = waits;
        retries = tries;
        names = name;
        killer_is_due = rw killer five-IsDue;
        license_is_due = inr (rw license five-IsDue);
      }
  set_agent-Sustains s n r h (interrupted {b} raised same kept) = record {
    options = h.options;
    is_read = same ∙ h.is_read;
    accepted = h.accepted;
    waits = ap (λ x. x.waiting_hours) kept ∙ h.waits;
    retries = ap (λ x. x.try_mins) kept ∙ h.retries;
    names = ap (λ x. x.stopping_name) kept ∙ h.names;
    killer_is_due = rw kept h.killer_is_due;
    license_is_due = rw kept h.license_is_due;
  }

module _ {D J : Type 0} (os : Platform D J) (read_ini : Text → Outcome PropTree)
    (config_file openvpn_file : Text) where
  sink_if-Sustains :
      (x : Bool × ℕ) (s : Daemon D)
      → IsSound s.agent
      → Sustains (sink_if os read_ini config_file openvpn_file x s)
  unfolding sink_if run_sink
  sink_if-Sustains (true, n) s h = with_options-Sustains os s.agent _ h (
      after_sink-Sustains os (record s { exec_count = n })
        (EventSink.svc os h.options (world_of (record s { exec_count = n }) none)) h)
  sink_if-Sustains (false, n) s h = h

  module _ (no_fault : (s : Text) → read_ini s ≢ fault) where
    reload_if-Sustains :
        (x : Bool × ℕ) (s : Daemon D)
        → IsSound s.agent
        → Sustains (set_agent s (reload_if os read_ini s.disk x s.agent))
    unfolding reload_if set_agent
    reload_if-Sustains (true, n) s h =
        set_agent-Sustains os s n (reload os read_ini s.disk s.agent) h
          (reload-Reloads os read_ini no_fault s.disk s.agent)
    reload_if-Sustains (false, n) s h = h

    notice-Sustains :
        (n : Notice) (b : Bool) (s : Daemon D)
        → concerns config_file n ≡ b
        → IsSound s.agent
        → Sustains (
            set_agent s
              (handle_config_notice os read_ini s.disk config_file n (s.agent, s.config_count)))
    unfolding handle_config_notice set_agent
    notice-Sustains n true s e h = rw e (reload_if-Sustains (count_notice s.config_count) s h)
    notice-Sustains n false s e h = rw e h

    step-Sustains :
        (e : Event D) (s : Daemon D)
        → IsSound s.agent
        → Sustains (step os read_ini config_file openvpn_file e s)
    unfolding step run_license run_killer GetLicense.handle_timeout ProcessKiller.handle_timeout
    step-Sustains license_due s h =
        let w = world_of s none in
        if_pending-Sustains os s.agent.settings.license_timer s _ h (
          with_options-Sustains os s.agent _ h (
            after_license-Sustains os s h w
              (GetLicense.svc os h.options s.agent.settings.try_mins s.agent.settings.waiting_hours
                w)
              refl
              (svc-Rescheduled os h.options s.agent.settings.try_mins s.agent.settings.waiting_hours
                w)))
    step-Sustains killer_due s h =
        let w = world_of s none in
        if_pending-Sustains os s.agent.settings.killer_timer s _ h (
          with_options-Sustains os s.agent _ h (
            after_killer-Sustains os s h
              (ProcessKiller.svc os h.options s.agent.settings.stopping_name
                s.agent.settings.waiting_hours w)
              (svc-Waits os h.options s.agent.settings.stopping_name s.agent.settings.waiting_hours
                w)))
    step-Sustains (config_changed n) s h = notice-Sustains n _ s refl h
    step-Sustains (openvpn_noticed n) s h =
        sink_if-Sustains (handle_exec_notice openvpn_file n s.exec_count) s h
    step-Sustains (machine_changed f) s h = h

    run_on-Sustains :
        (events : List (Event D)) (r : Outcome (Daemon D))
        → ((s : Daemon D)
            → IsSound s.agent
            → Sustains (run os read_ini config_file openvpn_file events s))
        → Sustains r
        → Sustains (elim r [
          | ok t ↦ run os read_ini config_file openvpn_file events t
          | throws x ↦ throws x
          | fault ↦ fault
        ])
    run_on-Sustains events (ok t) h k = h t k
    run_on-Sustains events (throws x) h k = tt
    run_on-Sustains events fault h k = tt

    -- If the INI reader returns or throws, then whatever happens in whatever order to an agent that
    -- is sound, it stays sound for as long as it runs: it has accepted options, both tasks have what
    -- these say, the task that stops programs is due within a day, and so is the task that fetches
    -- licenses, if it is due at all.
    pub run-IsSound :
        (events : List (Event D)) (s : Daemon D)
        → IsSound s.agent
        → Sustains (run os read_ini config_file openvpn_file events s)
    unfolding run
    run-IsSound [] s h = h
    run-IsSound (e ∷ events) s h =
        run_on-Sustains events (step os read_ini config_file openvpn_file e s) (run-IsSound events)
          (step-Sustains e s h)
