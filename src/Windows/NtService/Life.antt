-- ===== src/Windows/NtService/Life.antt =====
-- nt_service/ntsvc.cpp: the event loop of the service, from its start to its end.
use license_checker.Config.{PropTree}
use license_checker.Platform.{Platform}
use license_checker.Prelude.{
  subst, Text, Outcome, ok, fault, some, ◌↔◌, if◌then◌else◌, ℕ, zero, suc, ◌+◌, ◌<◌, Bool, true,
  false, not, List, [], ◌∷◌, ◌++◌, ◌≡◌, refl, ap, sym, ◌∙◌, Bool-cases, arith, inl, inr,
}
use license_checker.Windows.Notifications.{new_notificator, release}
use license_checker.Windows.Notifications.Lifetime.{is_connected}
use license_checker.Windows.NtService.Ends.{failures, start-Started, shut_down_lem}
use license_checker.Windows.NtService.{
  StartCalls, start, shut_down, NtService, Status, control_stop, control_shutdown, other_control,
  Event, controlled, turned, handle_control, handle_close, dispatch, dispatch_if, step, run,
}

asks : Event → ℕ
asks (controlled control_stop) = 1
asks (controlled control_shutdown) = 1
asks (controlled (other_control code)) = 0
asks turned = 0

-- how many of the events ask the service to stop
unfoldable pub stops : List Event → ℕ
unfolding asks
stops [] = 0
stops (e ∷ events) = asks e + stops events

-- What a service `s` has become after `n` demands to stop.
record Lived (n : ℕ) (s t : NtService) : Type 0 where
  agrees : t.is_looping ≡ not t.is_stopped
  stays : s.is_looping ≡ false → t.is_looping ≡ false
  asked : s.is_looping ≡ true → t.is_looping ≡ false → 0 < s.notices + n
  waits : t.is_looping ≡ true → t.notices ≡ s.notices + n
  kept : t.notificator ≡ s.notificator

Lived-trans : (m n : ℕ) (s u t : NtService) → Lived m s u → Lived n u t → Lived (m + n) s t
Lived-trans m n s u t a b = record {
  agrees = b.agrees;
  stays = λ e. b.stays (a.stays e);
  asked = λ e ended. elim (Bool-cases u.is_looping) [
    | inl alive ↦ (let h = b.asked alive ended in let k = a.waits alive in omega arith)
    | inr over ↦ (let h = a.asked e over in omega arith)
  ];
  waits = λ alive. elim (Bool-cases u.is_looping) [
    | inl before ↦ (let h = b.waits alive in let k = a.waits before in omega arith)
    | inr over ↦ ground (arith, b.stays over, alive)
  ];
  kept = b.kept ∙ a.kept;
}

-- where the loop and what the demands count are as before
Lived-same :
    (n : ℕ) (s t : NtService)
    → t.is_looping ≡ s.is_looping
    → t.is_stopped ≡ s.is_stopped
    → t.notices ≡ s.notices + n
    → t.notificator ≡ s.notificator
    → s.is_looping ≡ not s.is_stopped
    → Lived n s t
Lived-same n s t e k m l h = record {
  agrees = ground (arith, e, k, h);
  stays = λ over. e ∙ over;
  asked = λ alive over. ground (arith, e, alive, over);
  waits = λ alive. m;
  kept = l;
}

dispatch-Lived :
    (s : NtService) (b : Bool) (n : ℕ)
    → s.is_looping ≡ b
    → s.notices ≡ n
    → s.is_looping ≡ not s.is_stopped
    → Lived 0 s (dispatch_if b n s)
unfolding dispatch_if dispatch handle_close
dispatch-Lived s false n e k h = Lived-same 0 s s refl refl (omega arith) refl h
dispatch-Lived s true zero e k h = Lived-same 0 s s refl refl (omega arith) refl h
dispatch-Lived s true (suc n) e k h = record {
  agrees = refl;
  stays = λ over. refl;
  asked = λ alive over. omega arith;
  waits = λ alive. ground (arith, alive);
  kept = refl;
}

module _ (inherited : ℕ → Status → Status) where
  step-Lived :
      (e : Event) (s : NtService)
      → s.is_looping ≡ not s.is_stopped
      → Lived (asks e) s (step inherited e s)
  unfolding step handle_control asks
  step-Lived (controlled control_stop) s h = Lived-same 1 s _ refl refl (omega arith) refl h
  step-Lived (controlled control_shutdown) s h = Lived-same 1 s _ refl refl (omega arith) refl h
  step-Lived (controlled (other_control code)) s h = Lived-same 0 s _ refl refl (omega arith) refl h
  step-Lived turned s h = dispatch-Lived s s.is_looping s.notices refl refl h

  run-Lived :
      (events : List Event) (s : NtService)
      → s.is_looping ≡ not s.is_stopped
      → Lived (stops events) s (run inherited events s)
  unfolding run stops
  run-Lived [] s h = Lived-same 0 s s refl refl (omega arith) refl h
  run-Lived (e ∷ events) s h =
      let first = step-Lived e s h in
      let u = step inherited e s in
      Lived-trans (asks e) (stops events) s u (run inherited events u) first
        (run-Lived events u first.agrees)

  -- one more turn of the reactor
  turned-ends :
      (s : NtService) (b : Bool) (n : ℕ)
      → (b ≡ true → 0 < n)
      → s.is_looping ≡ b
      → (dispatch_if b n s).is_looping ≡ false
  unfolding dispatch_if dispatch handle_close
  turned-ends s false n h e = e
  turned-ends s true zero h e = ground (arith, h refl)
  turned-ends s true (suc n) h e = refl

  run-append :
      (events : List Event) (e : Event) (s : NtService)
      → run inherited (events ++ e ∷ []) s ≡ step inherited e (run inherited events s)
  unfolding run
  run-append [] e s = refl
  run-append (x ∷ events) e s = run-append events e (step inherited x s)

  -- what a service with the notificator of `t` is after `n` demands and a turn of the reactor
  Turned : ℕ → NtService → NtService → Type 0
  Turned n t u =
      ((u.is_looping ≡ false) ↔ (0 < n))
      × (u.is_stopped ≡ not u.is_looping)
      × (u.notificator ≡ t.notificator)

  last_turn :
      (events : List Event) (t : NtService)
      → t.is_looping ≡ true
      → t.is_stopped ≡ false
      → Turned (t.notices + stops events) t (run inherited (events ++ turned ∷ []) t)
  unfolding asks Turned step
  last_turn events t alive fresh =
      let before = run-Lived events t (ground (arith, alive, fresh)) in
      let v = run inherited events t in
      let u = step inherited turned v in
      let all = Lived-trans (stops events) 0 t v u before (step-Lived turned v before.agrees) in
      subst (Turned (t.notices + stops events) t) (sym (run-append events turned t)) (
        (
          λ over. (let h = all.asked alive over in omega arith),
          λ some_asked.
              turned-ends v v.is_looping v.notices
                (λ going. (let h = before.waits going in omega arith)) refl,
        ),
        ground (arith, all.agrees),
        all.kept,
      )

module _ {D J : Type 0} (os : Platform D J) (read_ini : Text → Outcome PropTree) (disk : D) where
  -- Whatever controls come to a service that was started: after one more turn of the reactor its loop has
  -- ended exactly if one of the three calls at its start had failed, a notice was there before, or a
  -- control was STOP or SHUTDOWN. Its end is then defined exactly if the first eight calls of COM had
  -- succeeded, and gives back what these gave.
  pub start-ends :
      (calls : StartCalls) (s t : NtService) (inherited : ℕ → Status → Status) (events : List Event)
      → start os read_ini disk calls s ≡ ok (some t)
      → s.is_stopped ≡ false
      → let u = run inherited (events ++ turned ∷ []) t in
        ((u.is_looping ≡ false) ↔ (0 < s.notices + failures calls + stops events))
        × (u.is_stopped ≡ not u.is_looping)
        × (shut_down u ≡ (
            if is_connected calls.com_calls
            then ok (record u { notificator = new_notificator })
            else fault))
  unfolding Turned
  start-ends calls s t inherited events h fresh =
      let done = start-Started os read_ini disk calls s t h in
      let u = run inherited (events ++ turned ∷ []) t in
      let (ended, agrees, kept) =
        last_turn inherited events t done.looping (done.stopped ∙ fresh) in
      let count = done.noticed in
      (
        (λ over. (let k = ended.0 over in omega arith), λ asked. ended.1 (omega arith)),
        agrees,
        shut_down_lem (is_connected calls.com_calls) u (ap release kept ∙ done.released),
      )
