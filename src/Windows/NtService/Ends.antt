-- ===== src/Windows/NtService/Ends.antt =====
-- nt_service/ntsvc.cpp: how the service starts and ends.
use license_checker.Config.{Options, Parser, PropTree}
use license_checker.Config.Windows.{init}
use license_checker.Platform.{Platform}
use license_checker.Prelude.{
  ℕ, ◌+◌, ℤ, pos, negsuc, Text, Bool, true, false, ◌&&◌, some, Outcome, ok, throws, fault, and_then,
  Option-cases, ◌≡◌, refl, ap, ◌∙◌, arith, inl, inr, if◌then◌else◌,
}
use license_checker.Windows.Notifications.Lifetime.{is_connected, release-initialize}
use license_checker.Windows.Notifications.{new_notificator, initialize, release}
use license_checker.Windows.NtService.{
  NtService, StartCalls, notify_unless, set_notificator, start_tasks, start_after, own_reactor,
  set_released, shut_down, start,
}

one_unless : Bool → ℕ
one_unless true = 0
one_unless false = 1

-- how many of the three calls of `svc` fail
unfoldable pub failures : StartCalls → ℕ
unfolding one_unless
failures calls =
    one_unless (is_connected calls.com_calls && calls.com_calls.exec_query)
    + (one_unless calls.register_event + one_unless calls.register_signal)

-- What the service `t` is that was started in `s`: one notice for each call that failed, and an end
-- that is undefined where a pointer was not set.
pub record Started (calls : StartCalls) (s t : NtService) : Type 0 where
  pub noticed : t.notices ≡ s.notices + failures calls
  pub looping : t.is_looping ≡ true
  pub stopped : t.is_stopped ≡ s.is_stopped
  pub released :
      release t.notificator ≡ (if is_connected calls.com_calls then ok new_notificator else fault)
  pub ended : shut_down t ≡ (
      if is_connected calls.com_calls
      then ok (record t { notificator = new_notificator })
      else fault)

notices-notify_unless :
    (b : Bool) (s : NtService) → (notify_unless b s).notices ≡ s.notices + one_unless b
unfolding notify_unless one_unless
notices-notify_unless true s = omega arith
notices-notify_unless false s = omega arith

stopped-notify_unless : (b : Bool) (s : NtService) → (notify_unless b s).is_stopped ≡ s.is_stopped
unfolding notify_unless
stopped-notify_unless true s = refl
stopped-notify_unless false s = refl

notificator-notify_unless :
    (b : Bool) (s : NtService) → (notify_unless b s).notificator ≡ s.notificator
unfolding notify_unless
notificator-notify_unless true s = refl
notificator-notify_unless false s = refl

pub shut_down_lem :
    (b : Bool) (t : NtService)
    → release t.notificator ≡ (if b then ok new_notificator else fault)
    → shut_down t ≡ (if b then ok (record t { notificator = new_notificator }) else fault)
unfolding shut_down set_released
shut_down_lem true t h = ap (and_then (λ n. ok (set_released t n))) h
shut_down_lem false t h = ap (and_then (λ n. ok (set_released t n))) h

start_tasks-Started :
    (calls : StartCalls) (o : Options) (s : NtService) → Started calls s (start_tasks calls o s)
unfolding start_tasks set_notificator failures
start_tasks-Started calls o s =
    let (succeeds, releases) = release-initialize calls.com_calls in
    let x = initialize calls.com_calls new_notificator in
    let s0 = record s { notificator = x.1 } in
    let s1 = notify_unless x.0 s0 in
    let s2 = notify_unless calls.register_event s1 in
    let n0 = notices-notify_unless x.0 s0 ∙ ap (λ b. s.notices + one_unless b) succeeds in
    let n1 = notices-notify_unless calls.register_event s1 in
    let n2 = notices-notify_unless calls.register_signal s2 in
    let same =
      notificator-notify_unless calls.register_signal s2
      ∙ notificator-notify_unless calls.register_event s1
      ∙ notificator-notify_unless x.0 s0 in
    record {
      noticed = omega arith;
      looping = refl;
      stopped =
          stopped-notify_unless calls.register_signal s2
          ∙ stopped-notify_unless calls.register_event s1
          ∙ stopped-notify_unless x.0 s0;
      released = ap release same ∙ releases;
      ended =
          shut_down_lem (is_connected calls.com_calls) (start_tasks calls o s)
            (ap release same ∙ releases);
    }

own_reactor-notices : (b : Bool) (s : NtService) → (own_reactor b s).notices ≡ s.notices
unfolding own_reactor
own_reactor-notices true s = refl
own_reactor-notices false s = refl

own_reactor-stopped : (b : Bool) (s : NtService) → (own_reactor b s).is_stopped ≡ s.is_stopped
unfolding own_reactor
own_reactor-stopped true s = refl
own_reactor-stopped false s = refl

start_after-Started :
    (calls : StartCalls) (s t : NtService) (r : Outcome ℤ) (p : Parser)
    → start_after calls s (r, p) ≡ ok (some t)
    → Started calls s t
unfolding start_after
start_after-Started calls s t (ok (pos n)) p h = elim (Option-cases p.options) [
  | inl unset ↦ ground (arith, h, unset)
  | inr (o, read) ↦
      let s' = record s { agent = record s.agent { parser = p } } in
      let made : ok (some (start_tasks calls o s')) ≡ ok (some t) = (rw read at h) in
      let same : start_tasks calls o s' ≡ t = cc in
      rw⁻¹ same (
        let done = start_tasks-Started calls o s' in
        record {
          noticed = done.noticed;
          looping = done.looping;
          stopped = done.stopped;
          released = done.released;
          ended = done.ended;
        })
]
start_after-Started calls s t (ok (negsuc n)) p h = cc
start_after-Started calls s t (throws e) p h = cc
start_after-Started calls s t fault p h = cc

module _ {D J : Type 0} (os : Platform D J) (read_ini : Text → Outcome PropTree) (disk : D) where
  -- A service that is started has one notice, which ends its loop, for each of the three calls that
  -- failed. After the loop its end is defined exactly if the first eight calls of COM succeeded, and
  -- then it has given back what these gave.
  pub start-Started :
      (calls : StartCalls) (s t : NtService)
      → start os read_ini disk calls s ≡ ok (some t)
      → Started calls s t
  unfolding start
  start-Started calls s t h =
      let (r, p) = init os read_ini disk s.agent.parser in
      let done = start_after-Started calls (own_reactor calls.report_status s) t r p h in
      record {
        noticed = done.noticed ∙ ap (λ n. n + failures calls) (own_reactor-notices _ s);
        looping = done.looping;
        stopped = done.stopped ∙ own_reactor-stopped calls.report_status s;
        released = done.released;
        ended = done.ended;
      }
