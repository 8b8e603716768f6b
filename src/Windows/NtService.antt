-- ===== src/Windows/NtService.antt =====
-- nt_service/ntsvc.cpp, and `handle_signal` of nt_service/config_change.cpp: the service on Windows.
pub mod Ends
pub mod Life
use license_checker.Config.{Options, Parser, PropTree}
use license_checker.Config.Windows.{init}
use license_checker.Platform.{Platform}
use license_checker.Prelude.{
  ℕ, zero, suc, List, [], ◌∷◌, ◌+◌, ◌-◌, ℤ, pos, negsuc, Text, Bool, true, false, Option, none,
  some, Outcome, ok, throws, fault, and_then, if◌then◌else◌,
}
use license_checker.Service.{Agent, settings_of}
use license_checker.Windows.Notifications.{
  ComCalls, Notificator, new_notificator, initialize, release,
}
use license_checker.Windows.{Watcher}

pub data Status : Type 0 where
  starting : Status
  running : Status
  stop_pending : Status

pub data ControlCode : Type 0 where
  control_stop : ControlCode
  control_shutdown : ControlCode
  other_control : ℕ → ControlCode

-- `notices` counts the calls of `notify` that are not handled yet, `is_looping` is whether the event
-- loop runs, and `is_owner` whether the thread owns the reactor.
pub record NtService : Type 0 where
  pub agent : Agent
  pub status : Status
  pub notices : ℕ
  pub is_looping : Bool
  pub is_stopped : Bool
  pub is_owner : Bool
  pub notificator : Notificator
  pub watcher : Watcher

abbrev pub notify : NtService → NtService
notify s = record s { notices = suc s.notices }

-- Whatever is not handled here goes to the base class, with what it does to the status.
unfoldable pub handle_control : (ℕ → Status → Status) → ControlCode → NtService → NtService
handle_control inherited control_stop s = notify (record s { status = stop_pending })
handle_control inherited control_shutdown s = notify (record s { status = stop_pending })
handle_control inherited (other_control code) s = record s { status = inherited code s.status }

abbrev pub handle_exception : ℤ
handle_exception = negsuc 0

unfoldable pub handle_close : NtService → NtService
handle_close s = record s { is_stopped = true; is_looping = false }

-- The reactor handles one notice: it calls `handle_exception`, and `handle_close` where that
-- returns -1.
unfoldable pub dispatch : NtService → NtService
unfolding handle_close
dispatch s = elim handle_exception [
  | pos n ↦ record s { notices = s.notices - 1 }
  | negsuc n ↦ handle_close (record s { notices = s.notices - 1 })
]

-- what comes while the event loop runs: a control, or a turn of the reactor
pub data Event : Type 0 where
  controlled : ControlCode → Event
  turned : Event

-- The reactor handles a notice where its loop runs and there is one.
dispatch_if : Bool → ℕ → NtService → NtService
unfolding dispatch
dispatch_if false n s = s
dispatch_if true zero s = s
dispatch_if true (suc n) s = dispatch s

unfoldable pub step : (ℕ → Status → Status) → Event → NtService → NtService
unfolding handle_control dispatch_if
step inherited (controlled code) s = handle_control inherited code s
step inherited turned s = dispatch_if s.is_looping s.notices s

unfoldable pub run : (ℕ → Status → Status) → List Event → NtService → NtService
unfolding step
run inherited [] s = s
run inherited (e ∷ events) s = run inherited events (step inherited e s)

unfoldable pub reshedule_tasks : Agent → Outcome Agent
reshedule_tasks a = elim a.parser.options [
  | none ↦ fault
  | some o ↦ ok (record a { settings = settings_of o })
]

-- The thread of the handler starts again.
activate : Watcher → Watcher
activate w = record w { is_stopped = false }

-- `handle_signal` after `init`: the result, and the service
after_init : NtService → Outcome ℤ × Parser → Outcome (ℤ × NtService)
unfolding activate reshedule_tasks
after_init s (ok (pos n), p) =
    and_then (λ a. ok (pos 0, record s { agent = a; watcher = activate s.watcher }))
      (reshedule_tasks (record s.agent { parser = p }))
after_init s (ok (negsuc n), p) =
    ok (negsuc 0, record s { agent = record s.agent { parser = p; is_interrupted = true } })
after_init s (throws e, p) = throws e
after_init s (fault, p) = fault

-- The results of the calls of `svc`. Those of opening the tasks are always 0.
pub record StartCalls : Type 0 where
  pub report_status : Bool
  pub com_calls : ComCalls
  pub register_event : Bool
  pub register_signal : Bool

notify_unless : Bool → NtService → NtService
notify_unless true s = s
notify_unless false s = notify s

set_notificator : Bool × Notificator → NtService → NtService
unfolding notify_unless
set_notificator (b, n) s = notify_unless b (record s { notificator = n })

unfoldable pub start_tasks : StartCalls → Options → NtService → NtService
unfolding notify_unless set_notificator
start_tasks calls o s =
    let s1 = set_notificator (initialize calls.com_calls new_notificator) s in
    let s2 = notify_unless calls.register_signal (notify_unless calls.register_event s1) in
    record s2 { agent = record s2.agent { settings = settings_of o }; is_looping = true }

-- SIGINT has no handler yet where `init` fails, and ends the process: `none`.
unfoldable pub start_after :
    StartCalls → NtService → Outcome ℤ × Parser → Outcome (Option NtService)
start_after calls s (ok (pos n), p) = elim p.options [
  | none ↦ fault
  | some o ↦ ok (some (start_tasks calls o (record s { agent = record s.agent { parser = p } })))
]
start_after calls s (ok (negsuc n), p) = ok none
start_after calls s (throws e, p) = throws e
start_after calls s (fault, p) = fault

-- `report_status` gives 0 where this is a service.
unfoldable pub own_reactor : Bool → NtService → NtService
own_reactor true s = record s { status = running; is_owner = true }
own_reactor false s = s

set_released : NtService → Notificator → NtService
set_released s n = record s { notificator = n }

-- the end of `svc`, after the event loop
unfoldable pub shut_down : NtService → Outcome NtService
unfolding set_released
shut_down s = and_then (λ n. ok (set_released s n)) (release s.notificator)

module _ {D J : Type 0} (os : Platform D J) (read_ini : Text → Outcome PropTree) (disk : D) where
  -- `Config_Handler::handle_signal`, once the thread that watches has ended
  unfoldable pub handle_signal : NtService → Outcome (ℤ × NtService)
  unfolding after_init
  handle_signal s = after_init s (init os read_ini disk s.agent.parser)

  -- `svc` up to the event loop
  unfoldable pub start : StartCalls → NtService → Outcome (Option NtService)
  unfolding start_after own_reactor
  start calls s =
      start_after calls (own_reactor calls.report_status s) (init os read_ini disk s.agent.parser)
