-- ===== src/Windows/Scm.antt =====
-- service.h: a service on the bare Windows API, which reports its state to the service control
-- manager. Nothing includes this file any more.
pub mod Reports
pub mod Refusals
use license_checker.Windows.NtService.{ControlCode, control_stop, control_shutdown, other_control}
use license_checker.Prelude.{
  ℕ, zero, suc, ◌+◌, Bool, true, false, Option, none, some, List, [], ◌∷◌, ◌++◌, length, not,
  if◌then◌else◌,
}

pub data State : Type 0 where
  start_pending running stop_pending stopped : State

-- `SERVICE_STATUS`; `accepts_stop` is for STOP and SHUTDOWN, which come together.
pub record Report : Type 0 where
  pub current_state : State
  pub accepts_stop : Bool
  pub exit_code : ℕ
  pub check_point : ℕ
  pub wait_hint : ℕ

pub data WaitResult : Type 0 where
  wait_object wait_timeout wait_abandoned wait_failed : WaitResult

-- Whether `hStopEvent` and `hThread` are not null, whether the event is signalled, what was reported,
-- and what the next waits for the thread will give.
pub record Service : Type 0 where
  pub has_event : Bool
  pub has_thread : Bool
  pub is_signalled : Bool
  pub reports : List Report
  pub thread_waits : List WaitResult

is_starting : State → Bool
is_starting start_pending = true
is_starting _ = false

unfoldable pub make_report : State → ℕ → ℕ → ℕ → Report
unfolding is_starting
make_report state exit_code check_point wait_hint = record {
  current_state = state;
  accepts_stop = not (is_starting state);
  exit_code = exit_code;
  check_point = check_point;
  wait_hint = wait_hint;
}

unfoldable pub add_report : Report → Service → Service
add_report r s = record s { reports = s.reports ++ r ∷ [] }

-- `SetEvent` fails for a null handle.
unfoldable pub set_event : Service → Service
set_event s = if s.has_event then record s { is_signalled = true } else s

-- What follows, where the first has ended. `none` is a call that does not return: a wait that does not
-- end, or fuel that runs out.
unfoldable pub and_go : (Service → Option Service) → Option Service → Option Service
and_go next none = none
and_go next (some s) = next s

-- before `Service_Main`, with what the waits for the thread will give
unfoldable pub new_service : List WaitResult → Service
new_service waits = record {
  has_event = false;
  has_thread = false;
  is_signalled = false;
  reports = [];
  thread_waits = waits;
}

abbrev pub SetStatus : Type 0
SetStatus = State → ℕ → ℕ → ℕ → Service → Option Service

-- `WaitForSingleObject` of the thread, with what a loop does next. It fails for a null handle, and
-- `none` is a wait that does not end.
unfoldable pub wait_thread : (WaitResult → Service → Option Service) → Service → Option Service
wait_thread next s =
    let waited : Option Service = elim s.thread_waits [
      | [] ↦ none
      | w ∷ later ↦ next w (record s { thread_waits = later })
    ] in
    if s.has_thread then waited else next wait_failed s

-- a round of the loop that waits for the thread, of `ErrorStopService` and of `Service_Main`, where
-- `on_error` is what follows a wait that failed
unfoldable pub join_round :
    SetStatus
    → (Service → Option Service)
    → (Service → Option Service)
    → ℕ
    → WaitResult
    → Service
    → Option Service
join_round set on_error next t wait_object s = some s
join_round set on_error next t wait_timeout s = and_go next (set stop_pending 0 t 3000 s)
join_round set on_error next t wait_abandoned s = on_error s
join_round set on_error next t wait_failed s = on_error s

-- the loop of `ErrorStopService`, which a failed wait ends; `rounds` bounds it
error_join : SetStatus → ℕ → ℕ → Service → Option Service
unfolding wait_thread join_round
error_join set zero t s = none
error_join set (suc rounds) t s =
    wait_thread (join_round set some (error_join set rounds (suc t)) t) s

-- `ErrorStopService`, where `set` is `SetTheServiceStatus` and `error` what `GetLastError` gives; each
-- round but the last takes one of the waits
unfoldable pub error_stop : SetStatus → ℕ → Service → Option Service
unfolding error_join
error_stop set error s =
    and_go (set stopped error 0 0) (error_join set (suc (length s.thread_waits)) 1 (set_event s))

-- `dwState` of `Service_Ctrl`
unfoldable pub state_of : ControlCode → State
state_of control_stop = stop_pending
state_of control_shutdown = stop_pending
state_of (other_control code) = running

-- What the system does: whether the n-th report is taken, and the error code after it.
pub record Manager : Type 0 where
  pub takes : ℕ → Bool
  pub last_error : ℕ → ℕ

module _ (scm : Manager) where
  -- `SetTheServiceStatus`; `fuel` bounds the calls that are within one another
  unfoldable pub set_status : ℕ → SetStatus
  unfolding make_report
  set_status zero state exit_code check_point wait_hint s = none
  set_status (suc fuel) state exit_code check_point wait_hint s =
      let t = add_report (make_report state exit_code check_point wait_hint) s in
      let stops = error_stop (set_status fuel) (scm.last_error (length s.reports)) t in
      if scm.takes (length s.reports) then some t else stops

  -- `ErrorStopService`, called from elsewhere
  unfoldable pub stop_service : ℕ → Service → Option Service
  stop_service fuel s = error_stop (set_status fuel) (scm.last_error (length s.reports)) s

  signal : ℕ → Service → Option Service
  signal fuel s =
      let failed = stop_service fuel s in if s.has_event then some (set_event s) else failed

  after_control : ℕ → ControlCode → Service → Option Service
  unfolding signal
  after_control fuel control_stop s = signal fuel s
  after_control fuel control_shutdown s = signal fuel s
  after_control fuel (other_control code) s = some s

  -- `Service_Ctrl`
  unfoldable pub service_ctrl : ℕ → ControlCode → Service → Option Service
  unfolding state_of after_control
  service_ctrl fuel code s =
      and_go (after_control fuel code) (set_status fuel (state_of code) 0 0 0 s)

  handle_controls : ℕ → List ControlCode → Service → Option Service
  unfolding service_ctrl
  handle_controls fuel [] s = some s
  handle_controls fuel (code ∷ codes) s =
      and_go (handle_controls fuel codes) (service_ctrl fuel code s)

  -- The main loop, with the controls that come before each wait; it goes on waiting after the last.
  unfoldable pub main_loop : ℕ → List (List ControlCode) → Service → Option Service
  unfolding handle_controls
  main_loop fuel [] s = none
  main_loop fuel (codes ∷ rounds) s =
      and_go (λ t. let rest = main_loop fuel rounds t in if t.is_signalled then some t else rest)
        (handle_controls fuel codes s)

  -- the loop of `Service_Main` that waits for the thread, which goes on after a failed wait
  unfoldable pub main_join : ℕ → ℕ → ℕ → Service → Option Service
  unfolding wait_thread join_round
  main_join fuel zero t s = none
  main_join fuel (suc rounds) t s =
      let next = main_join fuel rounds (suc t) in
      wait_thread (join_round (set_status fuel) (λ v. and_go next (stop_service fuel v)) next t) s

  stop_unless : ℕ → Bool → Service → Option Service
  stop_unless fuel true s = some s
  stop_unless fuel false s = stop_service fuel s

-- The results of the calls of `Service_Main`. The thread is compared with INVALID_HANDLE_VALUE, which
-- `_beginthreadex` never gives, so nothing is done where it fails.
pub record MainCalls : Type 0 where
  pub creates_event : Bool
  pub begins_thread : Bool
  pub closes_event : Bool
  pub closes_thread : Bool

module _ (scm : Manager) (fuel : ℕ) (calls : MainCalls) where
  create_event : Service → Option Service
  unfolding stop_unless
  create_event s =
      stop_unless scm fuel calls.creates_event (record s { has_event = calls.creates_event })

  begin_thread : Service → Option Service
  begin_thread s = set_status scm fuel running 0 0 0 (record s { has_thread = calls.begins_thread })

  close_handles : Service → Option Service
  unfolding stop_unless
  close_handles s = and_go (set_status scm fuel stopped 0 0 0) (
      and_go (stop_unless scm fuel calls.closes_thread) (stop_unless scm fuel calls.closes_event s))

  -- `Service_Main`; `rounds` bounds the waits for the thread
  unfoldable pub service_main : ℕ → List (List ControlCode) → Service → Option Service
  unfolding create_event begin_thread main_loop main_join close_handles
  service_main rounds controls s = and_go close_handles (
      and_go (main_join scm fuel rounds 1)
        (and_go (main_loop scm fuel controls) (and_go begin_thread (create_event s))))
