-- ===== src/Tests/Com.antt =====
-- The theorems on the object that WMI calls and on the service control manager, at sequences of calls.
use license_checker.Prelude.{
  pos, codes, true, All, ◌++◌, some, false, List, [], ◌∷◌, ◌≡◌, refl, arith,
}
use license_checker.Windows.NtService.{ControlCode, control_stop, other_control}
use license_checker.Windows.Scm.{Manager, running, stopped, make_report, service_main, new_service}
use license_checker.Windows.Scm.Reports.{
  all_succeed, has_stop, waits_for, serving, round_reports, control_reports, pending_reports,
  service_main-reports,
}
use license_checker.Windows.Sink.{
  EventSink, Call, call_add_ref, call_release, call_query, call_indicate, call_status, iid_other,
  iid_object_sink, status_complete, new_event_sink, add_ref, run,
}
use license_checker.Windows.Sink.Promise.{Contract, Matches, Refines, promises}
use license_checker.Windows.Sink.Promise.Kept.{run-Refines}

-- the sink that the notificator has just made, and what it promises
abbrev sink : EventSink
sink = (add_ref new_event_sink).1

abbrev contract : Contract
contract = record { holders = 1; opens = 0; classes = []; is_complete = false }

sink-Refines : Refines sink contract
unfolding add_ref new_event_sink
sink-Refines = record {
  counted = refl;
  deleted = refl;
  opened = refl;
  logged = refl;
  progressed = refl;
}

-- two objects, the end of the call, and a call too many
abbrev calls : List Call
calls =
    call_query iid_object_sink
    ∷ call_query iid_other
    ∷ call_release
    ∷ call_indicate (pos 2) (some (codes "first") ∷ some (codes "second") ∷ [])
    ∷ call_status status_complete
    ∷ call_release
    ∷ call_add_ref
    ∷ []

run-Refines_example : Matches (run calls sink) (promises calls contract)
run-Refines_example = run-Refines calls sink contract sink-Refines (omega arith)

-- a manager that takes every report
abbrev manager : Manager
manager = record { takes = λ n. true; last_error = λ n. 0 }

-- a control that asks nothing, and a stop in the second round
abbrev quiet : List (List ControlCode)
quiet = (other_control 4 ∷ []) ∷ []

quiet-IsQuiet : All (λ codes. has_stop codes ≡ false) quiet
unfolding has_stop
quiet-IsQuiet = (refl, tt)

stops : has_stop (control_stop ∷ []) ≡ true
unfolding has_stop
stops = refl

service_main-reports_example :
    service_main manager 1 all_succeed 3
      (quiet ++ (control_stop ∷ []) ∷ [])
      (new_service (waits_for 2 []))
    ≡ some (
        serving true
          (make_report running 0 0 0
            ∷ ((round_reports quiet ++ control_reports (control_stop ∷ []))
                ++ (pending_reports 1 2 ++ make_report stopped 0 0 0 ∷ [])))
          [])
service_main-reports_example =
    service_main-reports manager (λ n. refl) 0 2 3 quiet (control_stop ∷ []) [] [] quiet-IsQuiet
      stops (omega arith)
