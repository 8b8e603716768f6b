-- ===== src/Windows/Scm/Reports.antt =====
-- service.h: what a service reports from its start to its end.
use license_checker.Prelude.{
  ℕ, zero, suc, ◌<◌, Bool, true, false, ◌||◌, some, List, [], ◌∷◌, ◌++◌, length, All, append_assoc,
  append-nil, ◌≡◌, refl, sym, ap, ◌∙◌, arith, if◌then◌else◌,
}
use license_checker.Windows.NtService.{ControlCode, control_stop, control_shutdown, other_control}
use license_checker.Windows.Scm.{
  State, running, stop_pending, stopped, Report, WaitResult, wait_object, wait_timeout, Service,
  Manager, MainCalls, make_report, add_report, set_event, and_go, wait_thread, join_round,
  set_status, state_of, signal, after_control, service_ctrl, handle_controls, main_loop, main_join,
  stop_unless, create_event, begin_thread, close_handles, service_main, new_service,
}

-- what is reported for a control, and whether one of the controls asks to stop
pub control_reports : List ControlCode → List Report
unfolding make_report state_of
control_reports [] = []
control_reports (code ∷ codes) = make_report (state_of code) 0 0 0 ∷ control_reports codes

unfoldable pub has_stop : List ControlCode → Bool
has_stop [] = false
has_stop (control_stop ∷ codes) = true
has_stop (control_shutdown ∷ codes) = true
has_stop (other_control code ∷ codes) = has_stop codes

-- the reports for `n` waits that time out, from the check point `t` on
pub pending_reports : ℕ → ℕ → List Report
unfolding make_report
pending_reports t zero = []
pending_reports t (suc n) = make_report stop_pending 0 t 3000 ∷ pending_reports (suc t) n

-- `n` waits that time out, and one that ends with the thread
unfoldable pub waits_for : ℕ → List WaitResult → List WaitResult
waits_for zero later = wait_object ∷ later
waits_for (suc n) later = wait_timeout ∷ waits_for n later

pub round_reports : List (List ControlCode) → List Report
unfolding control_reports
round_reports [] = []
round_reports (codes ∷ rounds) = control_reports codes ++ round_reports rounds

-- a service with both handles
pub serving : Bool → List Report → List WaitResult → Service
serving signalled reports waits = record {
  has_event = true;
  has_thread = true;
  is_signalled = signalled;
  reports = reports;
  thread_waits = waits;
}

abbrev pub all_succeed : MainCalls
all_succeed = record {
  creates_event = true;
  begins_thread = true;
  closes_event = true;
  closes_thread = true;
}

module _ (scm : Manager) (taken : (n : ℕ) → scm.takes n ≡ true) (fuel : ℕ) where
  set_status-taken :
      (state : State) (e t h : ℕ) (s : Service)
      → set_status scm (suc fuel) state e t h s ≡ some (add_report (make_report state e t h) s)
  unfolding set_status
  set_status-taken state e t h s = rw (taken (length s.reports)) refl

  after_control-serving :
      (code : ControlCode) (b : Bool) (reports : List Report) (waits : List WaitResult)
      → after_control scm (suc fuel) code (serving b reports waits)
        ≡ some (serving (b || has_stop (code ∷ [])) reports waits)
  unfolding after_control signal set_event serving has_stop
  after_control-serving control_stop true reports waits = refl
  after_control-serving control_stop false reports waits = refl
  after_control-serving control_shutdown true reports waits = refl
  after_control-serving control_shutdown false reports waits = refl
  after_control-serving (other_control code) true reports waits = refl
  after_control-serving (other_control code) false reports waits = refl

  service_ctrl-serving :
      (code : ControlCode) (b : Bool) (reports : List Report) (waits : List WaitResult)
      → service_ctrl scm (suc fuel) code (serving b reports waits)
        ≡ some (
            serving
              (b || has_stop (code ∷ []))
              (reports ++ make_report (state_of code) 0 0 0 ∷ [])
              waits)
  unfolding service_ctrl and_go serving add_report
  service_ctrl-serving code b reports waits =
      ap (and_go (after_control scm (suc fuel) code))
        (set_status-taken (state_of code) 0 0 0 (serving b reports waits))
      ∙ after_control-serving code b (reports ++ make_report (state_of code) 0 0 0 ∷ []) waits

  has_stop-cons :
      (b : Bool) (code : ControlCode) (codes : List ControlCode)
      → ((b || has_stop (code ∷ [])) || has_stop codes) ≡ (b || has_stop (code ∷ codes))
  unfolding has_stop
  has_stop-cons b control_stop codes = ground arith
  has_stop-cons b control_shutdown codes = ground arith
  has_stop-cons b (other_control code) codes = ground arith

  same_serving :
      {b c : Bool} {xs ys : List Report} (waits : List WaitResult)
      → b ≡ c
      → xs ≡ ys
      → some (serving b xs waits) ≡ some (serving c ys waits)
  same_serving {b = b} {ys = ys} waits e h =
      ap (λ l. some (serving b l waits)) h ∙ ap (λ x. some (serving x ys waits)) e

  handle_controls-serving :
      (codes : List ControlCode) (b : Bool) (reports : List Report) (waits : List WaitResult)
      → handle_controls scm (suc fuel) codes (serving b reports waits)
        ≡ some (serving (b || has_stop codes) (reports ++ control_reports codes) waits)
  unfolding handle_controls and_go control_reports has_stop
  handle_controls-serving [] b reports waits =
      same_serving waits (ground arith) (sym (append-nil reports))
  handle_controls-serving (code ∷ codes) b reports waits =
      ap (and_go (handle_controls scm (suc fuel) codes)) (service_ctrl-serving code b reports waits)
      ∙ handle_controls-serving codes _ _ waits
      ∙ same_serving waits (has_stop-cons b code codes) (append_assoc reports _ _)

  -- the test of the main loop after the controls of a round
  main_round :
      (codes : List ControlCode) (rounds : List (List ControlCode)) (reports : List Report)
      (waits : List WaitResult) {b : Bool}
      → has_stop codes ≡ b
      → main_loop scm (suc fuel) (codes ∷ rounds) (serving false reports waits) ≡ (
          let rest =
            main_loop scm (suc fuel) rounds (serving b (reports ++ control_reports codes) waits) in
          if b then some (serving b (reports ++ control_reports codes) waits) else rest)
  unfolding main_loop and_go serving
  main_round codes rounds reports waits {b} e =
      ap
        (and_go (λ t.
          let rest = main_loop scm (suc fuel) rounds t in if t.is_signalled then some t else rest))
        (handle_controls-serving codes false reports waits ∙ same_serving waits e refl)

  main_loop-serving :
      (quiet : List (List ControlCode)) (last : List ControlCode) (later : List (List ControlCode))
      (reports : List Report) (waits : List WaitResult)
      → All (λ codes. has_stop codes ≡ false) quiet
      → has_stop last ≡ true
      → main_loop scm (suc fuel) (quiet ++ last ∷ later) (serving false reports waits)
        ≡ some (serving true (reports ++ (round_reports quiet ++ control_reports last)) waits)
  unfolding round_reports
  main_loop-serving [] last later reports waits q e = main_round last later reports waits e
  main_loop-serving (codes ∷ quiet) last later reports waits (h, q) e =
      main_round codes (quiet ++ last ∷ later) reports waits h
      ∙ main_loop-serving quiet last later (reports ++ control_reports codes) waits q e
      ∙ same_serving waits refl (
          append_assoc reports (control_reports codes) _
          ∙ ap (λ l. reports ++ l)
              (sym (
                append_assoc (control_reports codes) (round_reports quiet) (control_reports last))))

  main_join-serving :
      (n rounds t : ℕ) (reports : List Report) (later : List WaitResult)
      → n < rounds
      → main_join scm (suc fuel) rounds t (serving true reports (waits_for n later))
        ≡ some (serving true (reports ++ pending_reports t n) later)
  unfolding main_join wait_thread join_round waits_for pending_reports serving and_go add_report
  main_join-serving n zero t reports later h = elim h [ ]
  main_join-serving zero (suc rounds) t reports later h =
      same_serving later refl (sym (append-nil reports))
  main_join-serving (suc n) (suc rounds) t reports later h =
      ap (and_go (main_join scm (suc fuel) rounds (suc t)))
        (set_status-taken stop_pending 0 t 3000 (serving true reports (waits_for n later)))
      ∙ main_join-serving n rounds (suc t) _ later (omega arith)
      ∙ same_serving later refl (append_assoc reports _ _)

  -- Where the manager takes every report and every call succeeds: a service that is not asked to stop in
  -- some rounds, and is in the next one, ends as soon as its thread does. It reports that it runs, then
  -- one state for each control that came up to the end of that round, then check points that count the
  -- waits for the thread, and last that it has stopped.
  pub service_main-reports :
      (n rounds : ℕ) (quiet : List (List ControlCode)) (last : List ControlCode)
      (later : List (List ControlCode)) (waits : List WaitResult)
      → All (λ codes. has_stop codes ≡ false) quiet
      → has_stop last ≡ true
      → n < rounds
      → service_main scm
          (suc fuel)
          all_succeed
          rounds
          (quiet ++ last ∷ later)
          (new_service (waits_for n waits))
        ≡ some (
            serving true
              (make_report running 0 0 0
                ∷ ((round_reports quiet ++ control_reports last)
                    ++ (pending_reports 1 n ++ make_report stopped 0 0 0 ∷ [])))
              waits)
  unfolding service_main create_event begin_thread close_handles stop_unless new_service serving
      and_go add_report
  service_main-reports n rounds quiet last later waits q e h =
      ap
        (λ x. and_go (close_handles scm (suc fuel) all_succeed) (
          and_go (main_join scm (suc fuel) rounds 1)
            (and_go (main_loop scm (suc fuel) (quiet ++ last ∷ later)) x)))
        (set_status-taken running 0 0 0
          (record (new_service (waits_for n waits)) { has_event = true; has_thread = true }))
      ∙ ap
          (λ x.
            and_go (close_handles scm (suc fuel) all_succeed)
              (and_go (main_join scm (suc fuel) rounds 1) x))
          (main_loop-serving quiet last later (make_report running 0 0 0 ∷ []) (waits_for n waits) q
            e)
      ∙ ap (and_go (close_handles scm (suc fuel) all_succeed))
          (main_join-serving n rounds 1 _ waits h)
      ∙ set_status-taken stopped 0 0 0 _
      ∙ same_serving waits refl (
          append_assoc (make_report running 0 0 0 ∷ (round_reports quiet ++ control_reports last)) _
            _)
