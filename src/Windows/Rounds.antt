-- ===== src/Windows/Rounds.antt =====
-- nt_service/config_change.cpp, `svc`: the rounds up to the one in which the configuration changes.
use license_checker.Prelude.{
  ℕ, suc, Text, length, ◌+◌, ◌-◌, ◌++◌, All, Bool, true, false, Option, some, List, [], ◌∷◌,
  Outcome, ok, ◌≡◌, refl, ap, ◌∙◌, arith, if◌then◌else◌,
}
use license_checker.Windows.{
  Watcher, Round, finish, create_file, take_changes, go_on, round, watch, svc, processing,
}

-- A round in which the calls succeed, and in whose changes the file is as `changed` says.
pub record Reports (file_name : Text) (fuel : ℕ) (changed : Bool) (r : Round) : Type 0 where
  pub is_opened : r.is_opened ≡ true
  pub is_waited : r.is_waited ≡ true
  pub scanned : processing file_name fuel r.buffer 61440 0 ≡ some (ok changed)

go_on_running :
    (next : Watcher → Option (Outcome Watcher)) (w : Watcher) (b : Bool)
    → b ≡ false
    → (if b then some (ok (finish w)) else next w) ≡ next w
go_on_running next w b e = rw e refl

module _ (file_name : Text) (fuel : ℕ) where
  round_lem :
      (changed : Bool) (r : Round) (w : Watcher)
      → Reports file_name fuel changed r
      → round file_name fuel r w ≡ take_changes (create_file w) (some (ok changed))
  unfolding round
  round_lem changed r w h = rw (h.is_opened, h.is_waited, h.scanned) refl

  watch_lem :
      (quiet : List Round) (last : Round) (later : List Round) (w : Watcher)
      → All (Reports file_name fuel false) quiet
      → Reports file_name fuel true last
      → w.is_stopped ≡ false
      → watch file_name fuel (quiet ++ last ∷ later) w
        ≡ some (
            ok (record w {
              is_stopped = true;
              is_signalled = true;
              is_active = true;
              open_handles = w.open_handles + length quiet;
            }))
  unfolding watch go_on take_changes create_file finish
  watch_lem [] last later w hs h running =
      let n : suc w.open_handles - 1 ≡ w.open_handles + 0 = omega arith in
      ap (go_on (watch file_name fuel later)) (round_lem true last w h) ∙ rw n refl
  watch_lem (r ∷ quiet) last later w (q, qs) h running =
      let n : suc w.open_handles + length quiet ≡ w.open_handles + suc (length quiet) =
        omega arith in
      ap (go_on (watch file_name fuel (quiet ++ last ∷ later))) (round_lem false r w q)
      ∙ go_on_running (watch file_name fuel (quiet ++ last ∷ later)) (create_file w) w.is_stopped
          running
      ∙ watch_lem quiet last later (create_file w) qs h running
      ∙ ap
          (λ k. some (
            ok (record w {
              is_stopped = true;
              is_signalled = true;
              is_active = true;
              open_handles = k;
            })))
          n

  -- After rounds in which the calls succeed and the file does not change, the first round in which it
  -- does ends `svc`, whatever would come later: both events are signalled, and one handle of the
  -- directory is left open for each of the rounds before.
  pub svc-stops :
      (quiet : List Round) (last : Round) (later : List Round) (w : Watcher)
      → All (Reports file_name fuel false) quiet
      → Reports file_name fuel true last
      → svc file_name fuel (quiet ++ last ∷ later) w
        ≡ some (
            ok (record w {
              is_stopped = true;
              is_signalled = true;
              is_active = true;
              open_handles = w.open_handles + length quiet;
            }))
  unfolding svc
  svc-stops quiet last later w hs h =
      watch_lem quiet last later (record w { is_stopped = false }) hs h refl
