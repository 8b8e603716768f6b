-- ===== src/Daemon/Sound.antt =====
-- The configuration and the timers of an agent that may run.
use license_checker.Config.Bounds.{IsAccepted, InRange}
use license_checker.Config.{Options}
use license_checker.Prelude.{ℤ, pos, negsuc, Option, none, some, ◌≡◌, ◌⊎◌, refl, arith}
use license_checker.Service.{Agent}
use license_checker.Tasks.Shared.{minutes, hours}

-- A timer that fires within a day.
abbrev pub IsDue : Option ℤ → Type 0
IsDue t = (n : ℤ) × (t ≡ some n) × InRange 86400 n

-- The options are accepted ones, both tasks have what they say, the task that stops programs is due
-- within a day, and so is the other, if it is due at all.
pub record IsSound (s : Agent) : Type 0 where
  pub options : Options
  pub is_read : s.parser.options ≡ some options
  pub accepted : IsAccepted options
  pub waits : s.settings.waiting_hours ≡ options.next_day_waiting_hours
  pub retries : s.settings.try_mins ≡ options.next_try_get_license_mins
  pub names : s.settings.stopping_name ≡ options.kill_file_name
  pub killer_is_due : IsDue s.settings.killer_timer
  pub license_is_due : (s.settings.license_timer ≡ none) ⊎ IsDue s.settings.license_timer

hours-InRange : (h : ℤ) → InRange 24 h → InRange 86400 (hours h)
hours-InRange (pos n) r =
    let low = r.positive in
    let high = r.at_most in record { positive = omega arith; at_most = omega arith }
hours-InRange (negsuc n) r = let low = r.positive in ground (arith, low)

minutes-InRange : (m : ℤ) → InRange 60 m → InRange 86400 (minutes m)
minutes-InRange (pos n) r =
    let low = r.positive in
    let high = r.at_most in record { positive = omega arith; at_most = omega arith }
minutes-InRange (negsuc n) r = let low = r.positive in ground (arith, low)

pub hours-IsDue :
    (o : Options) (h : ℤ) → IsAccepted o → h ≡ o.next_day_waiting_hours → IsDue (some (hours h))
hours-IsDue o h a e = (hours h, refl, hours-InRange h (rw e a.wait_hours))

pub minutes-IsDue :
    (o : Options) (m : ℤ)
    → IsAccepted o
    → m ≡ o.next_try_get_license_mins
    → IsDue (some (minutes m))
minutes-IsDue o m a e = (minutes m, refl, minutes-InRange m (rw e a.retry_mins))

pub five-IsDue : IsDue (some (pos 5))
five-IsDue = (pos 5, refl, record { positive = omega arith; at_most = omega arith })

pub set_license_timer-IsSound :
    (a : Agent) (t : Option ℤ)
    → IsSound a
    → (t ≡ none) ⊎ IsDue t
    → IsSound (record a { settings = record a.settings { license_timer = t } })
set_license_timer-IsSound a t h due = record {
  options = h.options;
  is_read = h.is_read;
  accepted = h.accepted;
  waits = h.waits;
  retries = h.retries;
  names = h.names;
  killer_is_due = h.killer_is_due;
  license_is_due = due;
}

pub set_killer_timer-IsSound :
    (a : Agent) (t : Option ℤ)
    → IsSound a
    → IsDue t
    → IsSound (record a { settings = record a.settings { killer_timer = t } })
set_killer_timer-IsSound a t h due = record {
  options = h.options;
  is_read = h.is_read;
  accepted = h.accepted;
  waits = h.waits;
  retries = h.retries;
  names = h.names;
  killer_is_due = due;
  license_is_due = h.license_is_due;
}
