-- ===== src/Windows/Scm/Refusals.antt =====
-- service.h: a manager that takes no report.
use license_checker.Prelude.{ℕ, zero, suc, false, Option, none, some, length, ◌≡◌, refl}
use license_checker.Windows.Scm.{State, stopped, Service, Manager, and_go, set_status, error_stop}

and_go-none :
    (next : Service → Option Service)
    → ((s : Service) → next s ≡ none)
    → (o : Option Service) → and_go next o ≡ none
unfolding and_go
and_go-none next h none = refl
and_go-none next h (some s) = h s

-- A report that is not taken leads to another one, so with a manager that takes none no call of
-- `SetTheServiceStatus` returns, however deep the calls are.
pub set_status-refused :
    (scm : Manager)
    → ((n : ℕ) → scm.takes n ≡ false)
    → (fuel : ℕ) (state : State) (e t h : ℕ) (s : Service)
    → set_status scm fuel state e t h s ≡ none
unfolding set_status error_stop
set_status-refused scm refused zero state e t h s = refl
set_status-refused scm refused (suc fuel) state e t h s = rw (refused (length s.reports)) (
    and_go-none (set_status scm fuel stopped _ 0 0)
      (λ u. set_status-refused scm refused fuel stopped _ 0 0 u) _)
