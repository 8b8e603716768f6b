-- ===== src/Windows/Notifications.antt =====
-- nt_service/notificator.cpp: the service asks WMI to tell it of new
-- processes. Whether a call of COM succeeds comes in `ComCalls`.
pub mod Lifetime
use license_checker.Prelude.{
  ℕ, zero, suc, ◌+◌, ◌-◌, Bool, true, false, Outcome, ok, fault, if◌then◌else◌,
}

-- the nine calls, in the order in which they are made
pub record ComCalls : Type 0 where
  pub initialize : Bool
  pub initialize_security : Bool
  pub create_locator : Bool
  pub connect_server : Bool
  pub set_proxy_blanket : Bool
  pub create_apartment : Bool
  pub create_stub : Bool
  pub query_interface : Bool
  pub exec_query : Bool

-- How often COM is initialised, whether `service_` and `stub_sink_` have been set, and whether
-- notifications come. The constructor sets neither pointer.
pub record Notificator : Type 0 where
  pub com_count : ℕ
  pub has_service : Bool
  pub has_stub : Bool
  pub is_registered : Bool

abbrev pub new_notificator : Notificator
new_notificator = record {
  com_count = 0;
  has_service = false;
  has_stub = false;
  is_registered = false;
}

-- `false` is the result -1
abbrev pub Result : Type 0
Result = Bool × Notificator

co_initialize : Notificator → Notificator
co_initialize n = record n { com_count = suc n.com_count }

co_uninitialize : Notificator → Notificator
co_uninitialize n = record n { com_count = n.com_count - 1 }

unfoldable pub init_context : ComCalls → Notificator → Result
unfolding co_initialize co_uninitialize
init_context calls n =
    if calls.initialize
    then if calls.initialize_security
      then (true, co_initialize n)
      else (false, co_uninitialize (co_initialize n))
    else (false, n)

unfoldable pub create_services : ComCalls → Notificator → Result
create_services calls n =
    if calls.create_locator
    then if calls.connect_server
      then (calls.set_proxy_blanket, record n { has_service = true })
      else (false, n)
    else (false, n)

unfoldable pub create_sink : ComCalls → Notificator → Result
create_sink calls n =
    if calls.create_apartment
    then if calls.create_stub
      then if calls.query_interface then (true, record n { has_stub = true }) else (false, n)
      else (false, n)
    else (false, n)

unfoldable pub register_notification : ComCalls → Notificator → Result
register_notification calls n =
    if calls.exec_query then (true, record n { is_registered = true }) else (false, n)

and_next : (Notificator → Result) → Result → Result
and_next next (true, n) = next n
and_next next (false, n) = (false, n)

-- `Initialize`: each step is made only if the one before has not failed.
unfoldable pub initialize : ComCalls → Notificator → Result
unfolding and_next
initialize calls n =
    and_next (register_notification calls)
      (and_next (create_sink calls) (and_next (create_services calls) (init_context calls n)))

-- `Release`: both pointers are used, whether or not they have been set.
unfoldable pub release : Notificator → Outcome Notificator
unfolding co_uninitialize
release n =
    if n.has_service
    then if n.has_stub
      then ok (
          co_uninitialize
            (record n { has_service = false; has_stub = false; is_registered = false }))
      else fault
    else fault
