-- ===== src/Windows/Notifications/Lifetime.antt =====
-- nt_service/notificator.cpp: what is left after every way in which the start can fail.
use license_checker.Prelude.{Bool, true, false, ◌&&◌, ok, fault, ◌≡◌, refl, if◌then◌else◌}
use license_checker.Windows.Notifications.{
  ComCalls, new_notificator, init_context, create_services, create_sink, register_notification,
  initialize, release, and_next, co_initialize, co_uninitialize,
}

-- the calls after which both pointers are set
abbrev pub is_connected : ComCalls → Bool
is_connected calls =
    calls.initialize
    && (calls.initialize_security
        && (calls.create_locator
            && (calls.connect_server
                && (calls.set_proxy_blanket
                    && (calls.create_apartment && (calls.create_stub && calls.query_interface))))))

abbrev Lives : ComCalls → Type 0
Lives calls =
    ((initialize calls new_notificator).0 ≡ (is_connected calls && calls.exec_query))
    × (release (initialize calls new_notificator).1
        ≡ (if is_connected calls then ok new_notificator else fault))

lives :
    (a b c d e f g h i : Bool)
    → Lives (record {
      initialize = a;
      initialize_security = b;
      create_locator = c;
      connect_server = d;
      set_proxy_blanket = e;
      create_apartment = f;
      create_stub = g;
      query_interface = h;
      exec_query = i;
    })
unfolding initialize init_context create_services create_sink register_notification release and_next
    co_initialize co_uninitialize
lives false b c d e f g h i = (refl, refl)
lives true false c d e f g h i = (refl, refl)
lives true true false d e f g h i = (refl, refl)
lives true true true false e f g h i = (refl, refl)
lives true true true true false f g h i = (refl, refl)
lives true true true true true false g h i = (refl, refl)
lives true true true true true true false h i = (refl, refl)
lives true true true true true true true false i = (refl, refl)
lives true true true true true true true true false = (refl, refl)
lives true true true true true true true true true = (refl, refl)

-- `Initialize` succeeds exactly if all nine calls do. Where the first eight do, `Release` afterwards
-- gives everything back; where one of them fails, `Release` uses a pointer that was never set.
pub release-initialize :
    (calls : ComCalls)
    → ((initialize calls new_notificator).0 ≡ (is_connected calls && calls.exec_query))
      × (release (initialize calls new_notificator).1
          ≡ (if is_connected calls then ok new_notificator else fault))
release-initialize calls =
    lives calls.initialize calls.initialize_security calls.create_locator calls.connect_server
      calls.set_proxy_blanket calls.create_apartment calls.create_stub calls.query_interface
      calls.exec_query
