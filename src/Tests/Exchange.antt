-- ===== src/Tests/Exchange.antt =====
-- The theorem on a session and its handler, at requests for one page.
use license_checker.Prelude.{
  ℕ, Text, codes, Bool, true, false, not, Option, none, some, List, [], ◌∷◌, ok, ◌≡◌, refl, All, ap,
}
use license_checker.WebHandler.{get, Method, other, Request, Response, Opened, opened}
use license_checker.WebServer.Exchange.{IsNotPost, Served, handle, run-Served}
use license_checker.WebServer.Session.{Session, new_session, start, do_read, run}
use license_checker.WebServer.Session.KeepAlive.{conversation}

abbrev split_none : ℕ → Text → List Text
split_none c s = s ∷ []

abbrev open_page : Text → Opened
open_page path = opened (codes "<p>")

abbrev no_file : Text → Option Text
no_file path = none

abbrev closes_unless : Option Bool → Bool
closes_unless none = false
closes_unless (some b) = not b

abbrev need_eof : Response → Bool
need_eof x = closes_unless x.keep_alive

abbrev ask : Method → Bool → Request
ask m b = record { method = m; target = codes "/a.html"; keep_alive = b; body = [] }

abbrev requests : List Request
requests = ask get true ∷ ask other false ∷ ask get true ∷ []

requests-IsNotPost : All IsNotPost requests
requests-IsNotPost = (λ e. cc, (λ e. cc, (λ e. cc, tt)))

run-Served_example :
    (t : Session) × (run
        (handle split_none open_page no_file (codes "/www"))
        need_eof
        (conversation requests)
        (start new_session)
      ≡ ok t)
    × Served split_none open_page no_file
        (codes "/www")
        need_eof
        (λ x b e. ap closes_unless e)
        requests
        (start new_session)
        t
unfolding do_read
run-Served_example =
    run-Served split_none open_page no_file (codes "/www") need_eof (λ x b e. ap closes_unless e)
      requests (start new_session) requests-IsNotPost refl
