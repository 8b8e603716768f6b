-- ===== src/WebServer/Listener.antt =====
-- http_server/listener.cpp and http_server/listener.h: the acceptor and the sessions that it starts.
pub mod Interleaving
use license_checker.Prelude.{
  ℕ, zero, suc, Text, codes, ◌++◌, ◌==◌, Bool, true, false, Option, none, some, List, [], ◌∷◌,
  Outcome, ok, and_then, if◌then◌else◌,
}
use license_checker.WebHandler.{Request, Response}
use license_checker.WebServer.Session.{
  ErrorCode, no_error, end_of_stream, other_error, Session, new_session, start, Completion,
}
use license_checker.WebServer.Session

-- whether the acceptor listens and an accept is outstanding, the sessions in the order in which they
-- were started, and what went to `std::cerr`
pub record Listener : Type 0 where
  pub is_listening : Bool
  pub accepting : Bool
  pub sessions : List Session
  pub log : List Text

unfoldable pub fail : Text → Text → Listener → Listener
fail message what l = record l {
  log = l.log ++ (what ++ (codes ": " ++ (message ++ 10 ∷ []))) ∷ [];
}

abbrev pub closed : Listener
closed = record { is_listening = false; accepting = false; sessions = []; log = [] }

-- The constructor, on the errors of `open`, `set_option`, `bind` and `listen`: each returns early.
unfoldable pub new_listener : Option Text → Option Text → Option Text → Option Text → Listener
new_listener (some message) set_option bind listen = fail message (codes "open") closed
new_listener none (some message) bind listen = fail message (codes "set_option") closed
new_listener none none (some message) listen = fail message (codes "bind") closed
new_listener none none none (some message) = fail message (codes "listen") closed
new_listener none none none none = record closed { is_listening = true }

unfoldable pub do_accept : Listener → Listener
do_accept l = record l { accepting = true }

abbrev pub start_listener : Listener → Listener
start_listener l = do_accept l

-- the session that is made and run, or the report
unfoldable pub take_socket : ErrorCode → Listener → Listener
take_socket no_error l = record l { sessions = l.sessions ++ start new_session ∷ [] }
take_socket end_of_stream l = fail (codes "end of stream") (codes "accept") l
take_socket (other_error message) l = fail message (codes "accept") l

unfoldable pub on_accept : ErrorCode → Listener → Listener
on_accept ec l = do_accept (take_socket ec l)

-- what can happen next: an accept, or a completion of one of the sessions
pub data Event : Type 0 where
  accepted : ErrorCode → Event
  completed : ℕ → Completion → Event

unfoldable pub update_at : ℕ → (Session → Outcome Session) → List Session → Outcome (List Session)
update_at i f [] = ok []
update_at zero f (s ∷ ss) = and_then (λ t. ok (t ∷ ss)) (f s)
update_at (suc i) f (s ∷ ss) = and_then (λ ts. ok (s ∷ ts)) (update_at i f ss)

-- The accept that is outstanding completes and is outstanding no more when its handler starts. Where
-- none is outstanding, none completes.
unfoldable pub complete_accept : ErrorCode → Listener → Listener
complete_accept ec l = if l.accepting then on_accept ec (record l { accepting = false }) else l

module _ (handle : Request → Outcome Response) (need_eof : Response → Bool) where
  unfoldable pub step : Event → Listener → Outcome Listener
  unfolding complete_accept
  step (accepted ec) l = ok (complete_accept ec l)
  step (completed i e) l =
      and_then (λ ss. ok (record l { sessions = ss }))
        (update_at i (Session.step handle need_eof e) l.sessions)

  unfoldable pub run : List Event → Listener → Outcome Listener
  run [] l = ok l
  run (e ∷ events) l = and_then (run events) (step e l)
