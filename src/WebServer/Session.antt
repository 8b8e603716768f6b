-- ===== src/WebServer/Session.antt =====
-- http_server/session.cpp and http_server/session.h. `handle` is the handler of requests, which
-- sends one response or is undefined, and `need_eof` is that of the response.
pub mod KeepAlive
use license_checker.Prelude.{
  ℕ, Text, codes, ◌++◌, Bool, true, false, Option, none, some, List, [], ◌∷◌, Outcome, ok, throws,
  fault, and_then,
}
use license_checker.WebHandler.{Request, Response}

-- The message of an error is what `ec.message()` gives.
pub data ErrorCode : Type 0 where
  no_error : ErrorCode
  end_of_stream : ErrorCode
  other_error : Text → ErrorCode

-- The asynchronous call that is outstanding; after the last the session is released. `writing` has
-- the argument `close` that is bound to the handler.
pub data Pending : Type 0 where
  reading : Pending
  writing : Bool → Pending
  idle : Pending

-- `request` and `response` are `req_` and `res_`; `expires_after` is the time set for the stream, in
-- seconds, `written` what the peer was sent, and `log` what went to `std::cerr`.
pub record Session : Type 0 where
  pub request : Option Request
  pub response : Option Response
  pub pending : Pending
  pub expires_after : ℕ
  pub written : List Response
  pub is_shut_down : Bool
  pub log : List Text

abbrev pub new_session : Session
new_session = record {
  request = none;
  response = none;
  pending = idle;
  expires_after = 0;
  written = [];
  is_shut_down = false;
  log = [];
}

unfoldable pub do_read : Session → Session
do_read s = record s { request = none; expires_after = 30; pending = reading }

abbrev pub start : Session → Session
start s = do_read s

-- The socket is shut down for sending, and nothing is outstanding any more.
unfoldable pub do_close : Session → Session
do_close s = record s { is_shut_down = true; pending = idle }

unfoldable pub fail : Text → Text → Session → Session
fail message what s = record s {
  log = s.log ++ (what ++ (codes ": " ++ (message ++ 10 ∷ []))) ∷ [];
  pending = idle;
}

-- what completes: a read with its request, or a write
pub data Completion : Type 0 where
  read_done : ErrorCode → Request → Completion
  write_done : ErrorCode → Completion

-- what was sent, where the write succeeds
unfoldable pub deliver : Option Response → Session → Session
deliver none s = s
deliver (some r) s = record s { written = s.written ++ r ∷ [] }

unfoldable pub on_write : Bool → ErrorCode → Session → Session
on_write close (other_error message) s = fail message (codes "write") s
on_write close end_of_stream s = fail (codes "end of stream") (codes "write") s
on_write true no_error s = do_close (deliver s.response s)
on_write false no_error s = do_read (record (deliver s.response s) { response = none })

module _ (handle : Request → Outcome Response) (need_eof : Response → Bool) where
  -- `send_lambda`
  unfoldable pub send : Response → Session → Session
  send r s = record s { response = some r; pending = writing (need_eof r) }

  unfoldable pub send_handled : Outcome Response → Session → Outcome Session
  send_handled (ok r) s = ok (send r s)
  send_handled (throws e) s = throws e
  send_handled fault s = fault

  -- The request is moved out of the session.
  unfoldable pub on_read : ErrorCode → Request → Session → Outcome Session
  on_read end_of_stream r s = ok (do_close s)
  on_read (other_error message) r s = ok (fail message (codes "read") s)
  on_read no_error r s = send_handled (handle r) s

  -- The handler that the outstanding call has; a call that is not outstanding does not complete.
  unfoldable pub complete : Pending → Completion → Session → Outcome Session
  complete reading (read_done ec r) s = on_read ec r s
  complete (writing close) (write_done ec) s = ok (on_write close ec s)
  complete _ e s = ok s

  unfoldable pub step : Completion → Session → Outcome Session
  step e s = complete s.pending e s

  unfoldable pub run : List Completion → Session → Outcome Session
  run [] s = ok s
  run (e ∷ events) s = and_then (run events) (step e s)
