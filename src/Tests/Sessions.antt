-- ===== src/Tests/Sessions.antt =====
-- The theorems on connections and sessions, at inputs.
use license_checker.Prelude.{
  ℕ, pos, atoi, c_str, ◌==◌, if◌then◌else◌, arith, zero, suc, Text, codes, text_eq, length, ◌≤◌,
  true, false, List, [], ◌∷◌, ◌++◌, All, inl, Bool, not, none, some, Outcome, ok, ◌≡◌, refl, arith,
}
use license_checker.Server.Connections.{Connection, reading, writing, kept}
use license_checker.Server.Connections.Reads.{join, EndsInNul, feed, Serves, feed-Serves}
use license_checker.Server.Exchange.{received_of, feed-read_reply}
use license_checker.Server.Handler.{handle_request}
use license_checker.Server.Parser.{parse, new_parser, consume, consume_line, is_tspecial}
use license_checker.Server.Parser.RoundTrip.{
  print_request, print_version, print_headers, print_header,
}
use license_checker.Server.Reply.{Reply, not_found, status_number}
use license_checker.Server.Reply.Wire.{wire, read_reply, read_reply-wire}
use license_checker.Server.Message
use license_checker.Server.Message.{Header, no_request}
use license_checker.Server.Parameters.{content_length, parse_parameters}
use license_checker.Server.Parameters.RoundTrip.{
  Splits, IsField, print_form, print_pair, parse_parameters-print_form,
}
use license_checker.Tests.Web.{small_request, small_request-IsRequest, read_page, no_reply}
use license_checker.WebHandler.{Request, Response, get}
use license_checker.WebServer.Listener
use license_checker.WebServer.Listener.{
  Listener, Event, accepted, completed, update_at, on_accept, take_socket, do_accept, fail,
}
use license_checker.WebServer.Listener.Interleaving.{Accepts, run-Accepts}
use license_checker.WebServer.Session
use license_checker.WebServer.Session.{
  Session, Completion, read_done, write_done, no_error, end_of_stream, other_error, new_session,
  start, do_read, do_close, complete, on_read, send_handled, send, on_write, deliver,
}
use license_checker.WebServer.Session.KeepAlive.{Upholds, run-IsConsistent}

abbrev zeros : ℕ → Text
zeros zero = []
zeros (suc n) = 0 ∷ zeros n

abbrev connection : Connection
connection = record {
  id = 1;
  parser = new_parser;
  reply = no_reply;
  buffer = zeros 64 ++ 0 ∷ [];
  pending = reading;
}

connection-EndsInNul : EndsInNul 64 connection.buffer
connection-EndsInNul = record { front = zeros 64; is_long = refl; split_at = refl }

abbrev split_none : ℕ → Text → List Text
split_none c s = s ∷ []

abbrev first_piece : Text
first_piece = b'G' ∷ b' ' ∷ b'/' ∷ []

abbrev last_piece : Text
last_piece =
    b'a' ∷ b' ' ∷ codes "HTTP/1.0" ++ (13 ∷ 10 ∷ b'H' ∷ b':' ∷ b' ' ∷ b'x' ∷ 13 ∷ 10 ∷ 13 ∷ 10 ∷ [])

abbrev pieces : List Text
pieces = first_piece ∷ last_piece ∷ []

pieces_fit : All (λ b. length b ≤ 64) pieces
unfolding codes
pieces_fit = (omega arith, (omega arith, tt))

pieces-print_request : join pieces ≡ print_request small_request []
unfolding codes join print_request print_version print_headers print_header
pieces-print_request = refl

feed-read_reply_example :
    (d : Connection) × (feed split_none read_page (codes "/www") pieces connection ≡ kept d)
    × (d.pending ≡ writing)
    × (read_reply (wire d.reply)
        ≡ some (received_of (handle_request read_page (codes "/www") small_request no_reply)))
unfolding text_eq codes
feed-read_reply_example =
    feed-read_reply split_none read_page (codes "/www") 64 pieces connection small_request []
      small_request-IsRequest refl pieces-print_request pieces_fit connection-EndsInNul refl refl

-- two pieces that are refused at their first byte
abbrev wrong : List Text
wrong = (b' ' ∷ []) ∷ (b'x' ∷ []) ∷ []

feed-Serves_example :
    Serves split_none read_page
      (codes "/www")
      no_reply
      (parse (join wrong) new_parser)
      (feed split_none read_page (codes "/www") wrong connection)
unfolding parse join consume consume_line is_tspecial
feed-Serves_example =
    feed-Serves split_none read_page (codes "/www") 64 wrong connection
      (omega arith, (omega arith, tt)) connection-EndsInNul refl (inl refl) tt

-- a handler that takes every request, and keeps the connection if the request does
abbrev respond : Request → Response
respond r = record {
  status = 200;
  content_type = none;
  keep_alive = some r.keep_alive;
  body = r.target;
}

abbrev handle : Request → Outcome Response
handle r = ok (respond r)

abbrev need_eof : Response → Bool
need_eof r = elim r.keep_alive [ none ↦ true | some b ↦ not b ]

abbrev ask : Bool → Request
ask keep = record { method = get; target = b'/' ∷ []; keep_alive = keep; body = [] }

abbrev events : List Completion
events =
    read_done no_error (ask true)
    ∷ write_done no_error
    ∷ read_done no_error (ask false)
    ∷ write_done (other_error (b'x' ∷ []))
    ∷ []

run-IsConsistent_example :
    Upholds handle need_eof (Session.run handle need_eof events (start new_session))
unfolding do_read
run-IsConsistent_example =
    run-IsConsistent handle need_eof events (start new_session) (refl, refl, refl)

-- two sessions, the second of which is closed by its peer
abbrev mixed : List Event
mixed =
    completed 0 (read_done no_error (ask true))
    ∷ accepted no_error
    ∷ accepted (other_error (b'x' ∷ []))
    ∷ completed 1 (read_done end_of_stream (ask true))
    ∷ completed 0 (write_done no_error)
    ∷ []

abbrev listener : Listener
listener = record {
  is_listening = true;
  accepting = true;
  sessions = start new_session ∷ [];
  log = [];
}

-- what is left of the listener
abbrev left_over : Listener
left_over = record listener {
  sessions =
      record (start new_session) { written = respond (ask true) ∷ [] }
      ∷ do_close (start new_session)
      ∷ [];
  log = (codes "accept" ++ (codes ": " ++ (b'x' ∷ 10 ∷ []))) ∷ [];
}

run-mixed : Listener.run handle need_eof mixed listener ≡ ok left_over
unfolding Listener.run Listener.step update_at on_accept take_socket do_accept fail Session.step
    complete on_read send_handled send on_write deliver do_read do_close
run-mixed = refl

run-Accepts_example : Accepts mixed listener left_over
run-Accepts_example = run-Accepts handle need_eof mixed listener left_over run-mixed refl

abbrev page_reply : Reply
page_reply = record {
  status = not_found;
  headers =
      record { name = b'N' ∷ []; value = b'5' ∷ b':' ∷ [] }
      ∷ record { name = b'T' ∷ []; value = [] }
      ∷ [];
  content = b'h' ∷ 13 ∷ 10 ∷ [];
}

read_reply-wire_example :
    read_reply (wire page_reply)
    ≡ some (record {
      code = status_number page_reply.status;
      headers = page_reply.headers;
      content = page_reply.content;
    })
read_reply-wire_example =
    read_reply-wire page_reply
      (((refl, tt), (refl, tt), (refl, (refl, tt))), (((refl, tt), (refl, tt), tt), tt))

add_to_first : ℕ → List Text → List Text
add_to_first c [] = (c ∷ []) ∷ []
add_to_first c (p ∷ ps) = (c ∷ p) ∷ ps

-- the pieces of a text
split_on : ℕ → Text → List Text
unfolding add_to_first
split_on c [] = [] ∷ []
split_on c (x ∷ s) = let rest = split_on c s in if x == c then [] ∷ rest else add_to_first x rest

split_on_whole : (c : ℕ) (s : Text) → All (λ x. (x == c) ≡ false) s → split_on c s ≡ s ∷ []
unfolding split_on
split_on_whole c [] h = refl
split_on_whole c (x ∷ s) (h, hs) = rw (h, split_on_whole c s hs) refl

split_on_parted :
    (c : ℕ) (s t : Text)
    → All (λ x. (x == c) ≡ false) s
    → split_on c (s ++ (c ∷ t)) ≡ s ∷ split_on c t
unfolding split_on
split_on_parted c [] t h = let same : (c == c) ≡ true = ground arith in rw same refl
split_on_parted c (x ∷ s) t (h, hs) = rw (h, split_on_parted c s t hs) refl

split_on-Splits : Splits split_on
split_on-Splits = record { whole = split_on_whole; parted = split_on_parted }

abbrev first_field : Header
first_field = record { name = b'a' ∷ []; value = b'1' ∷ [] }

abbrev second_field : Header
second_field = record { name = b'b' ∷ []; value = [] }

first-IsField : IsField first_field
first-IsField = record {
  name_whole = (refl, tt);
  value_whole = (refl, tt);
  name_apart = (refl, tt);
  value_apart = (refl, tt);
}

second-IsField : IsField second_field
second-IsField = record {
  name_whole = (refl, tt);
  value_whole = tt;
  name_apart = (refl, tt);
  value_apart = tt;
}

-- `a=1&b=` has six bytes
abbrev form_request : Message.Request
form_request = record no_request {
  headers = record { name = codes "Content-Length"; value = b'6' ∷ [] } ∷ [];
}

form-declared :
    content_length form_request ≡ pos (length (print_form first_field (second_field ∷ [])))
unfolding content_length print_form print_pair text_eq codes atoi c_str
form-declared = refl

parse_parameters-print_form_example :
    parse_parameters split_on form_request
      (print_form first_field (second_field ∷ []) ++ (b'x' ∷ []))
    ≡ ok (record form_request {
      parameters = form_request.parameters ++ first_field ∷ second_field ∷ [];
    })
parse_parameters-print_form_example =
    parse_parameters-print_form split_on split_on-Splits first_field (second_field ∷ []) (b'x' ∷ [])
      form_request first-IsField (second-IsField, tt) form-declared
