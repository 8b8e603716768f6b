-- ===== src/Tests/Web.antt =====
-- The theorems on the two HTTP servers, at inputs.
use license_checker.Prelude.{
  ℕ, Text, codes, Bool, true, false, Option, none, some, List, [], ◌∷◌, ◌++◌, ok, ◌≡◌, refl, arith,
  inl, text_eq, if◌then◌else◌, ◌==◌,
}
use license_checker.Server.Connections.{
  Connection, Server, Event, no_error, accepted, received, reading,
}
use license_checker.Server.Handler.{handle_request}
use license_checker.Server.Handler.Paths.{Replies, handle_request-Replies}
use license_checker.Server.Message.{Request, no_request}
use license_checker.Server.Parser.{new_parser, parse, good, expecting_newline_3, is_tspecial}
use license_checker.Server.Parser.Fields.{IsToken}
use license_checker.Server.Parser.RoundTrip.{IsRequest, print_request, parse-print_request}
use license_checker.Server.Parser.Chunks.{parse_more, parse-append}
use license_checker.Server.Parser.Safety.{EndsWell, parse-EndsWell}
use license_checker.Server.Reply.{Reply, success}
use license_checker.Server.Url.{url_decode}
use license_checker.Server.Url.RoundTrip.{encode, url_decode-encode}
use license_checker.WebHandler
use license_checker.Server.Handler.{is_rooted, has_dots}
use license_checker.WebHandler.{
  check_target, respond, respond_get, answer_opened, Opened, opened, Method, get, other,
}
use license_checker.WebHandler.Safety.{IsLegal, IsGranted, handle_request-IsLegal}

abbrev crlf : Text
crlf = 13 ∷ 10 ∷ []

abbrev request_line : Text
request_line = codes "GET /a.html HTTP/1.0" ++ crlf

abbrev header_lines : Text
header_lines = codes "Host: x" ++ (crlf ++ crlf)

parse-EndsWell_example : EndsWell (parse (request_line ++ header_lines) new_parser)
parse-EndsWell_example = parse-EndsWell (request_line ++ header_lines) new_parser (inl refl)

parse-append_example :
    parse (request_line ++ header_lines) new_parser
    ≡ parse_more header_lines (parse request_line new_parser)
parse-append_example = parse-append request_line header_lines new_parser

-- a request with one header
abbrev pub small_request : Request
small_request = record no_request {
  method = b'G' ∷ [];
  uri = b'/' ∷ b'a' ∷ [];
  http_version_major = 1;
  headers = record { name = b'H' ∷ []; value = b'x' ∷ [] } ∷ [];
}

IsToken-g : IsToken b'G'
unfolding is_tspecial
IsToken-g = record { accepted = refl }

IsToken-h : IsToken b'H'
unfolding is_tspecial
IsToken-h = record { accepted = refl }

pub small_request-IsRequest : IsRequest small_request
small_request-IsRequest = record {
  has_method = (IsToken-g, tt);
  has_uri = ((refl, refl), ((refl, refl), tt));
  has_major = omega arith;
  has_minor = omega arith;
  has_headers = (((IsToken-h, tt), (refl, tt)), tt);
  no_parameters = refl;
}

parse-print_request_example :
    parse (print_request small_request (codes "a=b")) new_parser
    ≡ (ok (good, codes "a=b"), record { state = expecting_newline_3; request = small_request })
parse-print_request_example =
    parse-print_request small_request (codes "a=b") small_request-IsRequest

-- one file, below the root
abbrev pub read_page : Text → Option Text
read_page path = if text_eq path (codes "/www/a.html") then some (codes "<p>hello</p>") else none

abbrev page_request : Request
page_request = record no_request { method = codes "GET"; uri = codes "/a%2Ehtml" }

abbrev pub no_reply : Reply
no_reply = record { status = success; headers = []; content = [] }

handle_request-Replies_example :
    Replies read_page
      (codes "/www")
      page_request
      no_reply
      (handle_request read_page (codes "/www") page_request no_reply)
handle_request-Replies_example =
    handle_request-Replies read_page (codes "/www") page_request no_reply

-- an encoder that keeps a slash
abbrev keep_slash : ℕ → Bool
keep_slash c = c == b'/'

url_decode-encode_example :
    url_decode (encode keep_slash (b'/' ∷ 200 ∷ b'+' ∷ [])) ≡ some (b'/' ∷ 200 ∷ b'+' ∷ [])
url_decode-encode_example =
    url_decode-encode keep_slash (b'/' ∷ 200 ∷ b'+' ∷ [])
      (omega arith, (omega arith, (omega arith, tt)))

abbrev split_at : ℕ → Text → List Text
split_at x [] = [] ∷ []
split_at x (c ∷ s) = elim (split_at x s) [
  | [] ↦ (c ∷ []) ∷ []
  | piece ∷ pieces ↦ if c == x then [] ∷ piece ∷ pieces else (c ∷ piece) ∷ pieces
]

abbrev connection : Connection
connection = record {
  id = 1;
  parser = new_parser;
  reply = no_reply;
  buffer = 0 ∷ 0 ∷ [];
  pending = reading;
}

abbrev server : Server
server = record { is_open = true; accepting = true; connections = connection ∷ []; closing = [] }

abbrev events : List Event
events = accepted no_error connection ∷ received 1 no_error request_line ∷ []

abbrev open_page : Text → Opened
open_page path = opened (codes "<p>hello</p>")

abbrev get_page : WebHandler.Request
get_page = record { method = get; target = codes "/a.html"; keep_alive = false; body = [] }

granted :
    IsGranted split_at open_page read_page
      (codes "/www")
      (WebHandler.handle_request split_at open_page read_page (codes "/www") get_page)
unfolding WebHandler.handle_request check_target respond respond_get answer_opened codes is_rooted
    has_dots
granted = refl

handle_request-IsLegal_example :
    IsLegal split_at open_page read_page (codes "/www") get_page × ¬ (get ≡ other)
handle_request-IsLegal_example =
    handle_request-IsLegal split_at open_page read_page (codes "/www") get_page granted
