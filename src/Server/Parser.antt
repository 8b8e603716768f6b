-- ===== src/Server/Parser.antt =====
-- server/request_parser.cpp and server/request_parser.hpp: the state machine that reads a request
-- byte by byte. A byte above 127 is a negative `char`.
pub mod Chunks
pub mod Fields
pub mod RoundTrip
pub mod Safety
use license_checker.Prelude.{
  ℕ, ℤ, pos, negsuc, Text, codes, c_str, text_eq, atoi, is_digit, within, length, take, leb, ltb,
  ◌==◌, ◌+◌, ◌*◌, ◌-◌, ◌++◌, Bool, true, false, not, ◌||◌, ◌&&◌, Option, none, some, List, [], ◌∷◌,
  Outcome, ok, throws, fault, Action, pure, undefined, gets, lift, ◌>>=◌, ◌>>◌, if◌then◌else◌,
  is_empty, get_elem?,
}
use license_checker.Server.Message.{Header, no_header, Request, no_request}

-- the private enum of `request_parser`; the states `method` and `uri` are `in_method` and `in_uri`
pub data ParserState : Type 0 where
  method_start : ParserState
  in_method : ParserState
  in_uri : ParserState
  http_version_h : ParserState
  http_version_t_1 : ParserState
  http_version_t_2 : ParserState
  http_version_p : ParserState
  http_version_slash : ParserState
  http_version_major_start : ParserState
  in_http_version_major : ParserState
  http_version_minor_start : ParserState
  in_http_version_minor : ParserState
  expecting_newline_1 : ParserState
  header_line_start : ParserState
  header_lws : ParserState
  header_name : ParserState
  space_before_header_value : ParserState
  header_value : ParserState
  expecting_newline_2 : ParserState
  expecting_newline_3 : ParserState

-- `result_type`
pub data ParseResult : Type 0 where
  good : ParseResult
  bad : ParseResult
  indeterminate : ParseResult

-- `state_`, and the request that is being filled
pub record Parser : Type 0 where
  pub state : ParserState
  pub request : Request

-- the constructor, on a new request
abbrev pub new_parser : Parser
new_parser = record { state = method_start; request = no_request }

abbrev pub is_char : ℕ → Bool
is_char c = leb c 127

abbrev pub is_ctl : ℕ → Bool
is_ctl c = leb c 31 || c == 127

unfoldable pub is_tspecial : ℕ → Bool
is_tspecial c =
    c == b'('
    || c == b')'
    || c == b'<'
    || c == b'>'
    || c == b'@'
    || c == b','
    || c == b';'
    || c == b':'
    || c == 0x5C
    || c == b'"'
    || c == b'/'
    || c == b'['
    || c == b']'
    || c == b'?'
    || c == b'='
    || c == b'{'
    || c == b'}'
    || c == b' '
    || c == 9

-- a byte that no token has
abbrev pub is_refused : ℕ → Bool
is_refused c = not (is_char c) || is_ctl c || is_tspecial c

abbrev pub Consuming : Type 0
Consuming = Action Parser ParseResult

abbrev pub go : ParserState → Consuming
go s p = (ok indeterminate, record p { state = s })

abbrev pub push_method : ℕ → Parser → Parser
push_method c p = record p { request = record p.request { method = p.request.method ++ c ∷ [] } }

abbrev pub push_uri : ℕ → Parser → Parser
push_uri c p = record p { request = record p.request { uri = p.request.uri ++ c ∷ [] } }

abbrev pub reset_version : Parser → Parser
reset_version p = record p {
  request = record p.request { http_version_major = 0; http_version_minor = 0 };
}

-- the greatest `int`; `number * 10 + input - '0'` is undefined where its sum is greater
abbrev pub max_int : ℕ
max_int = 2147483647

unfoldable pub push_major : ℕ → ParserState → Consuming
push_major c s p =
    if leb (p.request.http_version_major * 10 + c) max_int
    then (
      ok indeterminate,
      record p {
        state = s;
        request = record p.request {
          http_version_major = p.request.http_version_major * 10 + (c - b'0');
        };
      },
    )
    else (fault, p)

unfoldable pub push_minor : ℕ → ParserState → Consuming
push_minor c s p =
    if leb (p.request.http_version_minor * 10 + c) max_int
    then (
      ok indeterminate,
      record p {
        state = s;
        request = record p.request {
          http_version_minor = p.request.http_version_minor * 10 + (c - b'0');
        };
      },
    )
    else (fault, p)

-- `headers.push_back(header())`, and the first byte of its name
abbrev pub push_header : ℕ → Parser → Parser
push_header c p = record p {
  request = record p.request {
    headers = p.request.headers ++ record { name = c ∷ []; value = [] } ∷ [];
  };
}

-- a change to `headers.back()`, which an empty vector does not have
unfoldable pub update_last : (Header → Header) → List Header → Option (List Header)
update_last f [] = none
update_last f (h ∷ []) = some (f h ∷ [])
update_last f (h ∷ i ∷ headers) = elim (update_last f (i ∷ headers)) [
  | none ↦ none
  | some changed ↦ some (h ∷ changed)
]

set_headers : Option (List Header) → ParserState → Consuming
set_headers none s p = (fault, p)
set_headers (some headers) s p =
    (ok indeterminate, record p { state = s; request = record p.request { headers = headers } })

unfoldable pub update_back_header : (Header → Header) → ParserState → Consuming
unfolding set_headers
update_back_header f s p = set_headers (update_last f p.request.headers) s p

abbrev pub push_name : ℕ → Header → Header
push_name c h = record h { name = h.name ++ c ∷ [] }

abbrev pub push_value : ℕ → Header → Header
push_value c h = record h { value = h.value ++ c ∷ [] }

abbrev is_filled : List Header → Bool
is_filled [] = false
is_filled (h ∷ headers) = true

-- `!req.headers.empty()`
abbrev pub has_headers : Parser → Bool
has_headers p = is_filled p.request.headers

-- one byte that the state asks for
abbrev expect : ℕ → ℕ → ParserState → Consuming
expect x c s p = if c == x then go s p else (ok bad, p)

-- the states of the request line
unfoldable pub consume_line : ParserState → ℕ → Consuming
unfolding push_major push_minor
consume_line method_start c p = if is_refused c then (ok bad, p) else go in_method (push_method c p)
consume_line in_method c p =
    if c == b' '
    then go in_uri p
    else if is_refused c
    then (ok bad, p)
    else (ok indeterminate, push_method c p)
consume_line in_uri c p =
    if c == b' '
    then go http_version_h p
    else if is_ctl c
    then (ok bad, p)
    else (ok indeterminate, push_uri c p)
consume_line http_version_h c p = expect b'H' c http_version_t_1 p
consume_line http_version_t_1 c p = expect b'T' c http_version_t_2 p
consume_line http_version_t_2 c p = expect b'T' c http_version_p p
consume_line http_version_p c p = expect b'P' c http_version_slash p
consume_line http_version_slash c p =
    if c == b'/' then go http_version_major_start (reset_version p) else (ok bad, p)
consume_line http_version_major_start c p =
    if is_digit c then push_major c in_http_version_major p else (ok bad, p)
consume_line in_http_version_major c p =
    if c == b'.'
    then go http_version_minor_start p
    else if is_digit c
    then push_major c in_http_version_major p
    else (ok bad, p)
consume_line http_version_minor_start c p =
    if is_digit c then push_minor c in_http_version_minor p else (ok bad, p)
consume_line in_http_version_minor c p =
    if c == 13
    then go expecting_newline_1 p
    else if is_digit c
    then push_minor c in_http_version_minor p
    else (ok bad, p)
consume_line expecting_newline_1 c p = expect 10 c header_line_start p
consume_line _ c p = (ok bad, p)

-- all states; those of the headers first
unfoldable pub consume : ParserState → ℕ → Consuming
consume header_line_start c p =
    if c == 13
    then go expecting_newline_3 p
    else if has_headers p && (c == b' ' || c == 9)
    then go header_lws p
    else if is_refused c
    then (ok bad, p)
    else go header_name (push_header c p)
consume header_lws c p =
    if c == 13
    then go expecting_newline_2 p
    else if c == b' ' || c == 9
    then (ok indeterminate, p)
    else if is_ctl c
    then (ok bad, p)
    else update_back_header (push_value c) header_value p
consume header_name c p =
    if c == b':'
    then go space_before_header_value p
    else if is_refused c
    then (ok bad, p)
    else update_back_header (push_name c) header_name p
consume space_before_header_value c p = expect b' ' c header_value p
consume header_value c p =
    if c == 13
    then go expecting_newline_2 p
    else if is_ctl c
    then (ok bad, p)
    else update_back_header (push_value c) header_value p
consume expecting_newline_2 c p = expect 10 c header_line_start p
consume expecting_newline_3 c p = if c == 10 then (ok good, p) else (ok bad, p)
consume s c p = consume_line s c p

-- what follows a byte: the loop of `parse` goes on where the result is indeterminate
abbrev pub after :
    Action Parser (ParseResult × Text)
    → Text
    → Outcome ParseResult
    → Action Parser (ParseResult × Text)
after rest s (ok good) p = (ok (good, s), p)
after rest s (ok bad) p = (ok (bad, s), p)
after rest s (ok indeterminate) p = rest p
after rest s (throws e) p = (throws e, p)
after rest s fault p = (fault, p)

-- the result, with the input that is left
unfoldable pub parse : Text → Action Parser (ParseResult × Text)
parse [] p = (ok (indeterminate, []), p)
parse (c ∷ s) p = let (r, q) = consume p.state c p in after (parse s) s r q
