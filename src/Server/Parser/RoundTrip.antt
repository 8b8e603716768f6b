-- ===== src/Server/Parser/RoundTrip.antt =====
-- server/request_parser.cpp: a request that is written out is read back.
use license_checker.Prelude.{
  ℕ, Text, leb, is_digit, ◌+◌, ◌*◌, ◌-◌, ◌<◌, ◌++◌, append_assoc, append-nil, true, false, List, [],
  ◌∷◌, All, ok, ◌≡◌, refl, sym, ap, ◌∙◌, arith,
}
use license_checker.Server.Message.{Header, Request, no_request}
use license_checker.Server.Parser.{
  in_method, in_uri, method_start, http_version_major_start, http_version_minor_start,
  header_line_start, header_name, header_value, expecting_newline_3, good, new_parser, parse,
  consume, consume_line, is_refused, push_major, push_minor, max_int,
}
use license_checker.Server.Parser.Fields.{
  at, IsToken, IsUriByte, IsValueByte, IsToken-space, with_header, parse-method, parse-uri,
  parse-name, parse-value,
}

-- the first byte of a header
parse-first :
    (c : ℕ) (t : Text) (hs : List Header) (r : Request)
    → is_refused c ≡ false
    → parse (c ∷ t) (at header_line_start (record r { headers = hs }))
      ≡ parse t (at header_name (with_header r hs (c ∷ []) []))
unfolding parse consume
parse-first c t [] r h = let (space, tab, colon, return) = IsToken-space c h in rw (return, h) refl
parse-first c t (g ∷ hs) r h =
    let (space, tab, colon, return) = IsToken-space c h in rw (return, space, tab, h) refl

abbrev pub IsName : Text → Type 0
IsName [] = ⊥
IsName (c ∷ s) = IsToken c × All IsToken s

-- a header with a name, both of bytes that may stand in a header
abbrev pub IsHeader : Header → Type 0
IsHeader h = IsName h.name × All IsValueByte h.value

unfoldable pub print_header : Header → Text → Text
print_header h t = h.name ++ (b':' ∷ b' ' ∷ (h.value ++ (13 ∷ 10 ∷ t)))

parse-colon :
    (t name : Text) (hs : List Header) (r : Request)
    → parse (b':' ∷ b' ' ∷ t) (at header_name (with_header r hs name []))
      ≡ parse t (at header_value (with_header r hs name []))
unfolding parse consume
parse-colon t name hs r = refl

parse-newline :
    (t : Text) (r : Request)
    → parse (13 ∷ 10 ∷ t) (at header_value r) ≡ parse t (at header_line_start r)
unfolding parse consume
parse-newline t r = refl

parse-print_header :
    (name value t : Text) (hs : List Header) (r : Request)
    → IsHeader (record { name = name; value = value })
    → parse
        (print_header (record { name = name; value = value }) t)
        (at header_line_start (record r { headers = hs }))
      ≡ parse t (at header_line_start (with_header r hs name value))
unfolding print_header
parse-print_header [] value t hs r (h, k) = elim h [ ]
parse-print_header (c ∷ s) value t hs r ((h, hs_ok), k) =
    parse-first c (s ++ (b':' ∷ b' ' ∷ (value ++ (13 ∷ 10 ∷ t)))) hs r h.accepted
    ∙ parse-name s (b':' ∷ b' ' ∷ (value ++ (13 ∷ 10 ∷ t))) (c ∷ []) hs r hs_ok
    ∙ parse-colon (value ++ (13 ∷ 10 ∷ t)) (c ∷ s) hs r
    ∙ parse-value value (13 ∷ 10 ∷ t) (c ∷ s) [] hs r k
    ∙ parse-newline t (with_header r hs (c ∷ s) value)

unfoldable pub print_headers : List Header → Text → Text
unfolding print_header
print_headers [] t = 13 ∷ 10 ∷ t
print_headers (h ∷ hs) t = print_header h (print_headers hs t)

parse-end :
    (t : Text) (r : Request)
    → parse (13 ∷ 10 ∷ t) (at header_line_start r) ≡ (ok (good, t), at expecting_newline_3 r)
unfolding parse consume
parse-end t r = refl

parse-print_headers :
    (hs old : List Header) (t : Text) (r : Request)
    → All IsHeader hs
    → parse (print_headers hs t) (at header_line_start (record r { headers = old }))
      ≡ (ok (good, t), at expecting_newline_3 (record r { headers = old ++ hs }))
unfolding print_headers
parse-print_headers [] old t r h =
    parse-end t (record r { headers = old })
    ∙ ap (λ x. (ok (good, t), at expecting_newline_3 (record r { headers = x })))
        (sym (append-nil old))
parse-print_headers (g ∷ hs) old t r (h, k) =
    parse-print_header g.name g.value (print_headers hs t) old r h
    ∙ parse-print_headers hs (old ++ g ∷ []) t r k
    ∙ ap (λ x. (ok (good, t), at expecting_newline_3 (record r { headers = x })))
        (append_assoc old (g ∷ []) hs)

digit_lem :
    (d : ℕ)
    → d < 10
    → (is_digit (b'0' + d) ≡ true)
      × (0 * 10 + (b'0' + d - b'0') ≡ d)
      × (leb (0 * 10 + (b'0' + d)) max_int ≡ true)
digit_lem d h = ground (arith, h)

parse-slash :
    (t : Text) (r : Request)
    → parse (b' ' ∷ b'H' ∷ b'T' ∷ b'T' ∷ b'P' ∷ b'/' ∷ t) (at in_uri r)
      ≡ parse t (
          at http_version_major_start (record r { http_version_major = 0; http_version_minor = 0 }))
unfolding parse consume consume_line
parse-slash t r = refl

parse-major :
    (d : ℕ) (t : Text) (r : Request)
    → d < 10
    → parse
        ((b'0' + d) ∷ b'.' ∷ t)
        (at http_version_major_start (record r { http_version_major = 0 }))
      ≡ parse t (at http_version_minor_start (record r { http_version_major = d }))
unfolding parse consume consume_line push_major
parse-major d t r h = let (a, b, c) = digit_lem d h in rw (a, c, b) refl

parse-minor :
    (d : ℕ) (t : Text) (r : Request)
    → d < 10
    → parse
        ((b'0' + d) ∷ 13 ∷ 10 ∷ t)
        (at http_version_minor_start (record r { http_version_minor = 0 }))
      ≡ parse t (at header_line_start (record r { http_version_minor = d }))
unfolding parse consume consume_line push_minor
parse-minor d t r h = let (a, b, c) = digit_lem d h in rw (a, c, b) refl

parse-method_start :
    (c : ℕ) (t : Text) (r : Request)
    → is_refused c ≡ false
    → parse (c ∷ t) (at method_start (record r { method = [] }))
      ≡ parse t (at in_method (record r { method = c ∷ [] }))
unfolding parse consume consume_line
parse-method_start c t r h = rw h refl

parse-space : (t : Text) (r : Request) → parse (b' ' ∷ t) (at in_method r) ≡ parse t (at in_uri r)
unfolding parse consume consume_line
parse-space t r = refl

-- A request that can be written out: its method is a token, its address has no space and no control
-- byte, its version has one digit on either side of the dot.
pub record IsRequest (r : Request) : Type 0 where
  pub has_method : IsName r.method
  pub has_uri : All IsUriByte r.uri
  pub has_major : r.http_version_major < 10
  pub has_minor : r.http_version_minor < 10
  pub has_headers : All IsHeader r.headers
  pub no_parameters : r.parameters ≡ []

unfoldable pub print_version : ℕ → ℕ → Text → Text
print_version major minor t =
    b' ' ∷ b'H' ∷ b'T' ∷ b'T' ∷ b'P' ∷ b'/' ∷ (b'0' + major) ∷ b'.' ∷ (b'0' + minor) ∷ 13 ∷ 10 ∷ t

-- the request as a client writes it, in front of its body
unfoldable pub print_request : Request → Text → Text
print_request r body =
    r.method
    ++ (b' '
        ∷ (r.uri
            ++ print_version r.http_version_major r.http_version_minor
                (print_headers r.headers body)))

parse-print_version :
    (major minor : ℕ) (t : Text) (r : Request)
    → major < 10
    → minor < 10
    → parse (print_version major minor t) (at in_uri r)
      ≡ parse t (
          at header_line_start
            (record r { http_version_major = major; http_version_minor = minor }))
unfolding print_version
parse-print_version major minor t r h k =
    parse-slash ((b'0' + major) ∷ b'.' ∷ (b'0' + minor) ∷ 13 ∷ 10 ∷ t) r
    ∙ parse-major major ((b'0' + minor) ∷ 13 ∷ 10 ∷ t) (record r { http_version_minor = 0 }) h
    ∙ parse-minor minor t (record r { http_version_major = major }) k

parse-print_method :
    (m t : Text)
    → IsName m
    → parse (m ++ t) new_parser ≡ parse t (at in_method (record no_request { method = m }))
parse-print_method [] t h = elim h [ ]
parse-print_method (c ∷ s) t (h, hs) =
    parse-method_start c (s ++ t) no_request h.accepted
    ∙ parse-method s t (record no_request { method = c ∷ [] }) hs

-- A request that is written out is read back, whatever follows it: the parser stops where the body
-- starts, and what it has read is the request.
pub parse-print_request :
    (r : Request) (body : Text)
    → IsRequest r
    → parse (print_request r body) new_parser
      ≡ (ok (good, body), record { state = expecting_newline_3; request = r })
unfolding print_request
parse-print_request r body h =
    let line =
      print_version r.http_version_major r.http_version_minor (print_headers r.headers body) in
    let q = record no_request { method = r.method; uri = r.uri } in
    parse-print_method r.method (b' ' ∷ (r.uri ++ line)) h.has_method
    ∙ parse-space (r.uri ++ line) (record no_request { method = r.method })
    ∙ parse-uri r.uri line (record no_request { method = r.method }) h.has_uri
    ∙ parse-print_version r.http_version_major r.http_version_minor (print_headers r.headers body) q
        h.has_major h.has_minor
    ∙ parse-print_headers r.headers [] body
        (record q {
          http_version_major = r.http_version_major;
          http_version_minor = r.http_version_minor;
        })
        h.has_headers
    ∙ ap (λ x. (ok (good, body), at expecting_newline_3 (record r { parameters = x })))
        (sym h.no_parameters)
