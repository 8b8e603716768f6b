-- ===== src/Server/Parser/Fields.antt =====
-- server/request_parser.cpp: the bytes of a method, of an address and of a header are all kept.
use license_checker.Prelude.{
  ℕ, Text, ◌==◌, ◌++◌, append_assoc, append-nil, false, some, List, [], ◌∷◌, All, ◌≡◌, refl, sym,
  ap, ◌∙◌, arith,
}
use license_checker.Server.Message.{Header, Request}
use license_checker.Server.Parser.{
  ParserState, in_method, in_uri, header_name, header_value, Parser, parse, consume, consume_line,
  is_refused, is_ctl, is_tspecial, update_last, update_back_header, set_headers, push_name,
  push_value,
}

-- the parser in a state, with what it has read
abbrev pub at : ParserState → Request → Parser
at s r = record { state = s; request = r }

-- a byte of a token, of an address, and of the value of a header
pub record IsToken (c : ℕ) : Type 0 where
  pub accepted : is_refused c ≡ false

abbrev pub IsUriByte : ℕ → Type 0
IsUriByte c = ((c == b' ') ≡ false) × (is_ctl c ≡ false)

abbrev pub IsValueByte : ℕ → Type 0
IsValueByte c = is_ctl c ≡ false

-- No token has a space, a tab or a colon, and no byte that is no control has a line end.
pub IsToken-space :
    (c : ℕ)
    → is_refused c ≡ false
    → ((c == b' ') ≡ false) × ((c == 9) ≡ false) × ((c == b':') ≡ false) × ((c == 13) ≡ false)
unfolding is_tspecial
IsToken-space c h = ground (arith, h)

is_ctl-return : (c : ℕ) → is_ctl c ≡ false → (c == 13) ≡ false
is_ctl-return c h = ground (arith, h)

pub parse-method :
    (s t : Text) (r : Request)
    → All IsToken s
    → parse (s ++ t) (at in_method r) ≡ parse t (at in_method (record r { method = r.method ++ s }))
unfolding parse consume consume_line
parse-method [] t r h =
    ap (λ m. parse t (at in_method (record r { method = m }))) (sym (append-nil r.method))
parse-method (c ∷ s) t r (h, hs) =
    rw ((IsToken-space c h.accepted).0, h.accepted)
      (parse-method s t (record r { method = r.method ++ c ∷ [] }) hs
        ∙ ap (λ m. parse t (at in_method (record r { method = m })))
            (append_assoc r.method (c ∷ []) s))

pub parse-uri :
    (s t : Text) (r : Request)
    → All IsUriByte s
    → parse (s ++ t) (at in_uri r) ≡ parse t (at in_uri (record r { uri = r.uri ++ s }))
unfolding parse consume consume_line
parse-uri [] t r h = ap (λ m. parse t (at in_uri (record r { uri = m }))) (sym (append-nil r.uri))
parse-uri (c ∷ s) t r ((h, k), hs) =
    rw (h, k)
      (parse-uri s t (record r { uri = r.uri ++ c ∷ [] }) hs
        ∙ ap (λ m. parse t (at in_uri (record r { uri = m }))) (append_assoc r.uri (c ∷ []) s))

-- a change to the last header
update_last-concat :
    (f : Header → Header) (hs : List Header) (h : Header)
    → update_last f (hs ++ h ∷ []) ≡ some (hs ++ f h ∷ [])
unfolding update_last
update_last-concat f [] h = refl
update_last-concat f (g ∷ []) h = refl
update_last-concat f (g ∷ i ∷ hs) h = rw (update_last-concat f (i ∷ hs) h) refl

-- the request with one more header at its end
abbrev pub with_header : Request → List Header → Text → Text → Request
with_header r hs name value = record r {
  headers = hs ++ record { name = name; value = value } ∷ [];
}

pub parse-name :
    (s t name : Text) (hs : List Header) (r : Request)
    → All IsToken s
    → parse (s ++ t) (at header_name (with_header r hs name []))
      ≡ parse t (at header_name (with_header r hs (name ++ s) []))
unfolding parse consume update_back_header set_headers
parse-name [] t name hs r h =
    ap (λ m. parse t (at header_name (with_header r hs m []))) (sym (append-nil name))
parse-name (c ∷ s) t name hs r (h, k) =
    rw
      (
        (IsToken-space c h.accepted).2,
        h.accepted,
        update_last-concat (push_name c) hs (record { name = name; value = [] }),
      )
      (parse-name s t (name ++ c ∷ []) hs r k
        ∙ ap (λ m. parse t (at header_name (with_header r hs m []))) (append_assoc name (c ∷ []) s))

pub parse-value :
    (s t name value : Text) (hs : List Header) (r : Request)
    → All IsValueByte s
    → parse (s ++ t) (at header_value (with_header r hs name value))
      ≡ parse t (at header_value (with_header r hs name (value ++ s)))
unfolding parse consume update_back_header set_headers
parse-value [] t name value hs r h =
    ap (λ m. parse t (at header_value (with_header r hs name m))) (sym (append-nil value))
parse-value (c ∷ s) t name value hs r (h, k) =
    rw
      (
        is_ctl-return c h,
        h,
        update_last-concat (push_value c) hs (record { name = name; value = value }),
      )
      (parse-value s t name (value ++ c ∷ []) hs r k
        ∙ ap (λ m. parse t (at header_value (with_header r hs name m)))
            (append_assoc value (c ∷ []) s))
