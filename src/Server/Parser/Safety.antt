-- ===== src/Server/Parser/Safety.antt =====
-- server/request_parser.cpp: `headers.back()` always has a header to change, and only a version number
-- can overflow.
use license_checker.Prelude.{
  ℕ, ◌≤◌, ◌+◌, ◌*◌, leb, Bool-cases, Text, Bool, true, false, ◌||◌, ◌&&◌, ◌==◌, some, List, [], ◌∷◌,
  ◌++◌, Outcome, ok, ◌≡◌, ◌⊎◌, refl, arith, if◌then◌else◌, inl, inr, is_digit, throws, fault,
}
use license_checker.Server.Message.{Header}
use license_checker.Server.Parser.{
  ParserState, header_line_start, header_lws, header_name, space_before_header_value, header_value,
  expecting_newline_2, expecting_newline_3, method_start, in_method, in_uri, http_version_h,
  http_version_t_1, http_version_t_2, http_version_p, http_version_slash, http_version_major_start,
  in_http_version_major, http_version_minor_start, in_http_version_minor, expecting_newline_1,
  Parser, ParseResult, good, bad, indeterminate, consume, consume_line, update_last,
  update_back_header, set_headers, parse, expect, go, after, has_headers, is_refused, is_ctl,
  is_filled, push_major, push_minor, max_int,
}

-- the states that change the last header
abbrev pub has_back : ParserState → Bool
has_back header_lws = true
has_back header_name = true
has_back space_before_header_value = true
has_back header_value = true
has_back expecting_newline_2 = true
has_back _ = false

-- In these states there is a header.
abbrev pub IsWellFormed : Parser → Type 0
IsWellFormed p =
    (has_back p.state ≡ false) ⊎ ((h : Header) × (hs : List Header) × (p.request.headers ≡ h ∷ hs))

-- A version number that is 214748359 at least: one more digit may overflow its `int`.
abbrev pub HasLongNumber : Parser → Type 0
HasLongNumber p =
    (214748359 ≤ p.request.http_version_major) ⊎ (214748359 ≤ p.request.http_version_minor)

-- A step ends well: with a result, in a state that is well formed again. It is undefined only where
-- it has read a version number that is too long.
pub data EndsWell {A : Type 0} : Outcome A × Parser → Type 0 where
  ends : {r : A} {q : Parser} → IsWellFormed q → EndsWell (ok r, q)
  overflows : {q : Parser} → HasLongNumber q → EndsWell (fault, q)

EndsWell-if :
    {A : Type 0} (b : Bool) (x y : Outcome A × Parser)
    → EndsWell x
    → EndsWell y
    → EndsWell (if b then x else y)
EndsWell-if true x y hx hy = hx
EndsWell-if false x y hx hy = hy

expect-EndsWell :
    (x c : ℕ) (s : ParserState) (p : Parser)
    → IsWellFormed (record p { state = s })
    → IsWellFormed p
    → EndsWell (expect x c s p)
expect-EndsWell x c s p e w = EndsWell-if (c == x) _ _ (ends e) (ends w)

push_major-EndsWell :
    (c : ℕ) (p : Parser) → is_digit c ≡ true → EndsWell (push_major c in_http_version_major p)
unfolding push_major
push_major-EndsWell c p h =
    elim (Bool-cases (leb (p.request.http_version_major * 10 + c) max_int)) [
      | inl e ↦ rw e (ends (inl refl))
      | inr e ↦ rw e (overflows (inl (ground (arith, h, e))))
    ]

push_minor-EndsWell :
    (c : ℕ) (p : Parser) → is_digit c ≡ true → EndsWell (push_minor c in_http_version_minor p)
unfolding push_minor
push_minor-EndsWell c p h =
    elim (Bool-cases (leb (p.request.http_version_minor * 10 + c) max_int)) [
      | inl e ↦ rw e (ends (inl refl))
      | inr e ↦ rw e (overflows (inr (ground (arith, h, e))))
    ]

-- a digit, or a bad byte
digit-EndsWell :
    (c : ℕ) (x : Outcome ParseResult × Parser) (p : Parser)
    → IsWellFormed p
    → (is_digit c ≡ true → EndsWell x)
    → EndsWell (if is_digit c then x else (ok bad, p))
digit-EndsWell c x p w h = elim (Bool-cases (is_digit c)) [
  | inl e ↦ rw e (h e)
  | inr e ↦ rw e (ends w)
]

consume_line-EndsWell :
    (s : ParserState) (c : ℕ) (p : Parser) → IsWellFormed p → EndsWell (consume_line s c p)
unfolding consume_line
consume_line-EndsWell method_start c p w = EndsWell-if (is_refused c) _ _ (ends w) (ends (inl refl))
consume_line-EndsWell in_method c p w =
    EndsWell-if (c == b' ') _ _ (ends (inl refl)) (EndsWell-if (is_refused c) _ _ (ends w) (ends w))
consume_line-EndsWell in_uri c p w =
    EndsWell-if (c == b' ') _ _ (ends (inl refl)) (EndsWell-if (is_ctl c) _ _ (ends w) (ends w))
consume_line-EndsWell http_version_h c p w = expect-EndsWell _ c _ p (inl refl) w
consume_line-EndsWell http_version_t_1 c p w = expect-EndsWell _ c _ p (inl refl) w
consume_line-EndsWell http_version_t_2 c p w = expect-EndsWell _ c _ p (inl refl) w
consume_line-EndsWell http_version_p c p w = expect-EndsWell _ c _ p (inl refl) w
consume_line-EndsWell http_version_slash c p w =
    EndsWell-if (c == b'/') _ _ (ends (inl refl)) (ends w)
consume_line-EndsWell http_version_major_start c p w =
    digit-EndsWell c _ p w (push_major-EndsWell c p)
consume_line-EndsWell in_http_version_major c p w =
    EndsWell-if (c == b'.') _ _ (ends (inl refl)) (digit-EndsWell c _ p w (push_major-EndsWell c p))
consume_line-EndsWell http_version_minor_start c p w =
    digit-EndsWell c _ p w (push_minor-EndsWell c p)
consume_line-EndsWell in_http_version_minor c p w =
    EndsWell-if (c == 13) _ _ (ends (inl refl)) (digit-EndsWell c _ p w (push_minor-EndsWell c p))
consume_line-EndsWell expecting_newline_1 c p w = expect-EndsWell _ c _ p (inl refl) w
consume_line-EndsWell _ c p w = ends w

-- there is a header after a change to the last one
update_last-some :
    (f : Header → Header) (h : Header) (hs : List Header)
    → (i : Header) × (is : List Header) × (update_last f (h ∷ hs) ≡ some (i ∷ is))
unfolding update_last
update_last-some f h [] = (f h, [], refl)
update_last-some f h (g ∷ hs) = let (i, is, e) = update_last-some f g hs in (h, i ∷ is, rw e refl)

update_back_header-EndsWell :
    (f : Header → Header) (s : ParserState) (p : Parser)
    → IsWellFormed p
    → has_back p.state ≡ true
    → EndsWell (update_back_header f s p)
unfolding update_back_header set_headers
update_back_header-EndsWell f s p (inl e) h = ground (arith, e, h)
update_back_header-EndsWell f s p (inr (g, hs, e)) h =
    let (i, is, k) = update_last-some f g hs in rw (e, k) (ends (inr (i, is, refl)))

snoc-some :
    (hs : List Header) (h : Header) → (i : Header) × (is : List Header) × (hs ++ h ∷ [] ≡ i ∷ is)
snoc-some [] h = (h, [], refl)
snoc-some (g ∷ hs) h = (g, hs ++ h ∷ [], refl)

-- Well-formedness that does not look at the state.
has_back_lem :
    (p : Parser) (s : ParserState)
    → IsWellFormed p
    → has_back p.state ≡ true
    → IsWellFormed (record p { state = s })
has_back_lem p s (inl e) h = ground (arith, e, h)
has_back_lem p s (inr headers) h = inr headers

filled_lem :
    (p : Parser) (s : ParserState) (hs : List Header)
    → p.request.headers ≡ hs
    → is_filled hs ≡ true
    → IsWellFormed (record p { state = s })
filled_lem p s [] e h = ground (arith, h)
filled_lem p s (g ∷ hs) e h = inr (g, hs, e)

-- Every byte that is read in a well-formed state ends in a well-formed state, and never in a change
-- to the last of no headers.
consume-EndsWell :
    (s : ParserState) (c : ℕ) (p : Parser) → p.state ≡ s → IsWellFormed p → EndsWell (consume s c p)
unfolding consume
consume-EndsWell header_line_start c p e w = EndsWell-if (c == 13) _ _ (ends (inl refl)) (
    lws_or (has_headers p) refl (c == b' ' || c == 9)
      (EndsWell-if (is_refused c) _ _ (ends w) (ends (inr (snoc-some p.request.headers _)))))
  where
    lws_or :
        (b : Bool)
        → has_headers p ≡ b
        → (x : Bool) → {y : Outcome ParseResult × Parser} → EndsWell y
        → EndsWell (if b && x then go header_lws p else y)
    lws_or false h x hy = hy
    lws_or true h false hy = hy
    lws_or true h true hy = ends (filled_lem p header_lws p.request.headers refl h)
consume-EndsWell header_lws c p e w =
    EndsWell-if (c == 13) _ _ (ends (has_back_lem p expecting_newline_2 w (rw e refl))) (
      EndsWell-if (c == b' ' || c == 9) _ _ (ends w)
        (EndsWell-if (is_ctl c) _ _ (ends w) (update_back_header-EndsWell _ _ p w (rw e refl))))
consume-EndsWell header_name c p e w =
    EndsWell-if (c == b':') _ _ (ends (has_back_lem p space_before_header_value w (rw e refl)))
      (EndsWell-if (is_refused c) _ _ (ends w) (update_back_header-EndsWell _ _ p w (rw e refl)))
consume-EndsWell space_before_header_value c p e w =
    expect-EndsWell _ c _ p (has_back_lem p header_value w (rw e refl)) w
consume-EndsWell header_value c p e w =
    EndsWell-if (c == 13) _ _ (ends (has_back_lem p expecting_newline_2 w (rw e refl)))
      (EndsWell-if (is_ctl c) _ _ (ends w) (update_back_header-EndsWell _ _ p w (rw e refl)))
consume-EndsWell expecting_newline_2 c p e w = expect-EndsWell _ c _ p (inl refl) w
consume-EndsWell expecting_newline_3 c p e w = EndsWell-if (c == 10) _ _ (ends w) (ends w)
consume-EndsWell method_start c p e w = consume_line-EndsWell method_start c p w
consume-EndsWell in_method c p e w = consume_line-EndsWell in_method c p w
consume-EndsWell in_uri c p e w = consume_line-EndsWell in_uri c p w
consume-EndsWell http_version_h c p e w = consume_line-EndsWell http_version_h c p w
consume-EndsWell http_version_t_1 c p e w = consume_line-EndsWell http_version_t_1 c p w
consume-EndsWell http_version_t_2 c p e w = consume_line-EndsWell http_version_t_2 c p w
consume-EndsWell http_version_p c p e w = consume_line-EndsWell http_version_p c p w
consume-EndsWell http_version_slash c p e w = consume_line-EndsWell http_version_slash c p w
consume-EndsWell http_version_major_start c p e w =
    consume_line-EndsWell http_version_major_start c p w
consume-EndsWell in_http_version_major c p e w = consume_line-EndsWell in_http_version_major c p w
consume-EndsWell http_version_minor_start c p e w =
    consume_line-EndsWell http_version_minor_start c p w
consume-EndsWell in_http_version_minor c p e w = consume_line-EndsWell in_http_version_minor c p w
consume-EndsWell expecting_newline_1 c p e w = consume_line-EndsWell expecting_newline_1 c p w

after-EndsWell :
    (s : Text) (r : Outcome ParseResult) (q : Parser)
    → EndsWell (r, q)
    → ((p : Parser) → IsWellFormed p → EndsWell (parse s p))
    → EndsWell (after (parse s) s r q)
after-EndsWell s (ok good) q (ends w) h = ends w
after-EndsWell s (ok bad) q (ends w) h = ends w
after-EndsWell s (ok indeterminate) q (ends w) h = h q w
after-EndsWell s (throws _) q w h = elim w [ ]
after-EndsWell s fault q (overflows n) h = overflows n

-- From a well-formed state every input is read to a result and to a well-formed state, in which
-- `headers.back()` has a header wherever it is used, unless a version number of the request is so long
-- that its `int` overflows: then a number of 214748359 at least has been read.
pub parse-EndsWell : (s : Text) (p : Parser) → IsWellFormed p → EndsWell (parse s p)
unfolding parse
parse-EndsWell [] p w = ends w
parse-EndsWell (c ∷ s) p w =
    after-EndsWell s (consume p.state c p).0 (consume p.state c p).1
      (consume-EndsWell p.state c p refl w) (parse-EndsWell s)
