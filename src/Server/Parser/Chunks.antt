-- ===== src/Server/Parser/Chunks.antt =====
-- server/request_parser.hpp, `parse`: input that comes in pieces.
use license_checker.Prelude.{Text, [], ◌∷◌, ◌++◌, Outcome, ok, throws, fault, ◌≡◌, refl}
use license_checker.Server.Parser.{
  Parser, ParseResult, good, bad, indeterminate, consume, parse, after,
}

-- what `parse` does with more input, from what it did with the first piece
abbrev pub parse_more :
    Text → Outcome (ParseResult × Text) × Parser → Outcome (ParseResult × Text) × Parser
parse_more t (ok (good, rest), p) = (ok (good, rest ++ t), p)
parse_more t (ok (bad, rest), p) = (ok (bad, rest ++ t), p)
parse_more t (ok (indeterminate, rest), p) = parse t p
parse_more t (throws e, p) = (throws e, p)
parse_more t (fault, p) = (fault, p)

after-parse_more :
    (s t : Text) (r : Outcome ParseResult) (q : Parser)
    → ((p : Parser) → parse (s ++ t) p ≡ parse_more t (parse s p))
    → after (parse (s ++ t)) (s ++ t) r q ≡ parse_more t (after (parse s) s r q)
after-parse_more s t (ok good) q h = refl
after-parse_more s t (ok bad) q h = refl
after-parse_more s t (ok indeterminate) q h = h q
after-parse_more s t (throws e) q h = refl
after-parse_more s t fault q h = refl

-- Reading a text in one piece and in two gives the same result, the same rest and the same request:
-- where the first piece ends the request, or is refused, the second is left over.
pub parse-append : (s t : Text) (p : Parser) → parse (s ++ t) p ≡ parse_more t (parse s p)
unfolding parse
parse-append [] t p = refl
parse-append (c ∷ s) t p =
    after-parse_more s t (consume p.state c p).0 (consume p.state c p).1 (parse-append s t)
