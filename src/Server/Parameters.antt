-- ===== src/Server/Parameters.antt =====
-- server/request_parser.cpp, `parse_paremeters`: the parameters of a POST request. `boost::split` is
-- a parameter.
pub mod RoundTrip
use license_checker.Prelude.{
  ℕ, ℤ, pos, negsuc, Text, codes, c_str, text_eq, atoi, length, take, ltb, ◌==◌, ◌++◌, Option, none,
  some, List, [], ◌∷◌, Outcome, ok, throws, fault, if◌then◌else◌, is_empty,
}
use license_checker.Server.Message.{Header, Request}

find_length : List Header → Option Text
find_length [] = none
find_length (h ∷ headers) =
    let later = find_length headers in
    if text_eq h.name (codes "Content-Length") then some h.value else later

unfoldable pub content_length : Request → ℤ
unfolding find_length
content_length r = elim (find_length r.headers) [ none ↦ pos 0 | some v ↦ atoi (c_str v) ]

-- A pair with no `=` has no second value, and reading it is undefined.
push_pair : List Text → Request → Outcome Request
push_pair (name ∷ value ∷ rest) r =
    ok (record r { parameters = r.parameters ++ record { name = name; value = value } ∷ [] })
push_pair _ r = fault

module _ (split : ℕ → Text → List Text) where
  push_pairs : List Text → Request → Outcome Request
  unfolding push_pair
  push_pairs [] r = ok r
  push_pairs (pair ∷ pairs) r = elim (push_pair (split b'=' pair) r) [
    | ok pushed ↦ push_pairs pairs pushed
    | throws e ↦ throws e
    | fault ↦ fault
  ]

  -- A length past the end of the parameters is undefined.
  parse_length : ℤ → Request → Text → Outcome Request
  unfolding push_pairs
  parse_length (negsuc n) r params = ok r
  parse_length (pos n) r params =
      if n == 0
      then ok r
      else if ltb (length params) n
      then fault
      else push_pairs (split b'&' (take n params)) r

  unfoldable pub parse_parameters : Request → Text → Outcome Request
  unfolding parse_length
  parse_parameters r params =
      if is_empty params then ok r else parse_length (content_length r) r params
