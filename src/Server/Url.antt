-- ===== src/Server/Url.antt =====
-- server/request_handler.cpp, `url_decode`: percent escapes, and a plus for a space.
pub mod RoundTrip
use license_checker.Prelude.{
  ℕ, Text, is_digit, within, is_space, ◌==◌, ◌+◌, ◌*◌, ◌-◌, ◌%◌, Bool, true, false, ◌||◌, ◌&&◌,
  Option, none, some, [], ◌∷◌, if◌then◌else◌,
}

unfoldable pub hex_digit : ℕ → Option ℕ
hex_digit c =
    if is_digit c
    then some (c - b'0')
    else if within b'a' b'f' c
    then some (c - b'a' + 10)
    else if within b'A' b'F' c
    then some (c - b'A' + 10)
    else none

-- after a digit `x`: a second digit, or the end of the number. `0x` starts a number with no digits.
after_digit : ℕ → ℕ → Option ℕ
unfolding hex_digit
after_digit x b = elim (hex_digit b) [
  | some y ↦ some (16 * x + y)
  | none ↦ if x == 0 && (b == b'x' || b == b'X') then none else some x
]

-- `is >> std::hex >> value` on two characters, and the conversion to a `char`: white space is
-- skipped, a sign is read, and a digit may stand alone.
unfoldable pub scan_hex : ℕ → ℕ → Option ℕ
unfolding hex_digit after_digit
scan_hex a b =
    if is_space a || a == b'+'
    then hex_digit b
    else if a == b'-'
    then elim (hex_digit b) [ none ↦ none | some v ↦ some ((256 - v) % 256) ]
    else elim (hex_digit a) [ none ↦ none | some x ↦ after_digit x b ]

-- `out += ...`, where `none` is the result `false`
unfoldable pub push_front : ℕ → Option Text → Option Text
push_front c none = none
push_front c (some out) = some (c ∷ out)

-- an escape of which the two characters give `value`
unfoldable pub push_escape : Option ℕ → Option Text → Option Text
unfolding push_front
push_escape none rest = none
push_escape (some value) rest = push_front value rest

unfoldable pub url_decode : Text → Option Text
unfolding push_front push_escape
url_decode [] = some []
url_decode (c ∷ []) = if c == b'%' then none else some ((if c == b'+' then b' ' else c) ∷ [])
url_decode (c ∷ d ∷ []) =
    let rest = url_decode (d ∷ []) in
    if c == b'%' then none else push_front (if c == b'+' then b' ' else c) rest
url_decode (c ∷ a ∷ b ∷ s) = elim (c == b'%') [
  | true ↦ push_escape (scan_hex a b) (url_decode s)
  | false ↦ push_front (if c == b'+' then b' ' else c) (url_decode (a ∷ b ∷ s))
]
