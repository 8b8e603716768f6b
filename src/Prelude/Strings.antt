-- ===== src/Prelude/Strings.antt =====
-- Text as its bytes, and what the agent uses of `std::string` and of the C library on it.
use Prim.Native.Char.{code}
use Prim.Native.Nat.{ℕ, zero, suc, ◌+◌, ◌-◌, ◌*◌, ◌/◌, ◌%◌, ◌<◌}
use Prim.Native.String.{String}
use mathlib.Core.Bool.{Bool, true, false, ◌&&◌, ◌||◌}
use mathlib.Core.List.{List, [], ◌∷◌}
use mathlib.Core.Logic.{◌↔◌}
use mathlib.Core.Option.{Option, none, some}
use mathlib.Core.Path.{◌≡◌}
use native.Mathlib.Omega.{arith}
use license_checker.Prelude.Int.{ℤ, pos, negsuc}
use license_checker.Prelude.Tests.{◌==◌, if◌then◌else◌, within}

abbrev pub Text : Type 0
Text = List ℕ

-- The bytes of a literal; every literal of the sources that is modelled is ASCII.
unfoldable pub codes : String → Text
codes String.[] = []
codes (String.◌∷◌ c s) = code c ∷ codes s

abbrev pub is_empty : Text → Bool
is_empty [] = true
is_empty (c ∷ s) = false

-- `operator==`
unfoldable pub text_eq : Text → Text → Bool
text_eq [] [] = true
text_eq (a ∷ s) (b ∷ t) = a == b && text_eq s t
text_eq _ _ = false

pub text_eq_iff : (s t : Text) → (text_eq s t ≡ true) ↔ (s ≡ t)
unfolding text_eq
text_eq_iff (a ∷ s) (b ∷ t) = ground (arith, text_eq_iff s t)
text_eq_iff _ _ = ground arith

-- `isspace` in the C locale
abbrev pub is_space : ℕ → Bool
is_space c = c == b' ' || within 9 13 c

abbrev pub is_digit : ℕ → Bool
is_digit c = within b'0' b'9' c

unfoldable pub skip_spaces : Text → Text
skip_spaces [] = []
skip_spaces (c ∷ s) = let rest = skip_spaces s in if is_space c then rest else c ∷ s

-- The digits at the front of `s`, after a number `v` read so far, and what follows them.
unfoldable pub read_digits : ℕ → Text → ℕ × Text
read_digits v [] = (v, [])
read_digits v (c ∷ s) =
    let rest = read_digits (v * 10 + (c - b'0')) s in if is_digit c then rest else (v, c ∷ s)

abbrev pub negate : ℕ → ℤ
negate zero = pos 0
negate (suc n) = negsuc n

-- after an optional sign
read_signed : Text → ℤ
read_signed [] = pos 0
read_signed (c ∷ s) =
    if c == b'-'
    then negate (read_digits 0 s).0
    else if c == b'+'
    then pos (read_digits 0 s).0
    else pos (read_digits 0 (c ∷ s)).0

-- `atoi` and `atol`; a number outside the type's range is undefined there, and is exact here
unfoldable pub atoi : Text → ℤ
unfolding read_signed read_digits skip_spaces
atoi s = read_signed (skip_spaces s)

-- `std::to_string` of an unsigned number, last digit first; `fuel` bounds the digits
unfoldable pub print_digits : ℕ → ℕ → Text → Text
print_digits zero n acc = acc
print_digits (suc fuel) n acc =
    let digit = b'0' + n % 10 in
    let rest = print_digits fuel (n / 10) (digit ∷ acc) in if n / 10 == 0 then digit ∷ acc else rest

unfoldable pub to_string : ℕ → Text
unfolding print_digits
to_string n = print_digits (suc n) n []

read_digits-print_digits :
    (fuel n : ℕ) (acc : Text)
    → n < fuel
    → read_digits 0 (print_digits fuel n acc) ≡ read_digits n acc
unfolding read_digits print_digits
read_digits-print_digits zero n acc h = elim h [ ]
read_digits-print_digits (suc fuel) n acc h =
    ground (arith, read_digits-print_digits fuel (n / 10) ((b'0' + n % 10) ∷ acc))

read_signed-digit :
    (c : ℕ) (s : Text) → is_digit c ≡ true → atoi (c ∷ s) ≡ pos (read_digits 0 (c ∷ s)).0
unfolding atoi
read_signed-digit c s h = ground arith

atoi-print_digits :
    (fuel n : ℕ) (acc : Text)
    → n < fuel
    → atoi (print_digits fuel n acc) ≡ pos (read_digits 0 (print_digits fuel n acc)).0
unfolding print_digits
atoi-print_digits zero n acc h = elim h [ ]
atoi-print_digits (suc fuel) n acc h =
    let digit = b'0' + n % 10 in
    ground (arith, read_signed-digit digit acc, atoi-print_digits fuel (n / 10) (digit ∷ acc))

-- Reading back a printed number gives that number.
pub atoi-to_string : (n : ℕ) → atoi (to_string n) ≡ pos n
unfolding to_string read_digits
atoi-to_string n =
    ground (arith, atoi-print_digits (suc n) n [], read_digits-print_digits (suc n) n [])

-- Every bit of a text up to its first NUL, as a C string is read.
unfoldable pub c_str : Text → Text
c_str [] = []
c_str (c ∷ s) = let rest = c_str s in if c == 0 then [] else c ∷ rest

-- The position of the last `x`, as `find_last_of` and `rfind` give it; `none` is `npos`.
unfoldable pub find_last : ℕ → Text → Option ℕ
find_last x [] = none
find_last x (c ∷ s) = elim (find_last x s) [
  | some i ↦ some (suc i)
  | none ↦ if c == x then some 0 else none
]

-- The position of the first `x`, as `find_first_of` gives it.
unfoldable pub find_first : ℕ → Text → Option ℕ
find_first x [] = none
find_first x (c ∷ s) =
    let later : Option ℕ = elim (find_first x s) [ some i ↦ some (suc i) | none ↦ none ] in
    if c == x then some 0 else later

-- `substr(0, n)` and `substr(n)` for positions inside the text
unfoldable pub take : ℕ → Text → Text
take zero s = []
take (suc n) [] = []
take (suc n) (c ∷ s) = c ∷ take n s

unfoldable pub drop : ℕ → Text → Text
drop zero s = s
drop (suc n) [] = []
drop (suc n) (c ∷ s) = drop n s

-- `substr(0, find_first_of(x))`, where `npos` takes everything
unfoldable pub take_before : ℕ → Text → Text
take_before x [] = []
take_before x (c ∷ s) = let rest = take_before x s in if c == x then [] else c ∷ rest

abbrev pub last? : Text → Option ℕ
last? [] = none
last? (c ∷ []) = some c
last? (c ∷ d ∷ s) = last? (d ∷ s)

-- `erase(size() - 1)` of a text that is not empty
abbrev pub drop_last : Text → Text
drop_last [] = []
drop_last (c ∷ []) = []
drop_last (c ∷ d ∷ s) = c ∷ drop_last (d ∷ s)
