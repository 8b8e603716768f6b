-- ===== src/License/Dates.antt =====
-- license/license_checker.cpp, `extract_license_date`: where the date of a license is read.
use license_checker.Config.{Options}
use license_checker.License.{
  getlines, push_front, scan_date, scan_int, scan_digits, scan_after_sign, expect_dash,
  date_of_piece, extract_license_date,
}
use license_checker.Platform.{Platform}
use license_checker.Prelude.{
  ℕ, zero, suc, pos, Text, is_digit, read_digits, print_digits, skip_spaces, c_str, ◌==◌, ◌+◌, ◌%◌,
  ◌/◌, ◌<◌, true, false, All, some, [], ◌∷◌, ◌++◌, ◌≡◌, refl, arith, ap, ok,
}

-- A text with no `x` is read in one piece, up to an `x`.
getlines-append :
    (x : ℕ) (s t : Text)
    → All (λ c. (c == x) ≡ false) s
    → getlines x (s ++ x ∷ t) ≡ s ∷ getlines x t
unfolding getlines push_front
getlines-append x [] t h = ground arith
getlines-append x (c ∷ s) t (h, hs) = rw (getlines-append x s t hs, h) refl

getlines-one :
    (x c : ℕ) (s : Text) → All (λ d. (d == x) ≡ false) (c ∷ s) → getlines x (c ∷ s) ≡ (c ∷ s) ∷ []
unfolding getlines push_front
getlines-one x c [] (h, hs) = rw h refl
getlines-one x c (d ∷ s) (h, hs) = rw (getlines-one x d s hs, h) refl

print_digits-read :
    (fuel n : ℕ) (acc : Text)
    → n < fuel
    → read_digits 0 (print_digits fuel n acc) ≡ read_digits n acc
unfolding read_digits print_digits
print_digits-read zero n acc h = elim h [ ]
print_digits-read (suc fuel) n acc h =
    ground (arith, print_digits-read fuel (n / 10) ((b'0' + n % 10) ∷ acc))

scan_int-digit :
    (c : ℕ) (s : Text)
    → is_digit c ≡ true
    → scan_int (c ∷ s) ≡ some (pos (read_digits 0 (c ∷ s)).0, (read_digits 0 (c ∷ s)).1)
unfolding scan_int scan_after_sign scan_digits skip_spaces
scan_int-digit c s h = ground (arith, h)

scan_int-print_digits :
    (fuel n : ℕ) (acc : Text)
    → n < fuel
    → scan_int (print_digits fuel n acc)
      ≡ some (
        pos (read_digits 0 (print_digits fuel n acc)).0,
        (read_digits 0 (print_digits fuel n acc)).1,
      )
unfolding print_digits
scan_int-print_digits zero n acc h = elim h [ ]
scan_int-print_digits (suc fuel) n acc h =
    let digit = b'0' + n % 10 in
    ground (arith, scan_int-digit digit acc, scan_int-print_digits fuel (n / 10) (digit ∷ acc))

-- a number in front of a text
abbrev pub print_number : ℕ → Text → Text
print_number n rest = print_digits (suc n) n rest

scan_int-print_number :
    (n : ℕ) (rest : Text)
    → read_digits n rest ≡ (n, rest)
    → scan_int (print_number n rest) ≡ some (pos n, rest)
scan_int-print_number n rest h =
    ground (arith, scan_int-print_digits (suc n) n rest, print_digits-read (suc n) n rest, h)

read_digits-dash : (n : ℕ) (rest : Text) → read_digits n (b'-' ∷ rest) ≡ (n, b'-' ∷ rest)
unfolding read_digits
read_digits-dash n rest = refl

read_digits-end : (n : ℕ) → read_digits n [] ≡ (n, [])
unfolding read_digits
read_digits-end n = refl

-- the date as a license has it
abbrev pub print_date : ℕ → ℕ → ℕ → Text
print_date year month day =
    print_number year (b'-' ∷ print_number month (b'-' ∷ print_number day []))

scan_date-print_date :
    (year month day : ℕ)
    → scan_date (print_date year month day)
      ≡ some (record { day = pos day; month = pos month; year = pos year })
unfolding scan_date expect_dash
scan_date-print_date year month day =
    rw
      (
        scan_int-print_number year (b'-' ∷ print_number month (b'-' ∷ print_number day []))
            (read_digits-dash year _),
        scan_int-print_number month (b'-' ∷ print_number day []) (read_digits-dash month _),
        scan_int-print_number day [] (read_digits-end day),
      )
      refl

c_str-print_digits :
    (fuel n : ℕ) (acc : Text)
    → c_str acc ≡ acc
    → c_str (print_digits fuel n acc) ≡ print_digits fuel n acc
unfolding c_str print_digits
c_str-print_digits zero n acc h = h
c_str-print_digits (suc fuel) n acc h =
    ground (arith, h, c_str-print_digits fuel (n / 10) ((b'0' + n % 10) ∷ acc))

c_str-print_number : (n : ℕ) (s : Text) → c_str s ≡ s → c_str (print_number n s) ≡ print_number n s
c_str-print_number n s h = c_str-print_digits (suc n) n s h

c_str-dash : (s : Text) → c_str s ≡ s → c_str (b'-' ∷ s) ≡ b'-' ∷ s
unfolding c_str
c_str-dash s h = ap (◌∷◌ b'-') h

c_str-print_date :
    (year month day : ℕ) → c_str (print_date year month day) ≡ print_date year month day
c_str-print_date year month day = c_str-print_number year _ (
    c_str-dash _ (
      c_str-print_number month _ (c_str-dash _ (c_str-print_number day [] (unfold c_str in refl)))))

module _ {D J : Type 0} (os : Platform D J) (o : Options) where
  -- The date of a license is the third of its pieces: where two pieces have no dot and the third is
  -- not empty, has no dot, and decodes to a printed date, it is that date, whatever the first two are.
  pub extract_license_date-print_date :
      (a b d : Text) (c year month day : ℕ)
      → All (λ x. (x == b'.') ≡ false) a
      → All (λ x. (x == b'.') ≡ false) b
      → All (λ x. (x == b'.') ≡ false) (c ∷ d)
      → os.from_base64 (c ∷ d) ≡ ok (print_date year month day)
      → extract_license_date os o (a ++ b'.' ∷ (b ++ b'.' ∷ c ∷ d))
        ≡ ok (record { day = pos day; month = pos month; year = pos year })
  unfolding extract_license_date date_of_piece
  extract_license_date-print_date a b d c year month day ha hb hd e =
      rw
        (
          getlines-append b'.' a (b ++ b'.' ∷ c ∷ d) ha,
          getlines-append b'.' b (c ∷ d) hb,
          getlines-one b'.' c d hd,
          e,
          c_str-print_date year month day,
          scan_date-print_date year month day,
        )
        refl
