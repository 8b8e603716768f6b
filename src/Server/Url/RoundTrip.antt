-- ===== src/Server/Url/RoundTrip.antt =====
-- server/request_handler.cpp, `url_decode`: it takes back the escapes of RFC 3986.
use license_checker.Prelude.{
  ℕ, Text, ltb, ◌==◌, ◌+◌, ◌-◌, ◌/◌, ◌%◌, ◌<◌, Bool, false, Bool-cases, inl, inr, some, All, [],
  ◌∷◌, ◌≡◌, refl, arith, if◌then◌else◌,
}
use license_checker.Server.Url.{
  hex_digit, scan_hex, after_digit, push_front, push_escape, url_decode,
}

-- the upper-case digit of a number below 16
abbrev pub hex : ℕ → ℕ
hex n = if ltb n 10 then b'0' + n else b'A' + (n - 10)

-- a byte that is escaped: a percent sign, a plus, and whatever `keep` does not keep
module _ (keep : ℕ → Bool) where
  unfoldable pub encode_byte : ℕ → Text → Text
  encode_byte c s =
      if c == b'%'
      then b'%' ∷ hex (c / 16) ∷ hex (c % 16) ∷ s
      else if c == b'+'
      then b'%' ∷ hex (c / 16) ∷ hex (c % 16) ∷ s
      else if keep c
      then c ∷ s
      else b'%' ∷ hex (c / 16) ∷ hex (c % 16) ∷ s

  unfoldable pub encode : Text → Text
  encode [] = []
  encode (c ∷ s) = encode_byte c (encode s)

  hex_digit-hex : (n : ℕ) → n < 16 → hex_digit (hex n) ≡ some n
  unfolding hex_digit
  hex_digit-hex n h = ground (arith, h)

  scan_hex-hex : (c : ℕ) → c < 256 → scan_hex (hex (c / 16)) (hex (c % 16)) ≡ some c
  unfolding scan_hex after_digit
  scan_hex-hex c h =
      ground (arith, h, hex_digit-hex (c / 16) (omega arith), hex_digit-hex (c % 16) (omega arith))

  url_decode-kept :
      (c : ℕ) (s : Text)
      → (c == b'%') ≡ false
      → (c == b'+') ≡ false
      → url_decode (c ∷ s) ≡ push_front c (url_decode s)
  unfolding url_decode push_front
  url_decode-kept c [] h k = rw (h, k) refl
  url_decode-kept c (a ∷ []) h k = rw (h, k) refl
  url_decode-kept c (a ∷ b ∷ s) h k = ground (arith, h, k)

  url_decode_escape :
      (c : ℕ) (s : Text)
      → c < 256
      → url_decode (b'%' ∷ hex (c / 16) ∷ hex (c % 16) ∷ s) ≡ push_front c (url_decode s)
  unfolding url_decode push_escape
  url_decode_escape c s h = rw (scan_hex-hex c h) refl

  url_decode-encode_byte :
      (c : ℕ) (s : Text) → c < 256 → url_decode (encode_byte c s) ≡ push_front c (url_decode s)
  unfolding encode_byte
  url_decode-encode_byte c s h = elim (Bool-cases (c == b'%')) [
    | inl percent ↦ rw percent (url_decode_escape c s h)
    | inr p ↦ elim (Bool-cases (c == b'+')) [
      | inl plus ↦ rw (p, plus) (url_decode_escape c s h)
      | inr q ↦ elim (Bool-cases (keep c)) [
        | inl kept ↦ rw (p, q, kept) (url_decode-kept c s p q)
        | inr other ↦ rw (p, q, other) (url_decode_escape c s h)
      ]
    ]
  ]

  -- Decoding takes back percent-encoding, whichever bytes the encoder leaves as they are, as long
  -- as it escapes the percent sign and the plus.
  pub url_decode-encode : (s : Text) → All (λ c. c < 256) s → url_decode (encode s) ≡ some s
  unfolding encode push_front
  url_decode-encode [] h = unfold url_decode in refl
  url_decode-encode (c ∷ s) (h, hs) =
      rw (url_decode-encode_byte c (encode s) h, url_decode-encode s hs) refl
