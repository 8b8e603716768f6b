-- ===== src/Server/Parameters/RoundTrip.antt =====
-- server/request_parser.cpp, `parse_paremeters`: a form that is written out is read back.
use license_checker.Prelude.{
  ℕ, pos, Text, length, length-append, take, ltb, is_empty, ◌==◌, ◌<◌, ◌++◌, append_assoc, All,
  false, List, [], ◌∷◌, ok, throws, fault, ◌≡◌, refl, ap, ◌∙◌, arith,
}
use license_checker.Server.Message.{Header, Request}
use license_checker.Server.Parameters.{
  content_length, push_pair, push_pairs, parse_length, parse_parameters,
}

-- a name and its value
unfoldable pub print_pair : Header → Text
print_pair h = h.name ++ (b'=' ∷ h.value)

unfoldable pub print_form : Header → List Header → Text
unfolding print_pair
print_form h [] = print_pair h
print_form h (g ∷ hs) = print_pair h ++ (b'&' ∷ print_form g hs)

-- What `boost::split` does with one separator: the pieces between its occurrences, the empty ones
-- too.
pub record Splits (split : ℕ → Text → List Text) : Type 0 where
  pub whole : (c : ℕ) (s : Text) → All (λ x. (x == c) ≡ false) s → split c s ≡ s ∷ []
  pub parted :
      (c : ℕ) (s t : Text) → All (λ x. (x == c) ≡ false) s → split c (s ++ (c ∷ t)) ≡ s ∷ split c t

abbrev Lacks : ℕ → Text → Type 0
Lacks c s = All (λ x. (x == c) ≡ false) s

-- no separator in a name or a value
pub record IsField (h : Header) : Type 0 where
  pub name_whole : All (λ x. (x == b'=') ≡ false) h.name
  pub value_whole : All (λ x. (x == b'=') ≡ false) h.value
  pub name_apart : All (λ x. (x == b'&') ≡ false) h.name
  pub value_apart : All (λ x. (x == b'&') ≡ false) h.value

Lacks-append : (c : ℕ) (s t : Text) → Lacks c s → Lacks c t → Lacks c (s ++ t)
Lacks-append c [] t h k = k
Lacks-append c (x ∷ s) t (h, hs) k = (h, Lacks-append c s t hs k)

Lacks-print_pair : (h : Header) → IsField h → Lacks b'&' (print_pair h)
unfolding print_pair
Lacks-print_pair h f = Lacks-append b'&' h.name (b'=' ∷ h.value) f.name_apart (refl, f.value_apart)

take-append : (s t : Text) → take (length s) (s ++ t) ≡ s
unfolding take
take-append [] t = refl
take-append (c ∷ s) t = ap (◌∷◌ c) (take-append s t)

print_form_long : (h : Header) (hs : List Header) → 0 < length (print_form h hs)
unfolding print_form print_pair
print_form_long h [] = let n = length-append h.name (b'=' ∷ h.value) in omega arith
print_form_long h (g ∷ hs) =
    let n = length-append (print_pair h) (b'&' ∷ print_form g hs) in omega arith

module _ (split : ℕ → Text → List Text) (splits : Splits split) where
  push_pair-print :
      (h : Header) (r : Request)
      → IsField h
      → push_pair (split b'=' (print_pair h)) r
        ≡ ok (record r { parameters = r.parameters ++ h ∷ [] })
  unfolding push_pair print_pair
  push_pair-print h r f =
      let parts =
        splits.parted b'=' h.name h.value f.name_whole
        ∙ ap (◌∷◌ h.name) (splits.whole b'=' h.value f.value_whole) in
      ap (λ ps. push_pair ps r) parts

  push_one :
      (h : Header) (pairs : List Text) (r : Request)
      → IsField h
      → push_pairs split (print_pair h ∷ pairs) r
        ≡ push_pairs split pairs (record r { parameters = r.parameters ++ h ∷ [] })
  unfolding push_pairs
  push_one h pairs r f =
      ap
        (λ x. elim x [
          | ok pushed ↦ push_pairs split pairs pushed
          | throws e ↦ throws e
          | fault ↦ fault
        ])
        (push_pair-print h r f)

  push_pairs-print_form :
      (h : Header) (hs : List Header) (r : Request)
      → IsField h
      → All IsField hs
      → push_pairs split (split b'&' (print_form h hs)) r
        ≡ ok (record r { parameters = r.parameters ++ h ∷ hs })
  unfolding print_form push_pairs
  push_pairs-print_form h [] r f fs =
      ap (λ ps. push_pairs split ps r) (splits.whole b'&' (print_pair h) (Lacks-print_pair h f))
      ∙ push_one h [] r f
  push_pairs-print_form h (g ∷ hs) r f (k, ks) =
      ap (λ ps. push_pairs split ps r)
        (splits.parted b'&' (print_pair h) (print_form g hs) (Lacks-print_pair h f))
      ∙ push_one h (split b'&' (print_form g hs)) r f
      ∙ push_pairs-print_form g hs (record r { parameters = r.parameters ++ h ∷ [] }) k ks
      ∙ ap (λ ps. ok (record r { parameters = ps })) (append_assoc r.parameters (h ∷ []) (g ∷ hs))

  parse_length-append :
      (n : ℕ) (s t : Text) (r : Request)
      → n ≡ length s
      → 0 < n
      → parse_length split (pos n) r (s ++ t) ≡ push_pairs split (split b'&' s) r
  unfolding parse_length
  parse_length-append n s t r e positive =
      let long = length-append s t in
      let some_left : (n == 0) ≡ false = ground (arith, positive) in
      let inside : ltb (length (s ++ t)) n ≡ false = ground (arith, long, e) in
      let taken : take n (s ++ t) ≡ s = ap (λ k. take k (s ++ t)) e ∙ take-append s t in
      rw (some_left, inside, taken) refl

  -- Where `split` gives the pieces between the separators, a form of at least one pair, in which no
  -- name and no value has a separator, is read back when it is written out, if the header gives its
  -- length; what follows it is not read.
  pub parse_parameters-print_form :
      (h : Header) (hs : List Header) (rest : Text) (r : Request)
      → IsField h
      → All IsField hs
      → content_length r ≡ pos (length (print_form h hs))
      → parse_parameters split r (print_form h hs ++ rest)
        ≡ ok (record r { parameters = r.parameters ++ h ∷ hs })
  unfolding parse_parameters
  parse_parameters-print_form h hs rest r f fs e =
      let positive = print_form_long h hs in
      let filled : is_empty (print_form h hs ++ rest) ≡ false =
        is_filled (print_form h hs) positive in
      rw (filled, e)
        (parse_length-append (length (print_form h hs)) (print_form h hs) rest r refl positive
          ∙ push_pairs-print_form h hs r f fs)
    where
      is_filled : (s : Text) → 0 < length s → is_empty (s ++ rest) ≡ false
      is_filled [] k = ground (arith, k)
      is_filled (c ∷ s) k = refl
