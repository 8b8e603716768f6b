-- ===== src/Server/Handler/Headers.antt =====
-- server/request_handler.cpp: the headers of its replies, as they are sent.
use license_checker.Prelude.{
  ℕ, zero, suc, Text, codes, length, to_string, print_digits, text_eq, ◌==◌, ◌+◌, ◌/◌, ◌%◌, All,
  Bool, true, false, Option, List, [], ◌∷◌, ◌≡◌, refl, subst, sym, arith, if◌then◌else◌,
}
use license_checker.Server.Handler.Paths.{
  Replies, undecoded, refused, missing, found, handle_request-Replies,
}
use license_checker.Server.Handler.{
  handle_request, mappings, find_mapping, extension_to_type, extension_of, add_index,
}
use license_checker.Server.Message.{Request}
use license_checker.Server.Reply.Wire.{IsLine, IsSendable}
use license_checker.Server.Reply.{Reply, content_headers, stock_reply}

-- a text without the byte `x`
lacks : ℕ → Text → Bool
lacks x [] = true
lacks x (c ∷ s) = let rest = lacks x s in if c == x then false else rest

lacks_lem : (x : ℕ) (s : Text) → lacks x s ≡ true → All (λ c. (c == x) ≡ false) s
unfolding lacks
lacks_lem x [] h = tt
lacks_lem x (c ∷ s) h = (ground (arith, h), lacks_lem x s (ground (arith, h)))

IsLine-if : (b : Bool) (s t : Text) → IsLine s → IsLine t → IsLine (if b then s else t)
IsLine-if true s t hs ht = hs
IsLine-if false s t hs ht = ht

print_digits-IsLine : (fuel n : ℕ) (acc : Text) → IsLine acc → IsLine (print_digits fuel n acc)
unfolding print_digits
print_digits-IsLine zero n acc h = h
print_digits-IsLine (suc fuel) n acc h =
    let digit : (b'0' + n % 10 == 13) ≡ false = ground arith in
    IsLine-if (n / 10 == 0) _ _ (digit, h) (print_digits-IsLine fuel (n / 10) _ (digit, h))

to_string-IsLine : (n : ℕ) → IsLine (to_string n)
unfolding to_string
to_string-IsLine n = print_digits-IsLine (suc n) n [] tt

find_mapping-IsLine :
    (extension : Text) (maps : List (Text × Text))
    → All (λ m. lacks 13 m.1 ≡ true) maps
    → IsLine (find_mapping extension maps)
unfolding find_mapping lacks codes
find_mapping-IsLine extension [] h = lacks_lem 13 (codes "text/plain") refl
find_mapping-IsLine extension ((e, mime_type) ∷ maps) (h, hs) =
    IsLine-if (text_eq e extension) _ _ (lacks_lem 13 mime_type h)
      (find_mapping-IsLine extension maps hs)

extension_to_type-IsLine : (extension : Text) → IsLine (extension_to_type extension)
unfolding extension_to_type lacks codes
extension_to_type-IsLine extension =
    find_mapping-IsLine extension mappings
      (refl, (refl, (refl, (refl, (refl, (refl, (refl, (refl, tt))))))))

content_headers-IsSendable :
    (content content_type : Text)
    → IsLine content_type
    → All IsSendable (content_headers content content_type)
unfolding lacks codes
content_headers-IsSendable content content_type h = (
  (
    lacks_lem b':' (codes "Content-Length") refl,
    lacks_lem 13 (codes "Content-Length") refl,
    to_string-IsLine (length content),
  ),
  ((lacks_lem b':' (codes "Content-Type") refl, lacks_lem 13 (codes "Content-Type") refl, h), tt),
)

html-IsLine : IsLine (codes "text/html")
unfolding lacks codes
html-IsLine = lacks_lem 13 (codes "text/html") refl

module _ (read_file : Text → Option Text) (doc_root : Text) where
  Replies-IsSendable :
      (req : Request) (old rep : Reply)
      → Replies read_file doc_root req old rep
      → All IsSendable rep.headers
  unfolding stock_reply
  Replies-IsSendable req old _ (undecoded e) = content_headers-IsSendable _ _ html-IsLine
  Replies-IsSendable req old _ (refused path e h) = content_headers-IsSendable _ _ html-IsLine
  Replies-IsSendable req old _ (missing path h e) = content_headers-IsSendable _ _ html-IsLine
  Replies-IsSendable req old rep (found path bytes h e s c k) = subst (All IsSendable) (sym k) (
      content_headers-IsSendable rep.content _
        (extension_to_type-IsLine (extension_of (add_index path))))

  -- The headers of every reply have no colon in a name, and no carriage return.
  pub handle_request-IsSendable :
      (req : Request) (old : Reply)
      → All IsSendable (handle_request read_file doc_root req old).headers
  handle_request-IsSendable req old =
      Replies-IsSendable req old _ (handle_request-Replies read_file doc_root req old)
