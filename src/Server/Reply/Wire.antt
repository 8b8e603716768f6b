-- ===== src/Server/Reply/Wire.antt =====
-- server/reply.cpp, `to_buffers`: the bytes of a reply, and a client that reads them.
use license_checker.Prelude.{
  ℕ, zero, suc, Text, codes, length, length-append, ◌==◌, ◌+◌, ◌*◌, ◌-◌, ◌<◌, ◌++◌, append_assoc,
  append-nil, All, false, Option, none, some, List, [], ◌∷◌, ◌≡◌, refl, ap, sym, ◌∙◌, arith,
  if◌then◌else◌,
}
use license_checker.Server.Connections.Reads.{join}
use license_checker.Server.Message.{Header}
use license_checker.Server.Reply.{
  Reply, StatusType, status_number, status_string, to_buffer, to_buffers, all_header_buffers,
  success, created, accepted, no_content, multiple_choices, moved_permanently, moved_temporarily,
  not_modified, bad_request, unauthorized, forbidden, not_found, internal_server_error,
  not_implemented, bad_gateway, service_unavailable,
}

-- what is sent
unfoldable pub wire : Reply → Text
wire r = join (to_buffers r)

-- what a client makes of it
pub record Received : Type 0 where
  pub code : ℕ
  pub headers : List Header
  pub content : Text

after_return : Text → Option (Text × Text)
after_return [] = none
after_return (c ∷ s) = if c == 10 then some ([], s) else none

add_byte : ℕ → Option (Text × Text) → Option (Text × Text)
add_byte c none = none
add_byte c (some (line, s)) = some (c ∷ line, s)

-- a line without its end, and what follows it
unfoldable pub read_line : Text → Option (Text × Text)
unfolding after_return add_byte
read_line [] = none
read_line (c ∷ s) = let rest = read_line s in if c == 13 then after_return s else add_byte c rest

after_colon : Text → Option Header
after_colon [] = none
after_colon (c ∷ s) = if c == b' ' then some (record { name = []; value = s }) else none

add_name : ℕ → Option Header → Option Header
add_name c none = none
add_name c (some h) = some (record h { name = c ∷ h.name })

unfoldable pub read_header : Text → Option Header
unfolding after_colon add_name
read_header [] = none
read_header (c ∷ s) =
    let rest = read_header s in if c == b':' then after_colon s else add_name c rest

-- the three digits after `HTTP/1.0 `
unfoldable pub read_code : Text → Option ℕ
read_code (_ ∷ _ ∷ _ ∷ _ ∷ _ ∷ _ ∷ _ ∷ _ ∷ _ ∷ a ∷ b ∷ c ∷ _) =
    some (100 * (a - b'0') + 10 * (b - b'0') + (c - b'0'))
read_code _ = none

add_header : Option Header → Option (List Header × Text) → Option (List Header × Text)
add_header (some h) (some (hs, s)) = some (h ∷ hs, s)
add_header _ _ = none

-- an empty line ends the headers
on_line : (Text → Option (List Header × Text)) → Option (Text × Text) → Option (List Header × Text)
unfolding add_header
on_line next none = none
on_line next (some ([], s)) = some ([], s)
on_line next (some (c ∷ line, s)) = add_header (read_header (c ∷ line)) (next s)

unfoldable pub read_headers : ℕ → Text → Option (List Header × Text)
unfolding on_line
read_headers zero s = none
read_headers (suc fuel) s = on_line (read_headers fuel) (read_line s)

finish_reply : Option ℕ → Option (List Header × Text) → Option Received
finish_reply (some code) (some (headers, s)) =
    some (record { code = code; headers = headers; content = s })
finish_reply _ _ = none

after_status : Option (Text × Text) → Option Received
unfolding finish_reply
after_status none = none
after_status (some (line, s)) = finish_reply (read_code line) (read_headers (length s) s)

-- The content goes on to the end of the connection.
unfoldable pub read_reply : Text → Option Received
unfolding after_status
read_reply s = after_status (read_line s)

-- no end of a line in a text
abbrev pub IsLine : Text → Type 0
IsLine s = All (λ c. (c == 13) ≡ false) s

-- A header that can be sent.
abbrev pub IsSendable : Header → Type 0
IsSendable h = All (λ c. (c == b':') ≡ false) h.name × IsLine h.name × IsLine h.value

read_line-append :
    (line t : Text) → IsLine line → read_line (line ++ (13 ∷ 10 ∷ t)) ≡ some (line, t)
unfolding read_line add_byte after_return
read_line-append [] t h = refl
read_line-append (c ∷ line) t (h, hs) = rw (h, read_line-append line t hs) refl

read_header-append :
    (name value : Text)
    → All (λ c. (c == b':') ≡ false) name
    → read_header (name ++ (b':' ∷ b' ' ∷ value)) ≡ some (record { name = name; value = value })
unfolding read_header add_name after_colon
read_header-append [] value h = refl
read_header-append (c ∷ name) value (h, hs) = rw (h, read_header-append name value hs) refl

IsLine-append : (s t : Text) → IsLine s → IsLine t → IsLine (s ++ t)
IsLine-append [] t h k = k
IsLine-append (c ∷ s) t (h, hs) k = (h, IsLine-append s t hs k)

on_line_header :
    (next : Text → Option (List Header × Text)) (name value t : Text)
    → on_line next (some (name ++ (b':' ∷ b' ' ∷ value), t))
      ≡ add_header (read_header (name ++ (b':' ∷ b' ' ∷ value))) (next t)
unfolding on_line
on_line_header next [] value t = refl
on_line_header next (c ∷ name) value t = refl

-- the bytes of the headers, of the empty line and of the content
abbrev rest_of : List Header → Text → Text
rest_of hs content = join (all_header_buffers hs ++ ((13 ∷ 10 ∷ []) ∷ content ∷ []))

rest_of_cons :
    (h : Header) (hs : List Header) (content : Text)
    → rest_of (h ∷ hs) content
      ≡ (h.name ++ (b':' ∷ b' ' ∷ h.value)) ++ (13 ∷ 10 ∷ rest_of hs content)
unfolding all_header_buffers join
rest_of_cons h hs content =
    sym (append_assoc h.name (b':' ∷ b' ' ∷ h.value) (13 ∷ 10 ∷ rest_of hs content))

rest_of_long : (hs : List Header) (content : Text) → length hs < length (rest_of hs content)
unfolding all_header_buffers join
rest_of_long [] content = omega arith
rest_of_long (h ∷ hs) content =
    let long = rest_of_long hs content in
    let t = 13 ∷ 10 ∷ rest_of hs content in
    let n = length-append h.name (b':' ∷ b' ' ∷ (h.value ++ t)) in
    let k = length-append h.value t in omega arith

read_headers-rest_of :
    (fuel : ℕ) (hs : List Header) (content : Text)
    → All IsSendable hs
    → length hs < fuel
    → read_headers fuel (rest_of hs content) ≡ some (hs, content)
unfolding read_headers read_line join all_header_buffers
read_headers-rest_of zero hs content h enough = ground (arith, enough)
read_headers-rest_of (suc fuel) [] content h enough =
    ap (on_line (read_headers fuel)) (read_line-append [] (content ++ []) tt)
    ∙ ap (λ s. some ([], s)) (append-nil content)
read_headers-rest_of (suc fuel) (g ∷ hs) content ((no_colon, name_line, value_line), h) enough =
    let line = g.name ++ (b':' ∷ b' ' ∷ g.value) in
    let is_line =
      IsLine-append g.name (b':' ∷ b' ' ∷ g.value) name_line (refl, (refl, value_line)) in
    ap (λ s. on_line (read_headers fuel) (read_line s)) (rest_of_cons g hs content)
    ∙ ap (on_line (read_headers fuel)) (read_line-append line (rest_of hs content) is_line)
    ∙ on_line_header (read_headers fuel) g.name g.value (rest_of hs content)
    ∙ ap (λ x. add_header x (read_headers fuel (rest_of hs content)))
        (read_header-append g.name g.value no_colon)
    ∙ ap (add_header (some g)) (read_headers-rest_of fuel hs content h (omega arith))

read_status :
    (status : StatusType) (t : Text)
    → read_reply (to_buffer status ++ t)
      ≡ finish_reply (some (status_number status)) (read_headers (length t) t)
unfolding read_reply after_status read_line add_byte after_return read_code to_buffer status_string
    codes
read_status success t = refl
read_status created t = refl
read_status accepted t = refl
read_status no_content t = refl
read_status multiple_choices t = refl
read_status moved_permanently t = refl
read_status moved_temporarily t = refl
read_status not_modified t = refl
read_status bad_request t = refl
read_status unauthorized t = refl
read_status forbidden t = refl
read_status not_found t = refl
read_status internal_server_error t = refl
read_status not_implemented t = refl
read_status bad_gateway t = refl
read_status service_unavailable t = refl

-- A reply whose headers have no colon in a name and no carriage return is read back from the bytes
-- that are sent for it: the number of its status, its headers and its content.
pub read_reply-wire :
    (r : Reply)
    → All IsSendable r.headers
    → read_reply (wire r)
      ≡ some (record { code = status_number r.status; headers = r.headers; content = r.content })
unfolding wire to_buffers join finish_reply
read_reply-wire r h =
    read_status r.status (rest_of r.headers r.content)
    ∙ ap (finish_reply (some (status_number r.status))) (
        read_headers-rest_of (length (rest_of r.headers r.content)) r.headers r.content h
          (rest_of_long r.headers r.content))
