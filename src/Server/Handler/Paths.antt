-- ===== src/Server/Handler/Paths.antt =====
-- server/request_handler.cpp: which files are given out, and what a reply says of its content.
use license_checker.Prelude.{
  pos, Text, codes, c_str, length, atoi, atoi-to_string, to_string, true, false, Bool-cases, inl,
  inr, Option, Option-cases, none, some, [], ◌∷◌, ◌++◌, ◌≡◌, ◌⊎◌, refl,
}
use license_checker.Server.Handler.{
  handle_request, handle_path, send_path, fill_reply, is_rooted, has_dots, add_index, extension_of,
  extension_to_type,
}
use license_checker.Server.Message.{Request}
use license_checker.Server.Reply.{
  Reply, success, bad_request, not_found, stock_reply, content_headers,
}
use license_checker.Server.Url.{url_decode}

-- A reply has a length and a type, and the length is that of its content.
pub record IsFramed (rep : Reply) : Type 0 where
  pub declared : Text
  pub content_type : Text
  pub headers_eq :
      rep.headers
      ≡ record { name = codes "Content-Length"; value = declared }
        ∷ record { name = codes "Content-Type"; value = content_type }
        ∷ []
  pub declares : atoi declared ≡ pos (length rep.content)

module _ (read_file : Text → Option Text) (doc_root : Text) where
  -- The path that a request asks for, where it may be given out.
  pub record IsPath (req : Request) (path : Text) : Type 0 where
    pub decoded : url_decode req.uri ≡ some path
    pub rooted : is_rooted path ≡ true
    pub no_dots : has_dots path ≡ false

  -- `handle_request` answers `rep` to `req`: not at all where the path may not be given out, and
  -- else with the file below the root or with 404.
  pub data Replies (req : Request) (old : Reply) : Reply → Type 0 where
    undecoded : url_decode req.uri ≡ none → Replies req old (stock_reply bad_request)
    refused :
        (path : Text)
        → url_decode req.uri ≡ some path
        → (is_rooted path ≡ false) ⊎ (has_dots path ≡ true)
        → Replies req old (stock_reply bad_request)
    missing :
        (path : Text)
        → IsPath req path
        → read_file (c_str (doc_root ++ add_index path)) ≡ none
        → Replies req old (stock_reply not_found)
    found :
        (path bytes : Text) {rep : Reply}
        → IsPath req path
        → read_file (c_str (doc_root ++ add_index path)) ≡ some bytes
        → rep.status ≡ success
        → rep.content ≡ old.content ++ bytes
        → rep.headers
          ≡ content_headers rep.content (extension_to_type (extension_of (add_index path)))
        → Replies req old rep

  send_path-Replies :
      (req : Request) (old : Reply) (path : Text)
      → IsPath req path
      → Replies req old (send_path read_file doc_root (add_index path) old)
  unfolding send_path fill_reply
  send_path-Replies req old path h =
      elim (Option-cases (read_file (c_str (doc_root ++ add_index path)))) [
        | inl e ↦ rw e (missing path h e)
        | inr (bytes, e) ↦ rw e (found path bytes h e refl refl refl)
      ]

  handle_path-Replies :
      (req : Request) (old : Reply) (path : Text)
      → url_decode req.uri ≡ some path
      → Replies req old (handle_path read_file doc_root (some path) old)
  unfolding handle_path
  handle_path-Replies req old path e = elim (Bool-cases (is_rooted path)) [
    | inr off ↦ rw off (refused path e (inl off))
    | inl rooted ↦ elim (Bool-cases (has_dots path)) [
      | inl dots ↦ rw (rooted, dots) (refused path e (inr dots))
      | inr clean ↦
          rw (rooted, clean)
            (send_path-Replies req old path
              (record { decoded = e; rooted = rooted; no_dots = clean }))
    ]
  ]

  -- Every request is answered, by one of four replies: 400 where the address does not decode, or
  -- decodes to a path that is not absolute or has two dots in a row; 404 where no file opens; and
  -- else the bytes of the file below the root, with its type and the length of the content.
  pub handle_request-Replies :
      (req : Request) (old : Reply) → Replies req old (handle_request read_file doc_root req old)
  unfolding handle_request
  handle_request-Replies req old = elim (Option-cases (url_decode req.uri)) [
    | inl e ↦ rw e (unfold handle_path in undecoded e)
    | inr (path, e) ↦ rw e (handle_path-Replies req old path e)
  ]

  content_headers-IsFramed :
      (rep : Reply) (content_type : Text)
      → rep.headers ≡ content_headers rep.content content_type
      → IsFramed rep
  content_headers-IsFramed rep content_type e = record {
    declared = to_string (length rep.content);
    content_type = content_type;
    headers_eq = e;
    declares = atoi-to_string (length rep.content);
  }

  Replies-IsFramed : (req : Request) (old rep : Reply) → Replies req old rep → IsFramed rep
  unfolding stock_reply
  Replies-IsFramed req old _ (undecoded e) = content_headers-IsFramed _ _ refl
  Replies-IsFramed req old _ (refused path e h) = content_headers-IsFramed _ _ refl
  Replies-IsFramed req old _ (missing path h e) = content_headers-IsFramed _ _ refl
  Replies-IsFramed req old rep (found path bytes h e s c k) = content_headers-IsFramed _ _ k

  -- Every reply has two headers, the length of its content, which reads back as that number, and a
  -- type, whatever the reply object held before.
  pub handle_request-IsFramed :
      (req : Request) (old : Reply) → IsFramed (handle_request read_file doc_root req old)
  handle_request-IsFramed req old = Replies-IsFramed req old _ (handle_request-Replies req old)
