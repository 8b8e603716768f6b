-- ===== src/Server/Handler.antt =====
-- server/request_handler.cpp, `handle_request`, and server/mime_types.cpp. `read_file` is the file
-- system: the bytes of a file that opens.
pub mod Headers
pub mod Paths
use license_checker.Prelude.{
  ℕ, Text, codes, c_str, text_eq, is_empty, last?, find_last, drop, ltb, suc, ◌==◌, ◌++◌, Bool,
  true, false, not, ◌||◌, ◌&&◌, Option, none, some, List, [], ◌∷◌, if◌then◌else◌,
}
use license_checker.Server.Message.{Request}
use license_checker.Server.Reply.{
  Reply, StatusType, success, bad_request, not_found, stock_reply, content_headers,
}
use license_checker.Server.Url.{url_decode}

abbrev mappings : List (Text × Text)
mappings =
    (codes "gif", codes "image/gif")
    ∷ (codes "htm", codes "text/html")
    ∷ (codes "html", codes "text/html")
    ∷ (codes "jpg", codes "image/jpeg")
    ∷ (codes "png", codes "image/png")
    ∷ (codes "js", codes "text/js")
    ∷ (codes "css", codes "text/css")
    ∷ (codes "javascript", codes "application/javascript")
    ∷ []

find_mapping : Text → List (Text × Text) → Text
find_mapping extension [] = codes "text/plain"
find_mapping extension ((e, mime_type) ∷ rest) =
    let found = find_mapping extension rest in if text_eq e extension then mime_type else found

unfoldable pub extension_to_type : Text → Text
unfolding find_mapping
extension_to_type extension = find_mapping extension mappings

-- `path.find("..") != npos`
unfoldable pub has_dots : Text → Bool
has_dots [] = false
has_dots (c ∷ []) = false
has_dots (c ∷ d ∷ s) = let rest = has_dots (d ∷ s) in if c == b'.' && d == b'.' then true else rest

-- an absolute path
unfoldable pub is_rooted : Text → Bool
is_rooted [] = false
is_rooted (c ∷ s) = c == b'/'

-- a directory stands for its index
unfoldable pub add_index : Text → Text
add_index path = elim (last? path) [
  | none ↦ path
  | some c ↦ if c == b'/' then path ++ codes "index.html" else path
]

-- The path has a slash, so `last_slash_pos` is a position.
unfoldable pub extension_of : Text → Text
extension_of path = elim (find_last b'.' path) [
  | none ↦ []
  | some dot ↦ elim (find_last b'/' path) [
    | none ↦ []
    | some slash ↦ if ltb slash dot then drop (suc dot) path else []
  ]
]

module _ (read_file : Text → Option Text) (doc_root : Text) where
  -- The contents are read in blocks of 512 bytes up to the end.
  fill_reply : Text → Option Text → Reply → Reply
  fill_reply extension none rep = stock_reply not_found
  fill_reply extension (some bytes) rep =
      let content = rep.content ++ bytes in
      record {
        status = success;
        headers = content_headers content (extension_to_type extension);
        content = content;
      }

  send_path : Text → Reply → Reply
  unfolding fill_reply
  send_path path rep = fill_reply (extension_of path) (read_file (c_str (doc_root ++ path))) rep

  handle_path : Option Text → Reply → Reply
  unfolding send_path
  handle_path none rep = stock_reply bad_request
  handle_path (some path) rep =
      if not (is_rooted path) || has_dots path
      then stock_reply bad_request
      else send_path (add_index path) rep

  unfoldable pub handle_request : Request → Reply → Reply
  unfolding handle_path
  handle_request req rep = handle_path (url_decode req.uri) rep
