-- ===== src/WebHandler.antt =====
-- http_server/handle_request.h and http_server/mime_types.cpp: the handler that is built on
-- Boost.Beast. Opening a file, `boost::split` and the text of an error code are parameters.
pub mod Safety
pub mod Pages
use license_checker.Prelude.{
  ℕ, Text, codes, c_str, text_eq, is_empty, last?, drop_last, find_last, drop, within, ◌==◌, ◌+◌,
  ◌++◌, Bool, true, false, not, ◌||◌, Option, none, some, List, [], ◌∷◌, Outcome, ok, throws, fault,
  if◌then◌else◌,
}
use license_checker.Server.Handler.{has_dots, is_rooted}

-- `beast::iequals` on ASCII
lower : Text → Text
lower [] = []
lower (c ∷ s) = (if within b'A' b'Z' c then c + 32 else c) ∷ lower s

abbrev extensions : List (Text × Text)
extensions =
    (codes ".htm", codes "text/html")
    ∷ (codes ".html", codes "text/html")
    ∷ (codes ".php", codes "text/html")
    ∷ (codes ".css", codes "text/css")
    ∷ (codes ".txt", codes "text/plain")
    ∷ (codes ".js", codes "application/javascript")
    ∷ (codes ".json", codes "application/json")
    ∷ (codes ".xml", codes "application/xml")
    ∷ (codes ".swf", codes "application/x-shockwave-flash")
    ∷ (codes ".flv", codes "video/x-flv")
    ∷ (codes ".png", codes "image/png")
    ∷ (codes ".jpe", codes "image/jpeg")
    ∷ (codes ".jpeg", codes "image/jpeg")
    ∷ (codes ".jpg", codes "image/jpeg")
    ∷ (codes ".gif", codes "image/gif")
    ∷ (codes ".bmp", codes "image/bmp")
    ∷ (codes ".ico", codes "image/vnd.microsoft.icon")
    ∷ (codes ".tiff", codes "image/tiff")
    ∷ (codes ".tif", codes "image/tiff")
    ∷ (codes ".svg", codes "image/svg+xml")
    ∷ (codes ".svgz", codes "image/svg+xml")
    ∷ []

find_extension : Text → List (Text × Text) → Text
find_extension ext [] = codes "application/text"
find_extension ext ((e, mime) ∷ rest) =
    let later = find_extension ext rest in if text_eq ext e then mime else later

-- the extension from its dot on
unfoldable pub extension : Text → Text
extension path = elim (find_last b'.' path) [ none ↦ [] | some i ↦ drop i path ]

unfoldable pub mime_type : Text → Text
unfolding find_extension extension lower
mime_type path = find_extension (lower (extension path)) extensions

-- the Linux branch: one separator between the two
unfoldable pub path_cat : Text → Text → Text
path_cat base path = if is_empty base then path else elim (last? base) [
  | none ↦ path
  | some c ↦ (if c == b'/' then drop_last base else base) ++ path
]

pub data Method : Type 0 where
  get : Method
  post : Method
  other : Method

pub record Request : Type 0 where
  pub method : Method
  pub target : Text
  pub keep_alive : Bool
  pub body : Text

-- `content_type` and `keep_alive` are `none` where they are not set.
pub record Response : Type 0 where
  pub status : ℕ
  pub content_type : Option Text
  pub keep_alive : Option Bool
  pub body : Text

-- `file_body::open`
pub data Opened : Type 0 where
  opened : Text → Opened
  no_such_file : Opened
  open_error : Text → Opened

error_response : ℕ → Text → Request → Response
error_response status what r = record {
  status = status;
  content_type = some (codes "text/html");
  keep_alive = some r.keep_alive;
  body = what;
}

unfoldable pub bad_request : Text → Request → Response
unfolding error_response
bad_request why r = error_response 400 why r

unfoldable pub not_found : Request → Response
unfolding error_response
not_found r =
    error_response 404 (codes "The resource '" ++ (r.target ++ codes "' was not found.")) r

unfoldable pub server_error : Text → Request → Response
unfolding error_response
server_error what r = error_response 500 (codes "An error occurred: '" ++ (what ++ codes "'")) r

-- A pair with no `=` has no second value, and reading it is undefined.
is_pair : List Text → Bool
is_pair (name ∷ value ∷ rest) = true
is_pair _ = false

module _ (split : ℕ → Text → List Text) (open_file : Text → Opened) (read_file : Text → Option Text)
    (doc_root : Text) where
  all_pairs : List Text → Bool
  unfolding is_pair
  all_pairs [] = true
  all_pairs (p ∷ pairs) =
      let rest = all_pairs pairs in if is_pair (split b'=' p) then rest else false

  -- the file that a target stands for
  unfoldable pub full_path : Text → Text
  full_path target = elim (last? target) [
    | none ↦ path_cat doc_root target
    | some c ↦
        (if c == b'/'
          then path_cat doc_root target ++ codes "index.html"
          else path_cat doc_root target)
  ]

  unfoldable pub answer_opened : Text → Opened → Request → Response
  answer_opened path (opened bytes) r = record {
    status = 200;
    content_type = some (mime_type path);
    keep_alive = some r.keep_alive;
    body = bytes;
  }
  answer_opened path no_such_file r = not_found r
  answer_opened path (open_error what) r = server_error what r

  unfoldable pub respond_get : Request → Response
  unfolding answer_opened
  respond_get r = let path = full_path r.target in answer_opened path (open_file (c_str path)) r

  -- `load_html`, whose error code is never set
  unfoldable pub load_html : Text → Text
  load_html path = elim (read_file (c_str path)) [ none ↦ [] | some bytes ↦ bytes ]

  unfoldable pub respond_post : Request → Outcome Response
  unfolding all_pairs
  respond_post r =
      if all_pairs (split b'&' r.body)
      then ok (record {
        status = 200;
        content_type = none;
        keep_alive = none;
        body = load_html (full_path r.target);
      })
      else fault

  unfoldable pub respond : Method → Request → Outcome Response
  respond get r = ok (respond_get r)
  respond post r = respond_post r
  respond other r = ok (bad_request (codes "Unknown HTTP-method") r)

  -- The method is looked at before the target, and again after it.
  unfoldable pub check_target : Request → Outcome Response
  unfolding respond
  check_target r =
      if not (is_rooted r.target) || has_dots r.target
      then ok (bad_request (codes "Illegal request-target") r)
      else respond r.method r

  unfoldable pub handle_request : Request → Outcome Response
  unfolding check_target
  handle_request r = elim r.method [
    | other ↦ ok (bad_request (codes "Unknown HTTP-method") r)
    | get ↦ check_target r
    | post ↦ check_target r
  ]
