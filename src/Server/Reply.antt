-- ===== src/Server/Reply.antt =====
-- server/reply.cpp and server/reply.hpp: the reply, its bytes, and the stock replies. The status
-- `ok` is `success` here.
pub mod Wire
use license_checker.Prelude.{ℕ, Text, codes, length, to_string, ◌++◌, List, [], ◌∷◌}
use license_checker.Server.Message.{Header}

pub data StatusType : Type 0 where
  success : StatusType
  created : StatusType
  accepted : StatusType
  no_content : StatusType
  multiple_choices : StatusType
  moved_permanently : StatusType
  moved_temporarily : StatusType
  not_modified : StatusType
  bad_request : StatusType
  unauthorized : StatusType
  forbidden : StatusType
  not_found : StatusType
  internal_server_error : StatusType
  not_implemented : StatusType
  bad_gateway : StatusType
  service_unavailable : StatusType

pub record Reply : Type 0 where
  pub status : StatusType
  pub headers : List Header
  pub content : Text

-- the number of a status, as the enum has it
abbrev pub status_number : StatusType → ℕ
status_number success = 200
status_number created = 201
status_number accepted = 202
status_number no_content = 204
status_number multiple_choices = 300
status_number moved_permanently = 301
status_number moved_temporarily = 302
status_number not_modified = 304
status_number bad_request = 400
status_number unauthorized = 401
status_number forbidden = 403
status_number not_found = 404
status_number internal_server_error = 500
status_number not_implemented = 501
status_number bad_gateway = 502
status_number service_unavailable = 503

abbrev crlf : Text
crlf = 13 ∷ 10 ∷ []

abbrev name_value_separator : Text
name_value_separator = b':' ∷ b' ' ∷ []

-- `status_strings`
unfoldable pub status_string : StatusType → Text
status_string success = codes "HTTP/1.0 200 OK" ++ crlf
status_string created = codes "HTTP/1.0 201 Created" ++ crlf
status_string accepted = codes "HTTP/1.0 202 Accepted" ++ crlf
status_string no_content = codes "HTTP/1.0 204 No Content" ++ crlf
status_string multiple_choices = codes "HTTP/1.0 300 Multiple Choices" ++ crlf
status_string moved_permanently = codes "HTTP/1.0 301 Moved Permanently" ++ crlf
status_string moved_temporarily = codes "HTTP/1.0 302 Moved Temporarily" ++ crlf
status_string not_modified = codes "HTTP/1.0 304 Not Modified" ++ crlf
status_string bad_request = codes "HTTP/1.0 400 Bad Request" ++ crlf
status_string unauthorized = codes "HTTP/1.0 401 Unauthorized" ++ crlf
status_string forbidden = codes "HTTP/1.0 403 Forbidden" ++ crlf
status_string not_found = codes "HTTP/1.0 404 Not Found" ++ crlf
status_string internal_server_error = codes "HTTP/1.0 500 Internal Server Error" ++ crlf
status_string not_implemented = codes "HTTP/1.0 501 Not Implemented" ++ crlf
status_string bad_gateway = codes "HTTP/1.0 502 Bad Gateway" ++ crlf
status_string service_unavailable = codes "HTTP/1.0 503 Service Unavailable" ++ crlf

-- `status_strings::to_buffer`
unfoldable pub to_buffer : StatusType → Text
unfolding status_string
to_buffer status = status_string status

-- the buffers of one header
abbrev header_buffers : Header → List Text
header_buffers h = h.name ∷ name_value_separator ∷ h.value ∷ crlf ∷ []

unfoldable pub all_header_buffers : List Header → List Text
all_header_buffers [] = []
all_header_buffers (h ∷ headers) = header_buffers h ++ all_header_buffers headers

unfoldable pub to_buffers : Reply → List Text
unfolding all_header_buffers
to_buffers r = to_buffer r.status ∷ (all_header_buffers r.headers ++ (crlf ∷ r.content ∷ []))

-- `stock_replies`
page : Text → Text → Text
page title heading =
    codes "<html><head><title>"
    ++ (title ++ (codes "</title></head><body><h1>" ++ (heading ++ codes "</h1></body></html>")))

unfoldable pub stock_content : StatusType → Text
unfolding page
stock_content success = []
stock_content created = page (codes "Created") (codes "201 Created")
stock_content accepted = page (codes "Accepted") (codes "202 Accepted")
stock_content no_content = page (codes "No Content") (codes "204 Content")
stock_content multiple_choices = page (codes "Multiple Choices") (codes "300 Multiple Choices")
stock_content moved_permanently = page (codes "Moved Permanently") (codes "301 Moved Permanently")
stock_content moved_temporarily = page (codes "Moved Temporarily") (codes "302 Moved Temporarily")
stock_content not_modified = page (codes "Not Modified") (codes "304 Not Modified")
stock_content bad_request = page (codes "Bad Request") (codes "400 Bad Request")
stock_content unauthorized = page (codes "Unauthorized") (codes "401 Unauthorized")
stock_content forbidden = page (codes "Forbidden") (codes "403 Forbidden")
stock_content not_found = page (codes "Not Found") (codes "404 Not Found")
stock_content internal_server_error =
    page (codes "Internal Server Error") (codes "500 Internal Server Error")
stock_content not_implemented = page (codes "Not Implemented") (codes "501 Not Implemented")
stock_content bad_gateway = page (codes "Bad Gateway") (codes "502 Bad Gateway")
stock_content service_unavailable =
    page (codes "Service Unavailable") (codes "503 Service Unavailable")

-- The two headers that every reply has, whatever `resize(2)` left in it.
abbrev pub content_headers : Text → Text → List Header
content_headers content content_type =
    record { name = codes "Content-Length"; value = to_string (length content) }
    ∷ record { name = codes "Content-Type"; value = content_type }
    ∷ []

unfoldable pub stock_reply : StatusType → Reply
stock_reply status =
    let content = stock_content status in
    record {
      status = status;
      headers = content_headers content (codes "text/html");
      content = content;
    }
