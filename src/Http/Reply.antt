-- ===== src/Http/Reply.antt =====
-- `reply` and `mime_types` of ad_system/server3/.
pub mod Client
pub mod Framing
use learning_cpp.Prelude.{
  ℕ, Bool, true, false, if◌then◌else◌, List, [], ◌∷◌, ◌++◌, Bytes, codes, equal, length,
}
use learning_cpp.Http.Request.{Header}

-- `reply::status_type`.
pub data Status : Type 0 where
  ok created accepted no_content : Status
  multiple_choices moved_permanently moved_temporarily not_modified : Status
  bad_request unauthorized forbidden not_found : Status
  internal_server_error not_implemented bad_gateway service_unavailable : Status

-- The values of `reply::status_type`.
unfoldable pub status_code : Status → ℕ
status_code Status.ok = 200
status_code Status.created = 201
status_code Status.accepted = 202
status_code Status.no_content = 204
status_code Status.multiple_choices = 300
status_code Status.moved_permanently = 301
status_code Status.moved_temporarily = 302
status_code Status.not_modified = 304
status_code Status.bad_request = 400
status_code Status.unauthorized = 401
status_code Status.forbidden = 403
status_code Status.not_found = 404
status_code Status.internal_server_error = 500
status_code Status.not_implemented = 501
status_code Status.bad_gateway = 502
status_code Status.service_unavailable = 503

-- `status_strings::to_buffer`.
unfoldable pub status_line : Status → Bytes
status_line Status.ok = codes "HTTP/1.0 200 OK\r\n"
status_line Status.created = codes "HTTP/1.0 201 Created\r\n"
status_line Status.accepted = codes "HTTP/1.0 202 Accepted\r\n"
status_line Status.no_content = codes "HTTP/1.0 204 No Content\r\n"
status_line Status.multiple_choices = codes "HTTP/1.0 300 Multiple Choices\r\n"
status_line Status.moved_permanently = codes "HTTP/1.0 301 Moved Permanently\r\n"
status_line Status.moved_temporarily = codes "HTTP/1.0 302 Moved Temporarily\r\n"
status_line Status.not_modified = codes "HTTP/1.0 304 Not Modified\r\n"
status_line Status.bad_request = codes "HTTP/1.0 400 Bad Request\r\n"
status_line Status.unauthorized = codes "HTTP/1.0 401 Unauthorized\r\n"
status_line Status.forbidden = codes "HTTP/1.0 403 Forbidden\r\n"
status_line Status.not_found = codes "HTTP/1.0 404 Not Found\r\n"
status_line Status.internal_server_error = codes "HTTP/1.0 500 Internal Server Error\r\n"
status_line Status.not_implemented = codes "HTTP/1.0 501 Not Implemented\r\n"
status_line Status.bad_gateway = codes "HTTP/1.0 502 Bad Gateway\r\n"
status_line Status.service_unavailable = codes "HTTP/1.0 503 Service Unavailable\r\n"

-- A page of `stock_replies`: its title and its heading.
abbrev page : Bytes → Bytes → Bytes
page title heading =
    codes "<html><head><title>"
    ++ (title ++ (codes "</title></head><body><h1>" ++ (heading ++ codes "</h1></body></html>")))

-- `stock_replies::to_string`.
unfoldable pub stock_content : Status → Bytes
stock_content Status.ok = []
stock_content Status.created = page (codes "Created") (codes "201 Created")
stock_content Status.accepted = page (codes "Accepted") (codes "202 Accepted")
stock_content Status.no_content = page (codes "No Content") (codes "204 Content")
stock_content Status.multiple_choices =
    page (codes "Multiple Choices") (codes "300 Multiple Choices")
stock_content Status.moved_permanently =
    page (codes "Moved Permanently") (codes "301 Moved Permanently")
stock_content Status.moved_temporarily =
    page (codes "Moved Temporarily") (codes "302 Moved Temporarily")
stock_content Status.not_modified = page (codes "Not Modified") (codes "304 Not Modified")
stock_content Status.bad_request = page (codes "Bad Request") (codes "400 Bad Request")
stock_content Status.unauthorized = page (codes "Unauthorized") (codes "401 Unauthorized")
stock_content Status.forbidden = page (codes "Forbidden") (codes "403 Forbidden")
stock_content Status.not_found = page (codes "Not Found") (codes "404 Not Found")
stock_content Status.internal_server_error =
    page (codes "Internal Server Error") (codes "500 Internal Server Error")
stock_content Status.not_implemented = page (codes "Not Implemented") (codes "501 Not Implemented")
stock_content Status.bad_gateway = page (codes "Bad Gateway") (codes "502 Bad Gateway")
stock_content Status.service_unavailable =
    page (codes "Service Unavailable") (codes "503 Service Unavailable")

pub record Reply : Type 0 where
  pub status : Status
  pub headers : List Header
  pub content : Bytes

-- The loop of `to_buffers` over the headers.
abbrev pub header_buffers : List Header → List Bytes
header_buffers [] = []
header_buffers (h ∷ hs) = h.name ∷ codes ": " ∷ h.value ∷ codes "\r\n" ∷ header_buffers hs

-- `reply::to_buffers`.
unfoldable pub to_buffers : Reply → List Bytes
to_buffers r = status_line r.status ∷ (header_buffers r.headers ++ (codes "\r\n" ∷ r.content ∷ []))

-- What `async_write` sends of a sequence of buffers.
abbrev pub gather : List Bytes → Bytes
gather [] = []
gather (b ∷ bs) = b ++ gather bs

-- The two headers of every reply of the program. `to_text` is `boost::lexical_cast<std::string>`.
abbrev pub two_headers : (to_text : ℕ → Bytes) → Bytes → Bytes → List Header
two_headers to_text content type =
    record { name = codes "Content-Length"; value = to_text (length content) }
    ∷ record { name = codes "Content-Type"; value = type }
    ∷ []

-- `reply::stock_reply`.
unfoldable pub stock_reply : (to_text : ℕ → Bytes) → Status → Reply
stock_reply to_text status = record {
  status = status;
  headers = two_headers to_text (stock_content status) (codes "text/html");
  content = stock_content status;
}

-- `mime_types::mappings`, without the end mark.
abbrev mappings : List (Bytes × Bytes)
mappings =
    (codes "gif", codes "image/gif")
    ∷ (codes "htm", codes "text/html")
    ∷ (codes "html", codes "text/html")
    ∷ (codes "jpg", codes "image/jpeg")
    ∷ (codes "png", codes "image/png")
    ∷ (codes "xml", codes "text/xml")
    ∷ (codes "txt", codes "text/plain")
    ∷ []

abbrev find_type : Bytes → List (Bytes × Bytes) → Bytes
find_type extension [] = codes "text/plain"
find_type extension ((e, t) ∷ ms) = if equal e extension then t else find_type extension ms

-- `mime_types::extension_to_type`.
unfoldable pub extension_to_type : Bytes → Bytes
unfolding equal
extension_to_type extension = find_type extension mappings
