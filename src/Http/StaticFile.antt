-- ===== src/Http/StaticFile.antt =====
-- cold/net/http/StaticFileBody.h and StaticFileServlet.h: the files below a directory. The file
-- system is a parameter.
pub mod Inside
mod Tests
use libcold.Base.{
  ℕ, ◌^◌, ◌-◌, List, [], ◌∷◌, ◌++◌, Bool, true, false, not, Option, none, some, ◌>>=◌,
  if◌then◌else◌, str_eq, bytes_of,
}
use libcold.Base.StdMap.{StdMap, find, assign}
use libcold.Http.Status.{status_not_found, status_internal_server_error}
use libcold.Http.Response.{HttpResponse, HttpResponseBody, decimal, set_status, set_body}
use libcold.Http.Request.{HttpRequest, cut_last}
use libcold.Http.RequestParser.{has_dot_dot}

-- The initialiser of the map: the first entry of a suffix counts.
unfoldable pub mimetypes : StdMap (List ℕ)
mimetypes =
    (bytes_of ".html", bytes_of "text/html")
    ∷ (bytes_of ".htm", bytes_of "text/html")
    ∷ (bytes_of ".shtml", bytes_of "text/html")
    ∷ (bytes_of ".css", bytes_of "text/css")
    ∷ (bytes_of ".xml", bytes_of "text/xml")
    ∷ (bytes_of ".gif", bytes_of "image/gif")
    ∷ (bytes_of ".jpeg", bytes_of "image/jpeg")
    ∷ (bytes_of ".jpg", bytes_of "image/jpeg")
    ∷ (bytes_of ".js", bytes_of "application/javascript")
    ∷ (bytes_of ".atom", bytes_of "application/atom+xml")
    ∷ (bytes_of ".rss", bytes_of "application/rss+xml")
    ∷ (bytes_of ".mml", bytes_of "text/mathml")
    ∷ (bytes_of ".txt", bytes_of "text/plain")
    ∷ (bytes_of ".jad", bytes_of "text/vnd.sun.j2me.app-descriptor")
    ∷ (bytes_of ".wml", bytes_of "text/vnd.wap.wml")
    ∷ (bytes_of ".htc", bytes_of "text/x-component")
    ∷ (bytes_of ".png", bytes_of "image/png")
    ∷ (bytes_of ".tif", bytes_of "image/tiff")
    ∷ (bytes_of ".tiff", bytes_of "image/tiff")
    ∷ (bytes_of ".wbmp", bytes_of "image/vnd.wap.wbmp")
    ∷ (bytes_of ".ico", bytes_of "image/x-icon")
    ∷ (bytes_of ".jng", bytes_of "image/x-jng")
    ∷ (bytes_of ".bmp", bytes_of "image/x-ms-bmp")
    ∷ (bytes_of ".svg", bytes_of "image/svg+xml")
    ∷ (bytes_of ".svgz", bytes_of "image/svg+xml")
    ∷ (bytes_of ".webp", bytes_of "image/webp")
    ∷ (bytes_of ".woff", bytes_of "font/woff")
    ∷ (bytes_of ".woff2", bytes_of "font/woff2")
    ∷ (bytes_of ".jar", bytes_of "application/java-archive")
    ∷ (bytes_of ".war", bytes_of "application/java-archive")
    ∷ (bytes_of ".ear", bytes_of "application/java-archive")
    ∷ (bytes_of ".json", bytes_of "application/json")
    ∷ (bytes_of ".hqx", bytes_of "application/mac-binhex40")
    ∷ (bytes_of ".doc", bytes_of "application/msword")
    ∷ (bytes_of ".pdf", bytes_of "application/pdf")
    ∷ (bytes_of ".ps", bytes_of "application/postscript")
    ∷ (bytes_of ".eps", bytes_of "application/postscript")
    ∷ (bytes_of ".ai", bytes_of "application/postscript")
    ∷ (bytes_of ".rtf", bytes_of "application/rtf")
    ∷ (bytes_of ".m3u8", bytes_of "application/vnd.apple.mpegurl")
    ∷ (bytes_of ".xls", bytes_of "application/vnd.ms-excel")
    ∷ (bytes_of ".eot", bytes_of "application/vnd.ms-fontobject")
    ∷ (bytes_of ".ppt", bytes_of "application/vnd.ms-powerpoint")
    ∷ (bytes_of ".wmlc", bytes_of "application/vnd.wap.wmlc")
    ∷ (bytes_of ".kml", bytes_of "application/vnd.google-earth.kml+xml")
    ∷ (bytes_of ".kmz", bytes_of "application/vnd.google-earth.kmz")
    ∷ (bytes_of ".7z", bytes_of "application/x-7z-compressed")
    ∷ (bytes_of ".cco", bytes_of "application/x-cocoa")
    ∷ (bytes_of ".jardiff", bytes_of "application/x-java-archive-diff")
    ∷ (bytes_of ".jnlp", bytes_of "application/x-java-jnlp-file")
    ∷ (bytes_of ".run", bytes_of "application/x-makeself")
    ∷ (bytes_of ".pl", bytes_of "application/x-perl")
    ∷ (bytes_of ".pm", bytes_of "application/x-perl")
    ∷ (bytes_of ".prc", bytes_of "application/x-pilot")
    ∷ (bytes_of ".pdb", bytes_of "application/x-pilot")
    ∷ (bytes_of ".rar", bytes_of "application/x-rar-compressed")
    ∷ (bytes_of ".rpm", bytes_of "application/x-redhat-package-manager")
    ∷ (bytes_of ".sea", bytes_of "application/x-sea")
    ∷ (bytes_of ".swf", bytes_of "application/x-shockwave-flash")
    ∷ (bytes_of ".sit", bytes_of "application/x-stuffit")
    ∷ (bytes_of ".tcl", bytes_of "application/x-tcl")
    ∷ (bytes_of ".tk", bytes_of "application/x-tcl")
    ∷ (bytes_of ".der", bytes_of "application/x-x509-ca-cert")
    ∷ (bytes_of ".pem", bytes_of "application/x-x509-ca-cert")
    ∷ (bytes_of ".crt", bytes_of "application/x-x509-ca-cert")
    ∷ (bytes_of ".xpi", bytes_of "application/x-xpinstall")
    ∷ (bytes_of ".xhtml", bytes_of "application/xhtml+xml")
    ∷ (bytes_of ".xspf", bytes_of "application/xspf+xml")
    ∷ (bytes_of ".zip", bytes_of "application/zip")
    ∷ (bytes_of ".bin", bytes_of "application/octet-stream")
    ∷ (bytes_of ".exe", bytes_of "application/octet-stream")
    ∷ (bytes_of ".dll", bytes_of "application/octet-stream")
    ∷ (bytes_of ".deb", bytes_of "application/octet-stream")
    ∷ (bytes_of ".dmg", bytes_of "application/octet-stream")
    ∷ (bytes_of ".iso", bytes_of "application/octet-stream")
    ∷ (bytes_of ".img", bytes_of "application/octet-stream")
    ∷ (bytes_of ".msi", bytes_of "application/octet-stream")
    ∷ (bytes_of ".msp", bytes_of "application/octet-stream")
    ∷ (bytes_of ".msm", bytes_of "application/octet-stream")
    ∷ (
      bytes_of ".docx",
      bytes_of "application/vnd.openxmlformats-officedocument.wordprocessingml.document",
    )
    ∷ (
      bytes_of ".xlsx",
      bytes_of "application/vnd.openxmlformats-officedocument.spreadsheetml.sheet",
    )
    ∷ (
      bytes_of ".pptx",
      bytes_of "application/vnd.openxmlformats-officedocument.presentationml.presentation",
    )
    ∷ (bytes_of ".mid", bytes_of "audio/midi")
    ∷ (bytes_of ".midi", bytes_of "audio/midi")
    ∷ (bytes_of ".kar", bytes_of "audio/midi")
    ∷ (bytes_of ".mp3", bytes_of "audio/mpeg")
    ∷ (bytes_of ".ogg", bytes_of "audio/ogg")
    ∷ (bytes_of ".m4a", bytes_of "audio/x-m4a")
    ∷ (bytes_of ".ra", bytes_of "audio/x-realaudio")
    ∷ (bytes_of ".3gpp", bytes_of "video/3gpp")
    ∷ (bytes_of ".3gp", bytes_of "video/3gpp")
    ∷ (bytes_of ".ts", bytes_of "video/mp2t")
    ∷ (bytes_of ".mp4", bytes_of "video/mp4")
    ∷ (bytes_of ".mpeg", bytes_of "video/mpeg")
    ∷ (bytes_of ".mpg", bytes_of "video/mpeg")
    ∷ (bytes_of ".mov", bytes_of "video/quicktime")
    ∷ (bytes_of ".webm", bytes_of "video/webm")
    ∷ (bytes_of ".flv", bytes_of "video/x-flv")
    ∷ (bytes_of ".m4v", bytes_of "video/x-m4v")
    ∷ (bytes_of ".mng", bytes_of "video/x-mng")
    ∷ (bytes_of ".asx", bytes_of "video/x-ms-asf")
    ∷ (bytes_of ".asf", bytes_of "video/x-ms-asf")
    ∷ (bytes_of ".wmv", bytes_of "video/x-ms-wmv")
    ∷ (bytes_of ".avi", bytes_of "video/x-msvideo")
    ∷ []

-- What the calls of the system say of a path: whether it is a regular file that all may read, its
-- size, none where file_size has an error, whether it opens, and what is in it.
pub record FileSystem : Type 0 where
  pub readable : List ℕ → Bool
  pub file_size : List ℕ → Option ℕ
  pub opens : List ℕ → Bool
  pub content : List ℕ → List ℕ

-- The path of the file that is open, where there is one, and its size.
pub record StaticFileBody : Type 0 where
  pub request_path : List ℕ
  pub opened : Option (List ℕ)
  pub size : ℕ

abbrev pub not_opened : List ℕ → ℕ → StaticFileBody
not_opened path size = record { request_path = path; opened = none; size = size }

abbrev pub index_if_root : List ℕ → List ℕ
index_if_root path = if str_eq path (bytes_of "/") then bytes_of "/index.html" else path

abbrev pub open_file :
    FileSystem → List ℕ → List ℕ → HttpResponse → Option ℕ → StaticFileBody × HttpResponse
open_file fs path full response none =
    (not_opened path (2 ^ 64 - 1), set_status status_internal_server_error response)
open_file fs path full response (some size) =
    if fs.opens full
    then (record { request_path = path; opened = some full; size = size }, response)
    else (not_opened path size, set_status status_internal_server_error response)

-- The constructor, which sets the status of the response where it fails.
unfoldable pub static_file_body :
    FileSystem → List ℕ → List ℕ → HttpResponse → StaticFileBody × HttpResponse
static_file_body fs request_path doc_root response =
    let path = index_if_root request_path in
    let full = doc_root ++ path in
    if has_dot_dot request_path
    then (not_opened request_path 0, set_status status_not_found response)
    else if fs.readable full
    then open_file fs path full response (fs.file_size full)
    else (not_opened path 0, set_status status_not_found response)

abbrev pub type_or_html : Option (List ℕ) → List ℕ
type_or_html none = bytes_of "text/html"
type_or_html (some t) = t

abbrev pub content_type : List ℕ × List ℕ → List ℕ
content_type (front, back) = type_or_html (find (46 ∷ back) mimetypes) ++ bytes_of "; charset=utf-8"

-- SetRelatedHeaders; none where substr throws, since there is no dot in the path.
abbrev pub headers_if_open :
    StaticFileBody → Option (List ℕ) → StdMap (List ℕ) → Option (StdMap (List ℕ))
headers_if_open body none headers = some headers
headers_if_open body (some full) headers = cut_last 46 body.request_path >>= λ parts. some (
    assign (bytes_of "Content-Type") (content_type parts)
      (assign (bytes_of "Content-Length") (decimal body.size) headers))

unfoldable pub set_related_headers : StaticFileBody → StdMap (List ℕ) → Option (StdMap (List ℕ))
set_related_headers body headers = headers_if_open body body.opened headers

abbrev pub content_of : FileSystem → Option (List ℕ) → List ℕ
content_of fs none = []
content_of fs (some full) = fs.content full

-- StaticFileServlet::Handle: the body is made, and SetBody puts its headers into the response.
unfoldable pub handle : FileSystem → List ℕ → HttpRequest → HttpResponse → Option HttpResponse
handle fs doc_root request response =
    let (body, response') = static_file_body fs request.url doc_root response in
    set_related_headers body response'.headers >>= λ headers. some (
      set_body
        (record { set_related_headers = λ old. headers; to_raw_body = content_of fs body.opened })
        response')
