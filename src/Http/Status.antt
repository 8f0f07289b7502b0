-- ===== src/Http/Status.antt =====
-- cold/net/http/HttpCommon.h: the status codes with their messages. The macros of the source make
-- an enum and a switch from one table, and so it is a table here.
mod Tests
use libcold.Base.{
  ℕ, List, [], ◌∷◌, Option, none, some, ◌==◌, if◌then◌else◌, bytes_of, Every, ◌≡◌, refl, ltb, Bool,
  true, false, ◌&&◌, arith, ◌==◌, ==_iff,
}

unfoldable pub http_status_table : List (ℕ × List ℕ)
http_status_table =
    (100, bytes_of "Continue")
    ∷ (101, bytes_of "Switching Protocols")
    ∷ (102, bytes_of "Processing")
    ∷ (103, bytes_of "Early Hints")
    ∷ (110, bytes_of "Response Is Stale")
    ∷ (111, bytes_of "Revalidation Failed")
    ∷ (112, bytes_of "Disconnected Operation")
    ∷ (113, bytes_of "Heuristic ExpiratioN")
    ∷ (199, bytes_of "Miscellaneous Warning")
    ∷ (200, bytes_of "OK")
    ∷ (201, bytes_of "Created")
    ∷ (202, bytes_of "Accepted")
    ∷ (203, bytes_of "Non Authoritative Information")
    ∷ (204, bytes_of "No Content")
    ∷ (205, bytes_of "Reset Content")
    ∷ (206, bytes_of "Partial Content")
    ∷ (207, bytes_of "Multi - Status")
    ∷ (208, bytes_of "Already Reported")
    ∷ (214, bytes_of "Transformation Applied")
    ∷ (226, bytes_of "IM Used")
    ∷ (299, bytes_of "Miscellaneous Persistent Warning")
    ∷ (300, bytes_of "Multiple Choices")
    ∷ (301, bytes_of "Moved Permanently")
    ∷ (302, bytes_of "Found")
    ∷ (303, bytes_of "See Other")
    ∷ (304, bytes_of "Not Modified")
    ∷ (305, bytes_of "Use Proxy")
    ∷ (306, bytes_of "Switch Proxy")
    ∷ (307, bytes_of "Temporary Redirect")
    ∷ (308, bytes_of "Permanent Redirect")
    ∷ (400, bytes_of "Bad Request")
    ∷ (401, bytes_of "Unauthorized")
    ∷ (402, bytes_of "Payment Required")
    ∷ (403, bytes_of "Forbidden")
    ∷ (404, bytes_of "Not Found")
    ∷ (405, bytes_of "Method Not Allowed")
    ∷ (406, bytes_of "Not Acceptable")
    ∷ (407, bytes_of "Proxy Authentication Required")
    ∷ (408, bytes_of "Request Timeout")
    ∷ (409, bytes_of "Conflict")
    ∷ (410, bytes_of "Gone")
    ∷ (411, bytes_of "Length Required")
    ∷ (412, bytes_of "Precondition Failed")
    ∷ (413, bytes_of "Payload Too Large")
    ∷ (414, bytes_of "URI Too Long")
    ∷ (415, bytes_of "Unsupported Media Type")
    ∷ (416, bytes_of "Range Not Satisfiable")
    ∷ (417, bytes_of "Expectation Failed")
    ∷ (418, bytes_of "Im a teapot")
    ∷ (419, bytes_of "Page Expired")
    ∷ (420, bytes_of "Enhance Your Calm")
    ∷ (421, bytes_of "Misdirected Request")
    ∷ (422, bytes_of "Unprocessable Entity")
    ∷ (423, bytes_of "Locked")
    ∷ (424, bytes_of "Failed Dependency")
    ∷ (425, bytes_of "Too Early")
    ∷ (426, bytes_of "Upgrade Required")
    ∷ (428, bytes_of "Precondition Required")
    ∷ (429, bytes_of "Too Many Requests")
    ∷ (430, bytes_of "Request Header Fields Too Large Unofficial")
    ∷ (431, bytes_of "Request Header Fields Too Large")
    ∷ (440, bytes_of "Login Timeout")
    ∷ (444, bytes_of "No Response")
    ∷ (449, bytes_of "Retry With")
    ∷ (450, bytes_of "Blocked by Parental Control")
    ∷ (451, bytes_of "Unavailable For Legal Reasons")
    ∷ (460, bytes_of "Client Closed Load Balanced Request")
    ∷ (463, bytes_of "Invalid X Forwarded For")
    ∷ (494, bytes_of "Request Header Too Large")
    ∷ (495, bytes_of "SSL Certificate Error")
    ∷ (496, bytes_of "SSL Certificate Required")
    ∷ (497, bytes_of "HTTP Request Sent to HTTPS Port")
    ∷ (498, bytes_of "Invalid Token")
    ∷ (499, bytes_of "Client Closed Request")
    ∷ (500, bytes_of "Internal Server Error")
    ∷ (501, bytes_of "Not Implemented")
    ∷ (502, bytes_of "Bad Gateway")
    ∷ (503, bytes_of "Service Unavailable")
    ∷ (504, bytes_of "Gateway Timeout")
    ∷ (505, bytes_of "HTTP Version Not Supported")
    ∷ (506, bytes_of "Variant Also Negotiates")
    ∷ (507, bytes_of "Insufficient Storage")
    ∷ (508, bytes_of "Loop Detected")
    ∷ (509, bytes_of "Bandwidth Limit Exceeded")
    ∷ (510, bytes_of "Not Extended")
    ∷ (511, bytes_of "Network Authentication Required")
    ∷ (520, bytes_of "Web Server Unknown Error")
    ∷ (521, bytes_of "Web Server Is Down")
    ∷ (522, bytes_of "Connection Timeout")
    ∷ (523, bytes_of "Origin Is Unreachable")
    ∷ (524, bytes_of "Timeout Occurred")
    ∷ (525, bytes_of "SSL Handshake Failed")
    ∷ (526, bytes_of "Invalid SSL Certificate")
    ∷ (527, bytes_of "Railgun Error")
    ∷ (529, bytes_of "Site Is Overloaded")
    ∷ (530, bytes_of "Site Is Frozen")
    ∷ (561, bytes_of "Identity Provider Authentication Error")
    ∷ (598, bytes_of "Network Read Timeout")
    ∷ (599, bytes_of "Network Connect Timeout")
    ∷ []

abbrev pub status_ok : ℕ
status_ok = 200

abbrev pub status_found : ℕ
status_found = 302

abbrev pub status_bad_request : ℕ
status_bad_request = 400

abbrev pub status_not_found : ℕ
status_not_found = 404

abbrev pub status_internal_server_error : ℕ
status_internal_server_error = 500

abbrev pub row_of : ℕ → List (ℕ × List ℕ) → Option (List ℕ)
row_of status [] = none
row_of status ((code, message) ∷ rows) = if code == status then some message else row_of status rows

-- HttpStatusToHttpStatusMsg; none is its assertion that the status is a known one.
unfoldable pub http_status_to_http_status_msg : ℕ → Option (List ℕ)
http_status_to_http_status_msg status = row_of status http_status_table
