-- ===== src/WebSocket/Handshake.antt =====
-- cold/net/http/WebSocketServer.h and WebSocketServer.cpp: the handshake, and the set of sessions.
-- SHA1 of cold/util/Crypto.h calls OpenSSL and is a parameter; a session is named by its address.
use libcold.Base.{
  ℕ, suc, ◌≡◌, refl, sym, ap, ◌∙◌, List, [], ◌∷◌, ◌++◌, Bool, true, false, ◌&&◌, Option, none, some,
  ◌==◌, if◌then◌else◌, length, bytes_of, str_eq,
}
use libcold.Base.StdMap.{contains, assign}
use libcold.Crypto.{base64_encode}
use libcold.Crypto.Alphabet.{base64_encode-member}
use libcold.Http.Url.{url_decode}
use libcold.Http.Request.{RawHttpRequest, get_value}
use libcold.Http.Status.{http_status_to_http_status_msg, http_status_table}
use libcold.Http.Response.{
  HttpResponse, new_response, set_status, set_header, set_upgrade_connection, make_headers, decimal,
  decimal_loop,
}
use libcold.Http.Response.Lines.{read_head}
use libcold.Http.Response.Head.{sent, head_of, IsPlainResponse, make_headers-read_head}

-- CheckWhetherUpgradeRequest.
unfoldable pub check_whether_upgrade_request : RawHttpRequest → Bool
check_whether_upgrade_request request =
    str_eq (get_value (bytes_of "Connection") request.headers) (bytes_of "Upgrade")
    && (str_eq (get_value (bytes_of "Upgrade") request.headers) (bytes_of "websocket")
        && contains (bytes_of "Sec-WebSocket-Key") request.headers)

abbrev pub guid : List ℕ
guid = bytes_of "258EAFA5-E914-47DA-95CA-C5AB0DC85B11"

abbrev pub status_switching : ℕ
status_switching = 101

-- The sessions, and how often the program was told of a new one and of one that closed.
pub record WebSocketServer : Type 0 where
  pub web_sockets : List ℕ
  pub connects : List (ℕ × List ℕ)
  pub closes : List ℕ

unfoldable pub erase_socket : ℕ → List ℕ → List ℕ
erase_socket s [] = []
erase_socket s (t ∷ ts) = if s == t then ts else t ∷ erase_socket s ts

unfoldable pub insert_socket : ℕ → List ℕ → List ℕ
unfolding erase_socket
insert_socket s ts = s ∷ erase_socket s ts

-- What the session calls when it ends.
unfoldable pub on_close : ℕ → WebSocketServer → WebSocketServer
unfolding erase_socket
on_close s server = record server {
  web_sockets = erase_socket s server.web_sockets;
  closes = server.closes ++ s ∷ [];
}

module _ (sha1 : List ℕ → List ℕ) where
  abbrev pub encoded_key : List ℕ → List ℕ
  encoded_key key = base64_encode (sha1 (key ++ guid))

  unfoldable pub upgrade_response : List ℕ → HttpResponse
  upgrade_response key = set_header (bytes_of "Sec-WebSocket-Accept") (encoded_key key) (
      set_header (bytes_of "Upgrade") (bytes_of "websocket")
        (set_upgrade_connection (set_status status_switching new_response)))

  -- The head that is sent, and the server and the url of the session where WriteN wrote it; the
  -- session reads next.
  abbrev pub upgraded :
      Bool
      → ℕ
      → RawHttpRequest
      → WebSocketServer
      → Option (HttpResponse × List ℕ)
      → Option (List ℕ × WebSocketServer × Option (List ℕ))
  upgraded wrote s request server none = none
  upgraded wrote s request server (some (r, head)) =
      let url = url_decode request.url in
      if wrote
      then some (
        head,
        record server {
          web_sockets = insert_socket s server.web_sockets;
          connects = server.connects ++ (s, url) ∷ [];
        },
        some url,
      )
      else some (head, server, none)

  -- OnReceivedUpgradeRequest, for the address of the new session.
  unfoldable pub on_received_upgrade_request :
      Bool
      → ℕ
      → RawHttpRequest
      → WebSocketServer
      → Option (List ℕ × WebSocketServer × Option (List ℕ))
  unfolding upgrade_response insert_socket
  on_received_upgrade_request wrote s request server =
      upgraded wrote s request server
        (make_headers (upgrade_response (get_value (bytes_of "Sec-WebSocket-Key") request.headers)))

  -- The lines that the client reads.
  abbrev pub handshake_lines : List ℕ → List (List ℕ)
  handshake_lines key =
      bytes_of "HTTP/1.1 101 Switching Protocols"
      ∷ bytes_of "Connection: Upgrade"
      ∷ (bytes_of "Sec-WebSocket-Accept: " ++ encoded_key key)
      ∷ bytes_of "Upgrade: websocket"
      ∷ []

module _ (sha1 : List ℕ → List ℕ) where
  IsPlainResponse-upgrade_response : (key : List ℕ) → IsPlainResponse (upgrade_response sha1 key)
  unfolding upgrade_response assign
  IsPlainResponse-upgrade_response key = record {
    version = refl;
    headers = ((refl, base64_encode-member (sha1 (key ++ guid))), ((refl, refl), tt));
    cookies = tt;
  }

  switching :
      http_status_to_http_status_msg status_switching ≡ some (bytes_of "Switching Protocols")
  unfolding http_status_to_http_status_msg http_status_table
  switching = refl

  lines_of_head :
      (key : List ℕ)
      → head_of (upgrade_response sha1 key) (bytes_of "Switching Protocols")
        ≡ handshake_lines sha1 key
  unfolding upgrade_response assign decimal decimal_loop
  lines_of_head key = refl

  -- The handshake of a request sends a head that a client, which cuts what is sent at CR LF, reads as
  -- the lines of RFC 6455: the status 101, the upgrade to WebSocket, and the hash of the request's
  -- key and the fixed identifier in base 64; what is sent behind it is the session's. If the head was
  -- written, the server has the session, and the program is told of it with the url decoded; else
  -- nothing changes.
  pub on_received_upgrade_request_lines :
      (wrote : Bool) (s : ℕ) (request : RawHttpRequest) (server : WebSocketServer)
      (content : List ℕ)
      → (head : List ℕ) × (on_received_upgrade_request sha1 wrote s request server
          ≡ some (
              if wrote
              then (
                head,
                record server {
                  web_sockets = insert_socket s server.web_sockets;
                  connects = server.connects ++ (s, url_decode request.url) ∷ [];
                },
                some (url_decode request.url),
              )
              else (head, server, none)))
        × (read_head 5 (head ++ content)
            ≡ some (
              handshake_lines sha1 (get_value (bytes_of "Sec-WebSocket-Key") request.headers),
              content,
            ))
  unfolding on_received_upgrade_request
  on_received_upgrade_request_lines wrote s request server content =
      let key = get_value (bytes_of "Sec-WebSocket-Key") request.headers in
      let r = upgrade_response sha1 key in
      let h =
        make_headers-read_head r (bytes_of "Switching Protocols") content switching
          (IsPlainResponse-upgrade_response key) in
      (
        h.0,
        ap (upgraded sha1 wrote s request server) h.1 ∙ by_answer wrote h.0,
        ap (λ l. read_head (suc (length l)) (h.0 ++ content)) (sym (lines_of_head key))
            ∙ h.2
            ∙ ap (λ l. some (l, content)) (lines_of_head key),
      )
    where
      by_answer :
          (b : Bool) (head : List ℕ)
          → upgraded sha1 b s request server (
              some (
                sent (
                    upgrade_response sha1
                      (get_value (bytes_of "Sec-WebSocket-Key") request.headers)),
                head,
              ))
            ≡ some (
                if b
                then (
                  head,
                  record server {
                    web_sockets = insert_socket s server.web_sockets;
                    connects = server.connects ++ (s, url_decode request.url) ∷ [];
                  },
                  some (url_decode request.url),
                )
                else (head, server, none))
      by_answer true head = refl
      by_answer false head = refl
