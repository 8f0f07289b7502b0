-- ===== src/Http/Response/Head.antt =====
-- The head of a response, read back by a client.
use libcold.Base.{
  ℕ, suc, ◌≡◌, refl, ap, ◌∙◌, List, [], ◌∷◌, ◌++◌, append_assoc, map, false, some, arith, bytes_of,
  is_empty, length, Every, Every-append,
}
use libcold.Base.StdMap.{StdMap, Every-assign}
use libcold.Http.Status.{http_status_to_http_status_msg}
use libcold.Http.Response.{
  decimal, crlf, HttpCookie, HttpResponse, ConnectionStatus, make_headers, header_lines,
  cookie_lines, dump_cookies, dump_cookie, set_header, connection_status_to_connection_str,
  status_line,
}
use libcold.Http.Response.Lines.{
  read_head, read_head-written, IsPlain, IsLine, written, written-append, status_text, header_text,
  cookie_text, header_lines-written, cookie_lines-written, IsPlain-decimal, IsPlain-message,
  member-append,
}

-- The response as MakeHeaders leaves it.
abbrev pub sent : HttpResponse → HttpResponse
sent r =
    set_header (bytes_of "Connection") (connection_status_to_connection_str r.connection_status) r

abbrev pub head_of : HttpResponse → List ℕ → List (List ℕ)
head_of r message =
    status_text r.version r.status message
    ∷ (map header_text (sent r).headers ++ map cookie_text r.cookies)

abbrev pub IsPlainHeader : List ℕ × List ℕ → Type 0
IsPlainHeader (key, value) = IsPlain key × IsPlain value

-- No text that the program put into the response has a carriage return in it.
pub record IsPlainResponse (r : HttpResponse) : Type 0 where
  pub version : IsPlain r.version
  pub headers : Every IsPlainHeader r.headers
  pub cookies : Every (λ c. IsPlain (dump_cookie c)) r.cookies

IsPlain-append : (s t : List ℕ) → IsPlain s → IsPlain t → IsPlain (s ++ t)
IsPlain-append s t hs ht = ground (arith, member-append 13 s t)

is_empty-append : (s t : List ℕ) → is_empty t ≡ false → is_empty (s ++ t) ≡ false
is_empty-append [] t h = h
is_empty-append (c ∷ s) t h = refl

IsPlain-connection : (c : ConnectionStatus) → IsPlain (connection_status_to_connection_str c)
IsPlain-connection ConnectionStatus.keep_alive = refl
IsPlain-connection ConnectionStatus.close = refl
IsPlain-connection ConnectionStatus.upgrade = refl

IsLine-header_text : (h : List ℕ × List ℕ) → IsPlainHeader h → IsLine (header_text h)
IsLine-header_text (key, value) (k, v) = (
  IsPlain-append (key ++ bytes_of ": ") value (IsPlain-append key (bytes_of ": ") k refl) v,
  ap is_empty (append_assoc key (bytes_of ": ") value)
      ∙ is_empty-append key (bytes_of ": " ++ value) refl,
)

IsLine-headers : (m : StdMap (List ℕ)) → Every IsPlainHeader m → Every IsLine (map header_text m)
IsLine-headers [] h = tt
IsLine-headers (entry ∷ m) (here, there) = (IsLine-header_text entry here, IsLine-headers m there)

IsLine-cookies :
    (cs : List HttpCookie)
    → Every (λ c. IsPlain (dump_cookie c)) cs
    → Every IsLine (map cookie_text cs)
IsLine-cookies [] h = tt
IsLine-cookies (c ∷ cs) (here, there) = ((here, refl), IsLine-cookies cs there)

IsLine-status_text :
    (version message : List ℕ) (status : ℕ)
    → IsPlain version
    → IsPlain message
    → IsLine (status_text version status message)
IsLine-status_text version message status v m =
    let space = bytes_of " " in
    (
      IsPlain-append (version ++ space ++ decimal status ++ space) message
          (IsPlain-append (version ++ space ++ decimal status) space
            (IsPlain-append (version ++ space) (decimal status)
              (IsPlain-append version space v refl) (IsPlain-decimal status))
            refl)
          m,
      simp append_assoc
          (is_empty-append version (space ++ (decimal status ++ (space ++ message))) refl),
    )

abbrev pub head_bytes : HttpResponse → List ℕ → List ℕ
head_bytes r message =
    status_line r.version r.status message
    ++ header_lines (sent r).headers
    ++ cookie_lines (dump_cookies r.cookies)
    ++ crlf

make_headers-some :
    (r : HttpResponse) (message : List ℕ)
    → http_status_to_http_status_msg r.status ≡ some message
    → make_headers r ≡ some (sent r, head_bytes r message)
unfolding make_headers
make_headers-some r message e = rw e

head_bytes-written :
    (r : HttpResponse) (message content : List ℕ)
    → head_bytes r message ++ content ≡ written (head_of r message) ++ (crlf ++ content)
head_bytes-written r message content =
    rw
      (
        header_lines-written (sent r).headers,
        cookie_lines-written r.cookies,
        written-append (map header_text (sent r).headers) (map cookie_text r.cookies),
      )
      (simp append_assoc)

head_of-IsLine :
    (r : HttpResponse) (message : List ℕ)
    → IsPlainResponse r
    → IsPlain message
    → Every IsLine (head_of r message)
head_of-IsLine r message h m = (
  IsLine-status_text r.version message r.status h.version m,
  Every-append IsLine (map header_text (sent r).headers) (map cookie_text r.cookies)
      (IsLine-headers (sent r).headers (
        Every-assign IsPlainHeader (bytes_of "Connection")
          (connection_status_to_connection_str r.connection_status) r.headers
          (refl, IsPlain-connection r.connection_status) h.headers))
      (IsLine-cookies r.cookies h.cookies),
)

-- If the status is a known one and no text of the response has a carriage return in it, then
-- MakeHeaders ends, and a client that cuts what is sent at CR LF up to the first empty line gets the
-- status line, one line for each header, Connection included, in the order of their names, and one
-- for each cookie, and it finds the body where it begins, whatever the body is.
pub make_headers-read_head :
    (r : HttpResponse) (message content : List ℕ)
    → http_status_to_http_status_msg r.status ≡ some message
    → IsPlainResponse r
    → (bytes : List ℕ) × (make_headers r ≡ some (sent r, bytes))
      × (read_head (suc (length (head_of r message))) (bytes ++ content)
          ≡ some (head_of r message, content))
make_headers-read_head r message content e h = (
  head_bytes r message,
  make_headers-some r message e,
  ap (read_head (suc (length (head_of r message)))) (head_bytes-written r message content)
      ∙ read_head-written (head_of r message) content
          (head_of-IsLine r message h (IsPlain-message r.status message e)),
)
