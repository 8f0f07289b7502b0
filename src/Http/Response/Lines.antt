-- ===== src/Http/Response/Lines.antt =====
-- The lines of the head of a response, as a client cuts them at CR LF.
use libcold.Base.{
  ℕ, zero, suc, ◌+◌, ◌/◌, ◌%◌, ◌≡◌, refl, ap, ◌∙◌, List, [], ◌∷◌, ◌++◌, append_assoc, map, Bool,
  true, false, not, ◌||◌, ◌&&◌, ◌==◌, if◌then◌else◌, Option, none, some, arith, bytes_of, is_empty,
  length, Every,
}
use libcold.Base.StdMap.{StdMap}
use libcold.StringUtils.Split.{member}
use libcold.Http.Status.{http_status_to_http_status_msg, http_status_table, row_of}
use libcold.Http.Response.{
  decimal, decimal_loop, crlf, HttpCookie, header_lines, cookie_lines, dump_cookies, dump_cookie,
}

-- The bytes before the first CR LF, and those behind it.
abbrev pub add_byte : ℕ → Option (List ℕ × List ℕ) → Option (List ℕ × List ℕ)
add_byte c none = none
add_byte c (some (line, rest)) = some (c ∷ line, rest)

unfoldable pub take_line : List ℕ → Option (List ℕ × List ℕ)
take_line [] = none
take_line (c ∷ []) = none
take_line (c ∷ d ∷ s) = if c == 13 && d == 10 then some ([], s) else add_byte c (take_line (d ∷ s))

abbrev put_line : List ℕ → Option (List (List ℕ) × List ℕ) → Option (List (List ℕ) × List ℕ)
put_line line none = none
put_line line (some (lines, body)) = some (line ∷ lines, body)

-- The lines up to the first empty one, and what follows them.
abbrev pub add_line :
    (List ℕ → Option (List (List ℕ) × List ℕ))
    → Option (List ℕ × List ℕ)
    → Option (List (List ℕ) × List ℕ)
add_line next none = none
add_line next (some ([], rest)) = some ([], rest)
add_line next (some (c ∷ line, rest)) = put_line (c ∷ line) (next rest)

unfoldable pub read_head : ℕ → List ℕ → Option (List (List ℕ) × List ℕ)
read_head zero s = none
read_head (suc k) s = add_line (λ rest. read_head k rest) (take_line s)

abbrev pub IsPlain : List ℕ → Type 0
IsPlain s = member 13 s ≡ false

take_line-append :
    (line rest : List ℕ) → IsPlain line → take_line (line ++ (crlf ++ rest)) ≡ some (line, rest)
unfolding take_line
take_line-append [] rest h = refl
take_line-append (c ∷ []) rest h = ground arith
take_line-append (c ∷ d ∷ line) rest h = ground (arith, take_line-append (d ∷ line) rest)

-- Lines as they are written.
abbrev pub written : List (List ℕ) → List ℕ
written [] = []
written (l ∷ ls) = l ++ (crlf ++ written ls)

abbrev pub IsLine : List ℕ → Type 0
IsLine l = IsPlain l × (is_empty l ≡ false)

read_head-line :
    (k : ℕ) (l rest : List ℕ)
    → IsLine l
    → (lines : List (List ℕ)) (body : List ℕ) → read_head k rest ≡ some (lines, body)
    → read_head (suc k) (l ++ (crlf ++ rest)) ≡ some (l ∷ lines, body)
unfolding read_head
read_head-line k [] rest h lines body e = absurd (ground (arith, h.1))
read_head-line k (c ∷ l) rest h lines body e =
    ap (add_line (λ s. read_head k s)) (take_line-append (c ∷ l) rest h.0) ∙ ap (put_line (c ∷ l)) e

read_head-nil : (body : List ℕ) → read_head 1 (crlf ++ body) ≡ some ([], body)
unfolding read_head take_line
read_head-nil body = refl

pub read_head-written :
    (ls : List (List ℕ)) (body : List ℕ)
    → Every IsLine ls
    → read_head (suc (length ls)) (written ls ++ (crlf ++ body)) ≡ some (ls, body)
read_head-written [] body h = read_head-nil body
read_head-written (l ∷ ls) body (here, there) =
    ap (read_head (suc (suc (length ls)))) (append_assoc l (crlf ++ written ls) (crlf ++ body))
    ∙ (read_head-line (suc (length ls)) l (written ls ++ (crlf ++ body)) here ls body
        (read_head-written ls body there))

-- The lines of a response.
abbrev pub status_text : List ℕ → ℕ → List ℕ → List ℕ
status_text version status message =
    version ++ bytes_of " " ++ decimal status ++ bytes_of " " ++ message

abbrev pub header_text : List ℕ × List ℕ → List ℕ
header_text (key, value) = key ++ bytes_of ": " ++ value

abbrev pub cookie_text : HttpCookie → List ℕ
cookie_text c = bytes_of "Set-Cookie: " ++ dump_cookie c

pub header_lines-written : (m : StdMap (List ℕ)) → header_lines m ≡ written (map header_text m)
header_lines-written [] = refl
header_lines-written ((key, value) ∷ m) =
    simp append_assoc
      (ap (λ t. key ++ (bytes_of ": " ++ (value ++ (crlf ++ t)))) (header_lines-written m))

pub cookie_lines-written :
    (cs : List HttpCookie) → cookie_lines (dump_cookies cs) ≡ written (map cookie_text cs)
cookie_lines-written [] = refl
cookie_lines-written (c ∷ cs) =
    simp append_assoc (
      ap (λ t. bytes_of "Set-Cookie: " ++ (dump_cookie c ++ (crlf ++ t))) (cookie_lines-written cs))

pub written-append : (xs ys : List (List ℕ)) → written (xs ++ ys) ≡ written xs ++ written ys
written-append [] ys = refl
written-append (x ∷ xs) ys = simp append_assoc (ap (λ t. x ++ (crlf ++ t)) (written-append xs ys))

pub member-append : (d : ℕ) (s t : List ℕ) → member d (s ++ t) ≡ (member d s || member d t)
member-append d [] t = refl
member-append d (c ∷ s) t = ground (arith, member-append d s t)

IsPlain-decimal_loop : (k n : ℕ) (acc : List ℕ) → IsPlain acc → IsPlain (decimal_loop k n acc)
unfolding decimal_loop
IsPlain-decimal_loop zero n acc h = h
IsPlain-decimal_loop (suc k) n acc h =
    ground (arith, IsPlain-decimal_loop k (n / 10) ((48 + n % 10) ∷ acc))

pub IsPlain-decimal : (n : ℕ) → IsPlain (decimal n)
unfolding decimal
IsPlain-decimal n = IsPlain-decimal_loop (suc n) n [] refl

abbrev plain_rows : List (ℕ × List ℕ) → Bool
plain_rows [] = true
plain_rows ((code, message) ∷ rows) = not (member 13 message) && plain_rows rows

plain_table : plain_rows http_status_table ≡ true
unfolding http_status_table
plain_table = refl

IsPlain-row_of :
    (rows : List (ℕ × List ℕ)) (status : ℕ) (message : List ℕ)
    → plain_rows rows ≡ true
    → row_of status rows ≡ some message
    → IsPlain message
IsPlain-row_of [] status message h e = absurd (ground (arith, e))
IsPlain-row_of ((code, m) ∷ rows) status message h e =
    ground (arith, e, IsPlain-row_of rows status message)

pub IsPlain-message :
    (status : ℕ) (message : List ℕ)
    → http_status_to_http_status_msg status ≡ some message
    → IsPlain message
unfolding http_status_to_http_status_msg
IsPlain-message status message e = IsPlain-row_of http_status_table status message plain_table e
