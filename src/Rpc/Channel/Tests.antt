-- ===== src/Rpc/Channel/Tests.antt =====
-- Streams and calls on sample messages.
use libcold.Base.{
  ℕ, ◌≡◌, refl, List, [], ◌∷◌, ◌++◌, Bool, true, false, some, arith, bytes_of, get_or, length,
  take-append, drop-append, take, drop, be_bytes,
}
use libcold.Base.StdMap.{find}
use libcold.Rpc.Codec.{empty_codec}
use libcold.Rpc.Codec.RoundTrip.{frame}
use libcold.Rpc.Channel.{
  RpcMessage, empty_message, Method, Service, Client, do_rpc, do_server_rpc, calls, call_method,
  ErrorCode, no_error, no_service, no_method, bad_request, timeout, internal_server_error,
}
use libcold.Rpc.Channel.Stream.{Delivers, do_rpc-Delivers}
use libcold.Rpc.Channel.Calls.{call_round_trip}

abbrev first : List ℕ
first = 1 ∷ 2 ∷ []

abbrev second : List ℕ
second = 3 ∷ []

abbrev wire : List ℕ
wire = frame first ++ frame second

do_rpc-Delivers_example :
    Delivers (first ∷ second ∷ []) (do_rpc empty_codec (take 5 wire ∷ drop 5 wire ∷ []))
unfolding be_bytes
do_rpc-Delivers_example =
    do_rpc-Delivers empty_codec (take 5 wire ∷ drop 5 wire ∷ []) (first ∷ second ∷ []) (omega arith)
      refl

abbrev error_code : ErrorCode → ℕ
error_code no_error = 0
error_code no_service = 1
error_code no_method = 2
error_code bad_request = 3
error_code timeout = 4
error_code internal_server_error = 5

abbrev code_error : ℕ → ErrorCode
code_error n =
    get_or (no_error ∷ no_service ∷ no_method ∷ bad_request ∷ timeout ∷ internal_server_error ∷ [])
      n no_error

code_error-error_code : (e : ErrorCode) → code_error (error_code e) ≡ e
code_error-error_code no_error = refl
code_error-error_code no_service = refl
code_error-error_code no_method = refl
code_error-error_code bad_request = refl
code_error-error_code timeout = refl
code_error-error_code internal_server_error = refl

-- A wire form: id, error, the lengths of the two names, then the three texts.
abbrev serialize : RpcMessage → List ℕ
serialize m =
    m.id
    ∷ error_code m.error
    ∷ length m.service
    ∷ length m.method
    ∷ (m.service ++ (m.method ++ m.payload))

abbrev parse_record : List ℕ → RpcMessage × Bool
parse_record (i ∷ e ∷ s ∷ n ∷ rest) = (
  record {
    id = i;
    service = take s rest;
    method = take n (drop s rest);
    payload = drop n (drop s rest);
    error = code_error e;
  },
  true,
)
parse_record _ = (empty_message, false)

parse_record-serialize : (m : RpcMessage) → parse_record (serialize m) ≡ (m, true)
parse_record-serialize m = rw (
  take-append m.service (m.method ++ m.payload) (length m.service) refl,
  drop-append m.service (m.method ++ m.payload) (length m.service) refl,
  take-append m.method m.payload (length m.method) refl,
  drop-append m.method m.payload (length m.method) refl,
  code_error-error_code m.error,
)

abbrev reply_bytes : List ℕ
reply_bytes = serialize (record empty_message { id = 2; payload = 9 ∷ [] })

abbrev busy : Client
busy = record {
  last_id = 4;
  outstandings = record { call_id = 4; target = 40 } ∷ record { call_id = 2; target = 20 } ∷ [];
}

abbrev echo : Method
echo = record { parses = λ r. true; reply = λ r. some r }

abbrev echo_service : Service
echo_service = record { full_name = bytes_of "s"; methods = (bytes_of "m", echo) ∷ [] }

call_round_trip_example :
    do_server_rpc parse_record
      ((bytes_of "s", echo_service) ∷ [])
      (serialize (call_method busy (bytes_of "s") (bytes_of "m") (9 ∷ []) 50).1)
    ≡ calls echo (9 ∷ []) (call_method busy (bytes_of "s") (bytes_of "m") (9 ∷ []) 50).1.id
unfolding find
call_round_trip_example =
    (call_round_trip parse_record serialize parse_record-serialize busy
      ((bytes_of "s", echo_service) ∷ []) echo_service echo (bytes_of "s") (bytes_of "m") (9 ∷ [])
      (9 ∷ []) 50 (omega arith) refl refl refl refl).0
