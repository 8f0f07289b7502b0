-- ===== src/Rpc/Channel.antt =====
-- cold/net/rpc/RpcChannel.cpp and RpcServer.cpp: the read loop, and the two ends of a call.
-- protobuf is a parameter: the wire form of RpcMessage, and the parsers of requests and responses.
-- A service is its methods by name. Sockets are the bytes that they deliver and the messages that
-- are handed to them.
mod Stream
mod Calls
mod Tests
use libcold.Base.{
  ℕ, ◌+◌, List, [], ◌∷◌, ◌++◌, Bool, true, false, Option, none, some, ◌==◌, if◌then◌else◌,
}
use libcold.Base.StdMap.{StdMap, find, assign}
use libcold.Rpc.Codec.{RpcCodec, View, parse_message, take_message, view_bytes}

-- rpc.proto
pub data ErrorCode : Type 0 where
  no_error no_service no_method bad_request timeout internal_server_error : ErrorCode

pub record RpcMessage : Type 0 where
  pub id : ℕ
  pub service : List ℕ
  pub method : List ℕ
  pub payload : List ℕ
  pub error : ErrorCode

abbrev pub empty_message : RpcMessage
empty_message = record { id = 0; service = []; method = []; payload = []; error = no_error }

unfoldable pub take_found : RpcCodec → Option View → RpcCodec × Option (List ℕ)
take_found c none = (c, none)
take_found c (some v) = (take_message c v, some (view_bytes v c.read_buf))

-- What one read of the loop does: at most one message is taken from the buffer.
unfoldable pub rpc_read : RpcCodec → List ℕ → RpcCodec × Option (List ℕ)
unfolding take_found
rpc_read c buf = let (c', found) = parse_message c buf in take_found c' found

abbrev keep : Option (List ℕ) → List (List ℕ) → List (List ℕ)
keep none ms = ms
keep (some m) ms = m ∷ ms

-- DoRpc over the reads that succeed: the codec that is left and the messages dispatched, in order.
unfoldable pub do_rpc : RpcCodec → List (List ℕ) → RpcCodec × List (List ℕ)
do_rpc c [] = (c, [])
do_rpc c (r ∷ rs) = let (c', m) = rpc_read c r in let (c'', ms) = do_rpc c' rs in (c'', keep m ms)

-- A method: whether its request parses, and the bytes of its response (none if it does not
-- serialise).
pub record Method : Type 0 where
  pub parses : List ℕ → Bool
  pub reply : List ℕ → Option (List ℕ)

pub record Service : Type 0 where
  pub full_name : List ℕ
  pub methods : StdMap Method

-- RpcServer::AddService
unfoldable pub add_service : StdMap Service → Service → StdMap Service
add_service services s = assign s.full_name s services

-- What DoServerRpc does with a message: an error is sent, or the method runs with a callback that
-- sends the response under the request's id.
pub data ServerAction : Type 0 where
  sends_error : RpcMessage → ServerAction
  calls : Method → List ℕ → ℕ → ServerAction

abbrev error_reply : ErrorCode → ℕ → ServerAction
error_reply e id = sends_error (record empty_message { id = id; error = e })

-- The parsed message, with whether it parsed.
unfoldable pub serve : StdMap Service → RpcMessage × Bool → ServerAction
serve services (m, false) = error_reply bad_request m.id
serve services (m, true) = elim (find m.service services) [
  | none ↦ error_reply no_service m.id
  | some s ↦ elim (find m.method s.methods) [
    | none ↦ error_reply no_method m.id
    | some f ↦ if f.parses m.payload then calls f m.payload m.id else error_reply bad_request m.id
  ]
]

unfoldable pub do_server_rpc : (List ℕ → RpcMessage × Bool) → StdMap Service → List ℕ → ServerAction
unfolding serve
do_server_rpc parse services message_str = serve services (parse message_str)

-- SendResponse, the server's callback: nothing is sent on a closed connection.
unfoldable pub send_response : Bool → Option (List ℕ) → ℕ → Option RpcMessage
send_response false response id = none
send_response true none id = some (record empty_message { id = id; error = internal_server_error })
send_response true (some data') id = some (record empty_message { id = id; payload = data' })

-- Calls that wait for a response; the number stands for the response object and the closure.
pub record OutstandingCall : Type 0 where
  pub call_id : ℕ
  pub target : ℕ

pub record Client : Type 0 where
  pub last_id : ℕ
  pub outstandings : List OutstandingCall

unfoldable pub find_call : ℕ → List OutstandingCall → Option ℕ
find_call i [] = none
find_call i (c ∷ cs) = if c.call_id == i then some c.target else find_call i cs

unfoldable pub erase_call : ℕ → List OutstandingCall → List OutstandingCall
erase_call i [] = []
erase_call i (c ∷ cs) = if c.call_id == i then cs else c ∷ erase_call i cs

-- emplace keeps an entry that is there.
unfoldable pub emplace : Option ℕ → OutstandingCall → List OutstandingCall → List OutstandingCall
emplace none call cs = call ∷ cs
emplace (some _) call cs = cs

-- CallMethod: the next id, the message to send, and the call noted under the id.
unfoldable pub call_method : Client → List ℕ → List ℕ → List ℕ → ℕ → Client × RpcMessage
call_method c service method request target =
    let i = c.last_id + 1 in
    (
      record {
        last_id = i;
        outstandings =
            emplace (find_call i c.outstandings) (record { call_id = i; target = target })
              c.outstandings;
      },
      record { id = i; service = service; method = method; payload = request; error = no_error },
    )

-- A message that does not parse changes nothing. One with an error completes its call all the same.
unfoldable pub complete : Client → RpcMessage × Bool → Client × Option (ℕ × List ℕ)
complete c (m, false) = (c, none)
complete c (m, true) = elim (find_call m.id c.outstandings) [
  | none ↦ (c, none)
  | some t ↦ (record c { outstandings = erase_call m.id c.outstandings }, some (t, m.payload))
]

-- DoClientRpc: the call that is completed, with the payload that its response object parses.
unfoldable pub do_client_rpc :
    (List ℕ → RpcMessage × Bool) → Client → List ℕ → Client × Option (ℕ × List ℕ)
unfolding complete
do_client_rpc parse c message_str = complete c (parse message_str)
