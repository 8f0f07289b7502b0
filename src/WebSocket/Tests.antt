-- ===== src/WebSocket/Tests.antt =====
-- Runs of a session, and the theorems at concrete steps.
use libcold.Base.{ℕ, ◌≡◌, refl, List, [], ◌∷◌, ◌++◌, true, false, none, some, arith, bytes_of, inl}
use libcold.WebSocketParser.{make_frame, length_bytes}
use libcold.WebSocketParser.RoundTrip.{Frame, IsSendable, stored}
use libcold.WebSocketParser.Fragments.{all_bytes, waiting}
use libcold.Http.Request.{RawHttpRequest, new_raw_request, get_value}
use libcold.Http.Response.Lines.{read_head}
use libcold.Http.Url.{url_decode}
use libcold.WebSocket.{
  WebSocket, new_web_socket, send, run_frame, write_loop, ping, write_done, read_done,
}
use libcold.WebSocket.Steps.{Step, call_send, run_pending, ping_timer, wrote, step, run}
use libcold.WebSocket.Writes.{IsOrdered}
use libcold.WebSocket.Order.{run-IsOrdered}
use libcold.WebSocket.Reads.{read_done-first}
use libcold.WebSocket.Handshake.{
  WebSocketServer, insert_socket, on_received_upgrade_request, handshake_lines,
  on_received_upgrade_request_lines,
}

-- A ping comes while a message is written.
abbrev busy_steps : List Step
busy_steps =
    call_send (bytes_of "hi") false
    ∷ call_send (bytes_of "ho") false
    ∷ run_pending
    ∷ ping_timer 7
    ∷ run_pending
    ∷ wrote none
    ∷ []

abbrev hi_frame : List ℕ
hi_frame = 129 ∷ 2 ∷ b'h' ∷ b'i' ∷ []

abbrev ping_and_ho : List ℕ
ping_and_ho = 137 ∷ 0 ∷ 129 ∷ 2 ∷ b'h' ∷ b'o' ∷ []

abbrev busy_session : WebSocket
busy_session = record new_web_socket {
  is_writing = true;
  last_ping_time = 7;
  write_buffer = ping_and_ho;
  sent = hi_frame;
}

busy_run : run 10000 busy_steps new_web_socket [] ≡ some (busy_session, hi_frame ++ ping_and_ho)
unfolding run step send run_frame write_loop ping write_done make_frame length_bytes
busy_run = refl

run-IsOrdered_example : IsOrdered (hi_frame ++ ping_and_ho) busy_session
run-IsOrdered_example =
    run-IsOrdered 10000 busy_steps new_web_socket busy_session [] (hi_frame ++ ping_and_ho)
      (record { rest = []; split = refl; open_rest = λ _. refl; idle = λ _ _. (refl, refl) })
      busy_run

abbrev text_frame : Frame
text_frame = record {
  fin = true;
  opcode = 1;
  mask = true;
  key = 1 ∷ 2 ∷ 3 ∷ 4 ∷ [];
  payload = bytes_of "hello";
}

abbrev peer_ping : Frame
peer_ping = record text_frame { opcode = 9; payload = [] }

text_frame-IsSendable : IsSendable text_frame
text_frame-IsSendable = record {
  known = refl;
  nibble = omega arith;
  keyed = refl;
  key_bytes = ground arith;
  bytes = ground arith;
  small = omega arith;
}

peer_ping-IsSendable : IsSendable peer_ping
peer_ping-IsSendable = record {
  known = refl;
  nibble = omega arith;
  keyed = refl;
  key_bytes = ground arith;
  bytes = tt;
  small = omega arith;
}

abbrev reader : WebSocket
reader = record new_web_socket { is_reading = true; last_ping_time = 500 }

-- Two messages of one read: the first is given to the program, the ping waits.
read_done-first_example :
    (w' : WebSocket) × (read_done 10000 900 (some (all_bytes (text_frame ∷ peer_ping ∷ []))) reader
      ≡ some w')
    × (w'.received ≡ bytes_of "hello" ∷ [])
    × (w'.pending ≡ [])
    × (w'.parser ≡ waiting (stored peer_ping ∷ [], []))
    × (w'.is_connected ≡ true)
    × (w'.is_reading ≡ true)
read_done-first_example =
    read_done-first 10000 900 ([], []) (text_frame ∷ peer_ping ∷ []) (stored text_frame)
      (stored peer_ping ∷ []) [] reader refl refl (inl refl)
      (text_frame-IsSendable, (peer_ping-IsSendable, tt)) refl refl

abbrev no_sessions : WebSocketServer
no_sessions = record { web_sockets = []; connects = []; closes = [] }

abbrev upgrade_request : RawHttpRequest
upgrade_request = record new_raw_request {
  url = bytes_of "/chat";
  headers =
      (bytes_of "Connection", bytes_of "Upgrade")
      ∷ (bytes_of "Sec-WebSocket-Key", bytes_of "abc")
      ∷ (bytes_of "Upgrade", bytes_of "websocket")
      ∷ [];
}

abbrev hash : List ℕ → List ℕ
hash s = 1 ∷ 2 ∷ 3 ∷ []

on_received_upgrade_request_lines_example :
    (head : List ℕ) × (on_received_upgrade_request hash true 4 upgrade_request no_sessions
      ≡ some (
        head,
        record no_sessions {
          web_sockets = insert_socket 4 [];
          connects = (4, url_decode (bytes_of "/chat")) ∷ [];
        },
        some (url_decode (bytes_of "/chat")),
      ))
    × (read_head 5 (head ++ [])
        ≡ some (
          handshake_lines hash (get_value (bytes_of "Sec-WebSocket-Key") upgrade_request.headers),
          [],
        ))
on_received_upgrade_request_lines_example =
    on_received_upgrade_request_lines hash true 4 upgrade_request no_sessions []
