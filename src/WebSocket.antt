-- ===== src/WebSocket.antt =====
-- cold/net/http/WebSocket.h and WebSocket.cpp: a session behind its handshake. Its coroutines run
-- between two suspensions without a break, so what each of them does up to the next one is a step,
-- and a list of steps is an interleaving. `pending` are the coroutines that CoSpawn has put in the
-- loop's queue and that have not begun; times are in milliseconds.
pub mod Steps
pub mod Writes
pub mod Order
pub mod Reads
pub mod Handshake
mod Tests
use libcold.Base.{
  ℕ, ◌+◌, ◌-◌, ◌*◌, ◌<◌, List, [], ◌∷◌, ◌++◌, Bool, true, false, Option, none, some, ltb, ◌==◌,
  ◌||◌, not, if◌then◌else◌, is_empty, take, guard, ◌>>=◌, ◌>>◌,
}
use libcold.WebSocketParser.{
  WebSocketFrame, WebSocketParser, new_parser, ParseState, success, error, need_more, aborts, parse,
  make_frame,
}

-- A coroutine that appends a frame and writes; that of Close closes the socket behind the write.
pub record FrameTask : Type 0 where
  pub opcode : ℕ
  pub payload : List ℕ
  pub closes : Bool

-- The last fields are what the outside has seen: the messages given to onRecv_, how often onClose_
-- was called, and the bytes that the socket took.
pub record WebSocket : Type 0 where
  pub is_connected : Bool
  pub parser : WebSocketParser
  pub is_reading : Bool
  pub last_ping_time : ℕ
  pub is_writing : Bool
  pub closes_after : Bool
  pub write_temp_buffer : List ℕ
  pub write_buffer : List ℕ
  pub pending : List FrameTask
  pub received : List (List ℕ)
  pub closed : ℕ
  pub sent : List ℕ

abbrev pub new_web_socket : WebSocket
new_web_socket = record {
  is_connected = true;
  parser = new_parser;
  is_reading = false;
  last_ping_time = 0;
  is_writing = false;
  closes_after = false;
  write_temp_buffer = [];
  write_buffer = [];
  pending = [];
  received = [];
  closed = 0;
  sent = [];
}

-- OnError.
abbrev pub on_error : WebSocket → WebSocket
on_error w = record w { closed = w.closed + 1; is_connected = false }

-- The end of DoWrite, and the call of Close that may follow it.
abbrev pub stop_writing : WebSocket → WebSocket
stop_writing w = record w {
  is_writing = false;
  closes_after = false;
  is_connected = if w.closes_after then false else w.is_connected;
}

-- The head of the loop of DoWrite up to WriteN.
abbrev pub swap_buffers : WebSocket → WebSocket
swap_buffers w = record w { write_buffer = w.write_temp_buffer; write_temp_buffer = w.write_buffer }

abbrev pub write_if_any : Bool → WebSocket → WebSocket
write_if_any true w = stop_writing w
write_if_any false w = w

abbrev pub write_if_connected : Bool → WebSocket → WebSocket
write_if_connected true w = write_if_any (is_empty w.write_temp_buffer) (swap_buffers w)
write_if_connected false w = stop_writing w

unfoldable pub write_loop : WebSocket → WebSocket
write_loop w = write_if_connected w.is_connected w

abbrev pub frame_of : FrameTask → List ℕ
frame_of t = make_frame t.opcode false [] t.payload

abbrev pub start_if_idle : Bool → Bool → WebSocket → WebSocket
start_if_idle true closes w = w
start_if_idle false closes w = write_loop (record w { is_writing = true; closes_after = closes })

-- The body of the coroutines of Send, SendPong, Close and of the ping.
unfoldable pub run_frame : FrameTask → WebSocket → WebSocket
run_frame t w =
    start_if_idle w.is_writing t.closes
      (record w { write_temp_buffer = w.write_temp_buffer ++ frame_of t })

abbrev pub spawn : FrameTask → WebSocket → WebSocket
spawn t w = record w { pending = w.pending ++ t ∷ [] }

abbrev pub run_first : List FrameTask → WebSocket → Option WebSocket
run_first [] w = none
run_first (t ∷ ts) w = some (run_frame t (record w { pending = ts }))

unfoldable pub send : List ℕ → Bool → WebSocket → WebSocket
send payload binary w =
    let t : FrameTask = record {
      opcode = if binary then 2 else 1;
      payload = payload;
      closes = false;
    } in
    if w.is_connected then spawn t w else w

abbrev pub pong_frame : FrameTask
pong_frame = record { opcode = 10; payload = []; closes = false }

abbrev pub ping_frame : FrameTask
ping_frame = record { opcode = 9; payload = []; closes = false }

abbrev pub close_frame : FrameTask
close_frame = record { opcode = 8; payload = []; closes = true }

unfoldable pub send_pong : WebSocket → WebSocket
send_pong w = if w.is_connected then spawn pong_frame w else w

unfoldable pub close : WebSocket → WebSocket
close w = spawn close_frame (record w { closed = w.closed + 1 })

-- The task of the timer of SendPing.
unfoldable pub ping : ℕ → WebSocket → WebSocket
unfolding run_frame
ping now w = run_frame ping_frame (record w { last_ping_time = now })

-- WriteN has come back: it wrote all, or failed after some bytes.
abbrev pub after_write : Option ℕ → WebSocket → WebSocket
after_write none w = write_loop (record w { sent = w.sent ++ w.write_buffer; write_buffer = [] })
after_write (some n) w =
    stop_writing (on_error (record w { sent = w.sent ++ take n w.write_buffer }))

unfoldable pub write_done : Option ℕ → WebSocket → Option WebSocket
write_done result w = do guard w.is_writing; some (after_write result w)

-- The switch on the opcode in DoRead.
unfoldable pub on_frame : WebSocketFrame → WebSocket → WebSocket
unfolding send_pong
on_frame f w =
    if f.opcode == 1 || f.opcode == 2
    then record w { received = w.received ++ f.payload ∷ [] }
    else if f.opcode == 8
    then record w { closed = w.closed + 1; is_connected = false }
    else if f.opcode == 9
    then send_pong w
    else if f.opcode == 10
    then w
    else on_error w

module _ (timeout : ℕ) where
  -- The head of the loop of DoRead up to Read.
  unfoldable pub read_loop : ℕ → WebSocket → WebSocket
  read_loop now w =
      if not w.is_connected
      then record w { is_reading = false }
      else if ltb timeout (now - w.last_ping_time)
      then record (on_error w) { is_reading = false }
      else record w { is_reading = true }

  -- DoRead up to its first suspension; SendPing only sets its timer.
  unfoldable pub do_read : ℕ → WebSocket → WebSocket
  unfolding read_loop
  do_read now w = read_loop now (record w { parser = new_parser; last_ping_time = now })

  -- TakeFrame, with the assertion on FIN.
  abbrev pub take_and_go : ℕ → List WebSocketFrame → WebSocket → Option WebSocket
  take_and_go now [] w = some (read_loop now w)
  take_and_go now (f ∷ fs) w = do
    guard f.fin
    some (
        read_loop now (on_frame f (record w { parser = record w.parser { complete_frames = fs } })))

  abbrev pub parsed : ℕ → WebSocketParser × ParseState → WebSocket → Option WebSocket
  parsed now (p, success) w = take_and_go now p.complete_frames (record w { parser = p })
  parsed now (p, need_more) w = take_and_go now p.complete_frames (record w { parser = p })
  parsed now (p, error) w = some (record (on_error w) { parser = p; is_reading = false })
  parsed now (p, aborts) w = none

  abbrev pub after_read : ℕ → Option (List ℕ) → WebSocket → Option WebSocket
  after_read now none w = some (record w { is_connected = false; is_reading = false })
  after_read now (some bytes) w = parsed now (parse w.parser bytes) w

  -- Read has come back, with bytes or with none.
  unfoldable pub read_done : ℕ → Option (List ℕ) → WebSocket → Option WebSocket
  unfolding on_frame read_loop
  read_done now result w = do guard w.is_reading; after_read now result w
