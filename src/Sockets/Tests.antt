-- ===== src/Sockets/Tests.antt =====
-- A system whose calls follow a script, and the theorems at concrete streams.
use libcold.Base.{
  ℕ, ◌≡◌, refl, List, [], ◌∷◌, ◌++◌, Bool, true, false, some, none, ◌==◌, if◌then◌else◌, take, drop,
  length, arith, length-take,
}
use libcold.Sockets.{
  Call, returned, failed, System, Turn, Takes, Gives, await_recv_from, await_accept, await_send_to,
  await_send_file, async_read, async_write,
}
use libcold.Sockets.Connect.{await_connect}
use libcold.Sockets.Stream.{Filling, write_n, read_n}
use libcold.Sockets.Written.{IsWritten, write_n-IsWritten}
use libcold.Sockets.Filled.{IsResult, read_n-IsResult}
use libcold.Sockets.Owner.{BasicSocket, accepted, move_assign, destroy}
use libcold.Sockets.Assign.{move_assign-keeps, destroy-accepted}
use libcold.IoWatcher.{IoWatcher, IoEvent, new_event, no_events, put_event}
use libcold.IoWatcher.Linux.{Interest, put_mask, linux}
use libcold.IoWatcher.Mirror.{EntryValid}
use Prim.Native.Nat.{min, max}

-- The answers to come, what the stream took, what it has still to give and what it gave.
record Scripted : Type 0 where
  script : List (Call ℕ)
  taken : List ℕ
  source : List ℕ
  gone : List ℕ

abbrev scripted_answer : List (Call ℕ) → Call ℕ
scripted_answer [] = failed 11
scripted_answer (c ∷ script) = c

abbrev take_in : List ℕ → Call ℕ → Scripted → Call ℕ × Scripted
take_in buf (failed e) w = (failed e, w)
take_in buf (returned k) w =
    let fits = max (min 1 (length buf)) (min k (length buf)) in
    (returned fits, record w { taken = w.taken ++ take fits buf })

abbrev give_out : ℕ → Call ℕ → Scripted → Call (List ℕ) × Scripted
give_out count (failed e) w = (failed e, w)
give_out count (returned k) w =
    let bytes = take (min k count) w.source in
    (returned bytes, record w { source = drop (min k count) w.source; gone = w.gone ++ bytes })

abbrev next : Scripted → Scripted
next w = record w { script = drop 1 w.script }

take_in-Takes :
    (buf : List ℕ) (c : Call ℕ) (w : Scripted)
    → Takes buf w.taken (take_in buf c w).0 (take_in buf c w).1.taken
take_in-Takes buf (returned k) w = (omega arith, omega arith, refl)
take_in-Takes buf (failed e) w = refl

give_out-Gives :
    (count : ℕ) (c : Call ℕ) (w : Scripted)
    → Gives count w.gone (give_out count c w).0 (give_out count c w).1.gone
give_out-Gives count (returned k) w = (omega (arith, length-take (min k count) w.source), refl)
give_out-Gives count (failed e) w = refl

abbrev with_value : {A B : Type 0} → B → Call A × Scripted → Call B × Scripted
with_value b (returned a, w) = (returned b, w)
with_value b (failed e, w) = (failed e, w)

abbrev scripted : System
scripted = record {
  World = Scripted;
  Address = ℕ;
  sent = λ w fd. w.taken;
  given = λ w fd. w.gone;
  read = λ fd count w. give_out count (scripted_answer w.script) (next w);
  write = λ fd buf w. take_in buf (scripted_answer w.script) (next w);
  accept = λ fd w. with_value (9, 77) (scripted_answer w.script, next w);
  sendto = λ fd buf flags dest w. (scripted_answer w.script, next w);
  recvfrom = λ fd len flags w. with_value (1 ∷ 2 ∷ [], 77) (scripted_answer w.script, next w);
  connect = λ fd address w. with_value tt (scripted_answer w.script, next w);
  so_error = λ fd w. (scripted_answer w.script, next w);
  local_of = λ fd w. 5;
  sendfile = λ out_fd in_fd count w. (scripted_answer w.script, next w);
  write_lem = λ fd buf w. take_in-Takes buf (scripted_answer w.script) (next w);
  read_lem = λ fd count w. give_out-Gives count (scripted_answer w.script) (next w);
}

abbrev open_turn : Turn
open_turn = record { connected = true; connected_after = true; timed_out = false }

abbrev late_turn : Turn
late_turn = record { connected = true; connected_after = true; timed_out = true }

abbrev stream : List (Call ℕ) → Scripted
stream script = record { script = script; taken = []; source = 1 ∷ 2 ∷ 3 ∷ []; gone = [] }

abbrev result_of : {A : Type 0} → Call A × Scripted → Call A
result_of r = r.0

-- The second of three writes has to wait.
write_n-IsWritten_example :
    (r : Call ℕ × Scripted) × (write_n scripted
        (open_turn ∷ open_turn ∷ open_turn ∷ [])
        4
        (7 ∷ 8 ∷ 9 ∷ [])
        (stream (returned 1 ∷ failed 11 ∷ returned 5 ∷ []))
      ≡ some r)
    × IsWritten (7 ∷ 8 ∷ 9 ∷ []) [] r.0 r.1.taken
write_n-IsWritten_example =
    write_n-IsWritten scripted 4 (7 ∷ 8 ∷ 9 ∷ []) (open_turn ∷ open_turn ∷ open_turn ∷ [])
      (stream (returned 1 ∷ failed 11 ∷ returned 5 ∷ [])) (omega arith)

read_n-IsResult_example :
    (f : Filling Scripted) × (read_n scripted
        (open_turn ∷ open_turn ∷ [])
        4
        2
        (stream (returned 1 ∷ failed 11 ∷ returned 1 ∷ []))
      ≡ some f)
    × IsResult 2 f.result (length f.buffer)
    × (f.world.gone ≡ f.buffer)
read_n-IsResult_example =
    read_n-IsResult scripted 4 2 (open_turn ∷ open_turn ∷ [])
      (stream (returned 1 ∷ failed 11 ∷ returned 1 ∷ [])) (omega arith)

-- A datagram that came with the first call is lost for a coroutine that is then timed out.
recv_from_lost :
    result_of (await_recv_from scripted late_turn 4 100 0 (stream (returned 2 ∷ []))) ≡ failed 110
unfolding await_recv_from
recv_from_lost = refl

-- A connection that is refused at once: errno is -1.
connect_refused :
    (await_connect scripted false 4 77
      (record { connected = false; local_address = 0; remote_address = 0 })
      (stream (failed 111 ∷ []))).0
    ≡ failed 4294967295
unfolding await_connect
connect_refused = refl

-- One that is refused later has the errno of SO_ERROR, and one that is made is connected.
connect_refused_later :
    (await_connect scripted false 4 77
      (record { connected = false; local_address = 0; remote_address = 0 })
      (stream (failed 115 ∷ returned 111 ∷ []))).0
    ≡ failed 111
unfolding await_connect
connect_refused_later = refl

connect_made :
    (await_connect scripted false 4 77
      (record { connected = false; local_address = 0; remote_address = 0 })
      (stream (failed 115 ∷ returned 0 ∷ []))).1.0
    ≡ record { connected = true; local_address = 5; remote_address = 77 }
unfolding await_connect
connect_made = refl

accept_waits :
    result_of (await_accept scripted open_turn 4 (stream (failed 24 ∷ returned 0 ∷ [])))
    ≡ returned (9, 77)
unfolding await_accept
accept_waits = refl

send_to_late :
    result_of (await_send_to scripted late_turn 4 [] 77 0 (stream (failed 11 ∷ []))) ≡ failed 110
unfolding await_send_to
send_to_late = refl

send_file_waits :
    result_of (await_send_file scripted open_turn 4 5 9 (stream (failed 11 ∷ returned 9 ∷ [])))
    ≡ returned 9
unfolding await_send_file
send_file_waits = refl

async_read_once :
    result_of (async_read scripted open_turn 4 2 (stream (failed 11 ∷ []))) ≡ failed 11
unfolding async_read
async_read_once = refl

async_write_late : result_of (async_write scripted late_turn 4 [] (stream [])) ≡ failed 110
unfolding async_write
async_write_late = refl

abbrev close_in_set : ℕ → Interest → Interest
close_in_set fd k = put_mask fd none k

abbrev listening : IoEvent
listening = record new_event { events = record no_events { epollin = true; epollet = true } }

-- An event loop that listens to 4 and 5, and one that listens to nothing.
abbrev two_sockets : IoWatcher Interest
two_sockets = record {
  epoll = put_mask 4 (some listening.events) (put_mask 5 (some listening.events) (λ _. none));
  wake_up_fd = 3;
  io_events = put_event 4 (some listening) (put_event 5 (some listening) (λ _. none));
  active_coroutines = [];
  room = 16;
}

abbrev no_sockets : IoWatcher Interest
no_sockets = record {
  epoll = λ _. none;
  wake_up_fd = 3;
  io_events = λ _. none;
  active_coroutines = [];
  room = 16;
}

abbrev socket_of : ℕ → BasicSocket ℕ
socket_of fd = record {
  has_service = true;
  fd = some fd;
  local_address = 0;
  remote_address = 1;
  connected = true;
}

entry_if :
    (b c : Bool)
    → EntryValid
        (if b then some listening.events else if c then some listening.events else none)
        (if b then some listening else if c then some listening else none)
entry_if true c = (refl, tt, refl)
entry_if false true = (refl, tt, refl)
entry_if false false = refl

move_assign-keeps_example :
    (s : BasicSocket ℕ) × (w1 : IoWatcher Interest) × (accepted linux 0 2
        (some 4)
        (move_assign linux close_in_set false (socket_of 4) (socket_of 5) two_sockets).watcher
      ≡ some (s, w1))
    × (w1.io_events 4 ≡ some (record listening { read_handle = none }))
    × (w1.epoll 4 ≡ none)
move_assign-keeps_example =
    move_assign-keeps linux close_in_set (λ fd j k. refl) (socket_of 4) (socket_of 5) 0 2
      two_sockets 4 5 listening refl refl (omega arith) (λ fd. entry_if (fd == 4) (fd == 5)) refl
      refl

destroy-accepted_example :
    (s : BasicSocket ℕ) × (w1 : IoWatcher Interest) × (accepted linux 0 2 (some 4) no_sockets
      ≡ some (s, w1))
    × ((j : ℕ) → (destroy linux close_in_set s w1).io_events j ≡ none)
    × ((j : ℕ) → (destroy linux close_in_set s w1).epoll j ≡ none)
destroy-accepted_example =
    destroy-accepted linux close_in_set (λ fd j k. refl) 0 2 no_sockets 4 (λ fd. refl) refl
