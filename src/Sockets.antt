-- ===== src/Sockets.antt =====
-- cold/net/IoAwaitable.h, the calls of BasicSocket.h and UdpSocket.h, and those of cold/coro/Io.h: a
-- coroutine that awaits a call of the system makes it once at once and, where it would block, a second
-- time when it is resumed. The calls of the system are an interface. ssl_ is null, as it is without
-- COLD_NET_ENABLE_SSL. A failed call stands for -1 with errno.
pub mod Owner
pub mod Assign
pub mod Await
pub mod Connect
pub mod Stream
pub mod Written
pub mod Filled
mod Tests
use libcold.Base.{
  ℕ, ◌-◌, ◌^◌, ◌≡◌, ◌≤◌, List, [], ◌++◌, Bool, true, false, not, ◌&&◌, ◌||◌, if◌then◌else◌, ◌==◌,
  take, length,
}
use Prim.Native.Nat.{min}

-- errno of Linux.
abbrev pub eagain : ℕ
eagain = 11

abbrev pub enotconn : ℕ
enotconn = 107

abbrev pub etimedout : ℕ
etimedout = 110

abbrev pub einprogress : ℕ
einprogress = 115

-- What a call gives: a value that is not negative, or -1 with errno.
pub data Call (A : Type 0) : Type 0 where
  returned : A → Call A
  failed : ℕ → Call A

-- What write(2) has done to the bytes that a stream took so far: some of the buffer, at least one byte
-- of one that is not empty, or none with an error.
abbrev pub Takes : List ℕ → List ℕ → Call ℕ → List ℕ → Type 0
Takes buf sent (returned k) sent' =
    (k ≤ length buf) × (min 1 (length buf) ≤ k) × (sent' ≡ sent ++ take k buf)
Takes buf sent (failed e) sent' = sent' ≡ sent

-- What read(2) has done to the bytes that a stream gave so far.
abbrev pub Gives : ℕ → List ℕ → Call (List ℕ) → List ℕ → Type 0
Gives count given (returned bytes) given' = (length bytes ≤ count) × (given' ≡ given ++ bytes)
Gives count given (failed e) given' = given' ≡ given

-- The system: its calls on a descriptor, and the bytes that a stream took and gave. An Address is
-- what GetSockaddr points to.
pub record System : Type 1 where
  pub World : Type 0
  pub Address : Type 0
  pub sent : World → ℕ → List ℕ
  pub given : World → ℕ → List ℕ
  pub read : ℕ → ℕ → World → Call (List ℕ) × World
  pub write : ℕ → List ℕ → World → Call ℕ × World
  pub accept : ℕ → World → Call (ℕ × Address) × World
  pub sendto : ℕ → List ℕ → ℕ → Address → World → Call ℕ × World
  pub recvfrom : ℕ → ℕ → ℕ → World → Call (List ℕ × Address) × World
  pub connect : ℕ → Address → World → Call (Unit {0}) × World
  pub so_error : ℕ → World → Call ℕ × World
  pub local_of : ℕ → World → Address
  pub sendfile : ℕ → ℕ → ℕ → World → Call ℕ × World
  pub write_lem :
      (fd : ℕ) (buf : List ℕ) (w : World)
      → Takes buf (sent w fd) (write fd buf w).0 (sent (write fd buf w).1 fd)
  pub read_lem :
      (fd count : ℕ) (w : World)
      → Gives count (given w fd) (read fd count w).0 (given (read fd count w).1 fd)

-- connected_ when the coroutine awaits and, where it is suspended, when it is resumed; timed_out
-- where IoTimeoutAwaitable resumes it.
pub record Turn : Type 0 where
  pub connected : Bool
  pub connected_after : Bool
  pub timed_out : Bool

-- What await_ready leaves: its answer, ready_ and retValue_.
pub record Awaiting (A W : Type 0) : Type 0 where
  pub at_once : Bool
  pub ready : Bool
  pub ret_value : Call A
  pub world : W

abbrev pub is_returned : {A : Type 0} → Call A → Bool
is_returned (returned a) = true
is_returned (failed e) = false

-- retValue_ >= 0 || errno != EAGAIN, and with another errno.
abbrev pub is_ready : {A : Type 0} → ℕ → Call A → Bool
is_ready blocks (returned a) = true
is_ready blocks (failed e) = not (e == blocks)

abbrev pub timed_out_of : Bool → Turn → Bool
timed_out_of at_once t = not at_once && t.timed_out

abbrev pub connected_of : Bool → Turn → Bool
connected_of at_once t = if at_once then t.connected else t.connected_after

module _ {A W : Type 0} where
  -- await_ready of most classes: the first call.
  abbrev pub first_call : Call A × W → Awaiting A W
  first_call c = record {
    at_once = is_ready eagain c.0;
    ready = is_ready eagain c.0;
    ret_value = c.0;
    world = c.1;
  }

  -- The same, where the socket has to be connected; `before` is the initial retValue_.
  abbrev pub first_call_if : Bool → Call A → W → Call A × W → Awaiting A W
  first_call_if true before w c = first_call c
  first_call_if false before w c = record {
    at_once = true;
    ready = false;
    ret_value = before;
    world = w;
  }

  abbrev pub second_call : Bool → Awaiting A W → (W → Call A × W) → Call A × W
  second_call true a again = (a.ret_value, a.world)
  second_call false a again = again a.world

  -- await_resume of most classes: the second call, where the first was not ready.
  abbrev pub resume_timed : Bool → Awaiting A W → (W → Call A × W) → Call A × W
  resume_timed true a again = (failed etimedout, a.world)
  resume_timed false a again = second_call a.ready a again

  -- The same, where the socket has to be connected.
  abbrev pub resume_connected : Bool → Bool → Awaiting A W → (W → Call A × W) → Call A × W
  resume_connected connected true a again = (failed etimedout, a.world)
  resume_connected true false a again = second_call a.ready a again
  resume_connected false false a again = (failed enotconn, a.world)

  -- co_await of an awaitable of a connected socket: with no suspension where await_ready said so.
  abbrev pub await_connected : Turn → Call A → (W → Call A × W) → W → Call A × W
  await_connected t before call w =
      let a = first_call_if t.connected before w (call w) in
      resume_connected (connected_of a.at_once t) (timed_out_of a.at_once t) a call

  abbrev pub await_timed : Turn → Awaiting A W → (W → Call A × W) → Call A × W
  await_timed t a call = resume_timed (timed_out_of a.at_once t) a call

module _ (s : System) where
  open s use {
    World, Address, read, write, accept, sendto, recvfrom, connect, so_error, local_of, sendfile,
  }

  -- ReadAwaitable.
  unfoldable pub await_read : Turn → ℕ → ℕ → World → Call (List ℕ) × World
  await_read t fd count w = await_connected t (returned []) (λ w'. read fd count w') w

  -- WriteAwaitable.
  unfoldable pub await_write : Turn → ℕ → List ℕ → World → Call ℕ × World
  await_write t fd buf w = await_connected t (failed 0) (λ w'. write fd buf w') w

  -- SendToAwaitable.
  unfoldable pub await_send_to : Turn → ℕ → List ℕ → Address → ℕ → World → Call ℕ × World
  await_send_to t fd buf dest flags w =
      await_timed t (first_call (sendto fd buf flags dest w)) (λ w'. sendto fd buf flags dest w')

  -- SendFileAwaitable.
  unfoldable pub await_send_file : Turn → ℕ → ℕ → ℕ → World → Call ℕ × World
  await_send_file t out_fd in_fd count w =
      await_timed t (first_call (sendfile out_fd in_fd count w))
        (λ w'. sendfile out_fd in_fd count w')

  -- RecvFromAwaitable: await_ready answers false also where the first call was ready.
  unfoldable pub await_recv_from : Turn → ℕ → ℕ → ℕ → World → Call (List ℕ × Address) × World
  await_recv_from t fd len flags w =
      await_timed t (record (first_call (recvfrom fd len flags w)) { at_once = false })
        (λ w'. recvfrom fd len flags w')

  -- AcceptAwaitable: any error of the first call waits.
  unfoldable pub await_accept : Turn → ℕ → World → Call (ℕ × Address) × World
  await_accept t fd w =
      let c = accept fd w in
      await_timed t (record (first_call c) { at_once = is_returned c.0; ready = is_returned c.0 })
        (λ w'. accept fd w')

  -- detail::AsyncRead and detail::AsyncWrite: one call, behind the suspension.
  unfoldable pub async_read : Turn → ℕ → ℕ → World → Call (List ℕ) × World
  async_read t fd count w = if t.timed_out then (failed etimedout, w) else read fd count w

  unfoldable pub async_write : Turn → ℕ → List ℕ → World → Call ℕ × World
  async_write t fd buf w = if t.timed_out then (failed etimedout, w) else write fd buf w
