-- ===== src/Sockets/Stream.antt =====
-- ReadN and WriteN of cold/net/TcpSocket.h, with and without a time limit, as loops over the turns of
-- the coroutine: none while more turns are needed. A buffer is the list of its bytes. The empty task
-- that WriteN spawns changes nothing of the socket.
use libcold.Base.{
  ℕ, ◌+◌, ◌-◌, List, [], ◌∷◌, ◌++◌, Option, none, some, ltb, if◌then◌else◌, drop, length,
}
use libcold.Sockets.{Call, returned, failed, System, Turn, await_read, await_write}

-- The result, and the bytes that are in the buffer.
pub record Filling (W : Type 0) : Type 0 where
  pub result : Call ℕ
  pub buffer : List ℕ
  pub world : W

module _ (s : System) where
  open s use {World}

  abbrev pub write_next :
      (ℕ → World → Option (Call ℕ × World)) → ℕ → Call ℕ × World → Option (Call ℕ × World)
  write_next go already (returned k, w) = go (already + k) w
  write_next go already (failed e, w) = some (failed e, w)

  -- The loop of WriteN from byteAlreadyWrite on.
  unfoldable pub write_rounds : List Turn → ℕ → List ℕ → ℕ → World → Option (Call ℕ × World)
  unfolding await_write
  write_rounds [] fd buf already w =
      if ltb already (length buf) then none else some (returned (length buf), w)
  write_rounds (t ∷ ts) fd buf already w =
      if ltb already (length buf)
      then write_next (λ already' w'. write_rounds ts fd buf already' w') already
          (await_write s t fd (drop already buf) w)
      else some (returned (length buf), w)

  unfoldable pub write_n : List Turn → ℕ → List ℕ → World → Option (Call ℕ × World)
  unfolding write_rounds
  write_n ts fd buf w = write_rounds ts fd buf 0 w

  -- An end of the stream is a result of 0.
  abbrev pub read_next :
      (List ℕ → World → Option (Filling World))
      → List ℕ
      → Call (List ℕ) × World
      → Option (Filling World)
  read_next go buf (returned [], w) = some (record { result = returned 0; buffer = buf; world = w })
  read_next go buf (returned (b ∷ bytes), w) = go (buf ++ b ∷ bytes) w
  read_next go buf (failed e, w) = some (record { result = failed e; buffer = buf; world = w })

  -- The loop of ReadN; byteAlreadyRead is the length of what the buffer has.
  unfoldable pub read_rounds : List Turn → ℕ → ℕ → List ℕ → World → Option (Filling World)
  unfolding await_read
  read_rounds [] fd n buf w =
      if ltb (length buf) n
      then none
      else some (record { result = returned n; buffer = buf; world = w })
  read_rounds (t ∷ ts) fd n buf w =
      if ltb (length buf) n
      then read_next (λ buf' w'. read_rounds ts fd n buf' w') buf
          (await_read s t fd (n - length buf) w)
      else some (record { result = returned n; buffer = buf; world = w })

  unfoldable pub read_n : List Turn → ℕ → ℕ → World → Option (Filling World)
  unfolding read_rounds
  read_n ts fd n w = read_rounds ts fd n [] w
