-- ===== src/Sockets/Connect.antt =====
-- ConnectAwaitable of cold/net/IoAwaitable.h.
use libcold.Base.{ℕ, ◌-◌, ◌^◌, Bool, true, false, ◌==◌}
use libcold.Sockets.{Call, returned, failed, System, etimedout, einprogress, is_ready}

-- What Connect writes: connected_ and the two addresses.
pub record Endpoints (Address : Type 0) : Type 0 where
  pub connected : Bool
  pub local_address : Address
  pub remote_address : Address

module _ (s : System) where
  open s use {World, Address, connect, so_error, local_of}

  abbrev pub joined :
      ℕ → Address → Endpoints Address → World → Call (Unit {0}) × (Endpoints Address × World)
  joined fd address e w =
      let e' : Endpoints Address = record {
        connected = true;
        local_address = local_of fd w;
        remote_address = address;
      } in
      (returned tt, (e', w))

  -- The end of await_resume on retValue_, by then what SO_ERROR has.
  abbrev pub joined_if :
      Bool
      → ℕ
      → Address
      → ℕ
      → Endpoints Address
      → World
      → Call (Unit {0}) × (Endpoints Address × World)
  joined_if true fd address value e w = joined fd address e w
  joined_if false fd address value e w = (failed value, (e, w))

  abbrev pub join_error :
      Call ℕ
      → ℕ
      → Address
      → Endpoints Address
      → World
      → Call (Unit {0}) × (Endpoints Address × World)
  join_error (returned value) fd address e w = joined_if (value == 0) fd address value e w
  join_error (failed error) fd address e w = (failed error, (e, w))

  -- A first call that failed at once left -1 in retValue_, and this becomes errno.
  abbrev pub join_at_once :
      Call (Unit {0})
      → ℕ
      → Address
      → Endpoints Address
      → World
      → Call (Unit {0}) × (Endpoints Address × World)
  join_at_once (returned _) fd address e w = joined fd address e w
  join_at_once (failed error) fd address e w = (failed (2 ^ 32 - 1), (e, w))

  abbrev pub connect_resume :
      Bool
      → Bool
      → Call (Unit {0})
      → ℕ
      → Address
      → Endpoints Address
      → World
      → Call (Unit {0}) × (Endpoints Address × World)
  connect_resume timed_out true c fd address e w = join_at_once c fd address e w
  connect_resume true false c fd address e w = (failed etimedout, (e, w))
  connect_resume false false c fd address e w =
      let error = so_error fd w in join_error error.0 fd address e error.1

  -- ConnectAwaitable, which waits while the connection is in progress.
  unfoldable pub await_connect :
      Bool → ℕ → Address → Endpoints Address → World → Call (Unit {0}) × (Endpoints Address × World)
  await_connect timed_out fd address e w =
      let c = connect fd address w in
      connect_resume timed_out (is_ready einprogress c.0) c.0 fd address e c.1
