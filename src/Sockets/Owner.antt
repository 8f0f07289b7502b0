-- ===== src/Sockets/Owner.antt =====
-- cold/net/BasicSocket.cpp, and the constructor of TcpSocket.h for an accepted descriptor: which
-- object owns a descriptor, over the table of the event loop. close(2) is a parameter: it takes the
-- descriptor out of the set of the kernel. All sockets here have the same event loop and no ssl_.
use libcold.Base.{ℕ, Option, none, some, Bool, true, false, is_some, ◌&&◌, ◌>>=◌}
use libcold.IoWatcher.{Epoll, IoWatcher, stop_listening_all, listen_read_event}

-- A negative fd_ is none.
pub record BasicSocket (Address : Type 0) : Type 0 where
  pub has_service : Bool
  pub fd : Option ℕ
  pub local_address : Address
  pub remote_address : Address
  pub connected : Bool

module _ {Address : Type 0} where
  abbrev pub is_valid : BasicSocket Address → Bool
  is_valid s = s.has_service && is_some s.fd

  -- What a move leaves of its source.
  abbrev pub moved_from : BasicSocket Address → BasicSocket Address
  moved_from s = record s { has_service = false; fd = none; connected = false }

pub record Moved (Address Kernel : Type 0) : Type 0 where
  pub self : BasicSocket Address
  pub other : BasicSocket Address
  pub watcher : IoWatcher Kernel

module _ (e : Epoll) (close : ℕ → e.Kernel → e.Kernel) where
  open e use {Kernel}

  abbrev pub close_fd : ℕ → IoWatcher Kernel → IoWatcher Kernel
  close_fd fd w = record w { epoll = close fd w.epoll }

  abbrev pub stop_if_open : Option ℕ → IoWatcher Kernel → IoWatcher Kernel
  stop_if_open none w = w
  stop_if_open (some fd) w = stop_listening_all e fd w

  -- The destructor.
  abbrev pub destroy_in : Option ℕ → IoWatcher Kernel → IoWatcher Kernel
  destroy_in none w = w
  destroy_in (some fd) w = close_fd fd (stop_listening_all e fd w)

  -- The descriptor is closed first, and the event loop forgets the one of the other socket.
  abbrev pub close_old : Option ℕ → Option ℕ → IoWatcher Kernel → IoWatcher Kernel
  close_old none other_fd w = w
  close_old (some fd) other_fd w = stop_if_open other_fd (close_fd fd w)

module _ (e : Epoll) {Address : Type 0} where
  open e use {Kernel}

  -- The constructor of TcpSocket for a descriptor of accept.
  abbrev pub connected_if :
      Option ℕ
      → BasicSocket Address
      → IoWatcher Kernel
      → Option (BasicSocket Address × IoWatcher Kernel)
  connected_if none s w = some (s, w)
  connected_if (some fd) s w = do
    w' ← listen_read_event e fd none w
    some (record s { connected = true }, w')

  unfoldable pub accepted :
      Address
      → Address
      → Option ℕ
      → IoWatcher Kernel
      → Option (BasicSocket Address × IoWatcher Kernel)
  accepted local remote fd w =
      connected_if fd
        (record {
          has_service = true;
          fd = fd;
          local_address = local;
          remote_address = remote;
          connected = false;
        })
        w

module _ (e : Epoll) (close : ℕ → e.Kernel → e.Kernel) {Address : Type 0} where
  open e use {Kernel}

  unfoldable pub destroy : BasicSocket Address → IoWatcher Kernel → IoWatcher Kernel
  destroy s w = destroy_in e close s.fd w

  -- operator=; `same` where this is the other.
  unfoldable pub move_assign :
      Bool → BasicSocket Address → BasicSocket Address → IoWatcher Kernel → Moved Address Kernel
  move_assign true self other w = record { self = self; other = other; watcher = w }
  move_assign false self other w = record {
    self = other;
    other = moved_from other;
    watcher = close_old e close self.fd other.fd w;
  }
