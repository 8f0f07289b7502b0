-- ===== src/IoWatcher/Linux.antt =====
-- A set of descriptors in the kernel, as a function: what the interface Epoll asks for exists.
use libcold.Base.{ℕ, ◌≡◌, refl, Bool, true, false, Option, none, some, ◌==◌, if◌then◌else◌, is_some}
use libcold.IoWatcher.{EventMask, CtlOp, ctl_add, ctl_mod, ctl_del, Epoll}

abbrev pub Interest : Type 0
Interest = ℕ → Option EventMask

abbrev pub put_mask : ℕ → Option EventMask → Interest → Interest
put_mask fd m k j = if j == fd then m else k j

abbrev ctl : CtlOp → ℕ → EventMask → Interest → Interest × Bool
ctl ctl_add fd m k = if is_some (k fd) then (k, false) else (put_mask fd (some m) k, true)
ctl ctl_mod fd m k = if is_some (k fd) then (put_mask fd (some m) k, true) else (k, false)
ctl ctl_del fd m k = if is_some (k fd) then (put_mask fd none k, true) else (k, false)

pub add_to_set :
    (fd : ℕ) (m : EventMask) (k : Interest)
    → k fd ≡ none
    → ((ctl ctl_add fd m k).1 ≡ true)
      × ((j : ℕ) → (ctl ctl_add fd m k).0 j ≡ (if j == fd then some m else k j))
add_to_set fd m k h = rw h (refl, λ j. refl)

pub change_in_set :
    (fd : ℕ) (m m' : EventMask) (k : Interest)
    → k fd ≡ some m'
    → ((ctl ctl_mod fd m k).1 ≡ true)
      × ((j : ℕ) → (ctl ctl_mod fd m k).0 j ≡ (if j == fd then some m else k j))
change_in_set fd m m' k h = rw h (refl, λ j. refl)

pub take_from_set :
    (fd : ℕ) (m m' : EventMask) (k : Interest)
    → k fd ≡ some m'
    → ((ctl ctl_del fd m k).1 ≡ true)
      × ((j : ℕ) → (ctl ctl_del fd m k).0 j ≡ (if j == fd then none else k j))
take_from_set fd m m' k h = rw h (refl, λ j. refl)

abbrev pub linux : Epoll
linux = record {
  Kernel = Interest;
  interest = λ k. k;
  epoll_ctl = ctl;
  add_lem = add_to_set;
  mod_lem = change_in_set;
  del_lem = take_from_set;
}
