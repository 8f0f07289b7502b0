-- ===== src/IoServicePool.antt =====
-- cold/coro/IoServicePool.cpp: which event loop of a pool the next connection has. An event loop is a
-- number. GetNextIoService reads and writes index_ in two steps, between which another thread may
-- take its own; a read out of range is none.
pub mod Turns
mod Tests
use libcold.Base.{
  ℕ, zero, suc, ◌%◌, List, [], ◌∷◌, Bool, true, false, Option, none, some, leb, if◌then◌else◌,
  length, get_elem?, is_empty, ◌>>=◌,
}

pub record IoServicePool : Type 0 where
  pub main_io_service : ℕ
  pub service_vector : List ℕ
  pub index : ℕ

-- The test of index_.
unfoldable pub wrap_index : IoServicePool → IoServicePool
wrap_index p = record p { index = if leb (length p.service_vector) p.index then 0 else p.index }

-- The read at index_++.
unfoldable pub take_next : IoServicePool → Option (ℕ × IoServicePool)
take_next p = do
  service ← get_elem? p.service_vector p.index
  some (service, record p { index = suc p.index })

abbrev pub next_if : Bool → IoServicePool → Option (ℕ × IoServicePool)
next_if true p = some (p.main_io_service, p)
next_if false p = take_next (wrap_index p)

-- GetNextIoService, with no other thread between its steps.
unfoldable pub get_next_io_service : IoServicePool → Option (ℕ × IoServicePool)
unfolding take_next wrap_index
get_next_io_service p = next_if (is_empty p.service_vector) p

abbrev pub hash_if : Bool → ℕ → IoServicePool → Option ℕ
hash_if true hash_code p = some p.main_io_service
hash_if false hash_code p = get_elem? p.service_vector (hash_code % length p.service_vector)

-- GetIoServiceForHash.
unfoldable pub get_io_service_for_hash : ℕ → IoServicePool → Option ℕ
get_io_service_for_hash hash_code p = hash_if (is_empty p.service_vector) hash_code p

-- A number of calls, one after the other.
unfoldable pub get_many : ℕ → IoServicePool → Option (List ℕ × IoServicePool)
unfolding get_next_io_service
get_many zero p = some ([], p)
get_many (suc n) p = do
  first ← get_next_io_service p
  others ← get_many n first.1
  some (first.0 ∷ others.0, others.1)
