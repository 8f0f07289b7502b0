-- ===== src/AsyncMutex.antt =====
-- cold/coro/AsyncMutex.h: the lock of coroutines. An operation takes effect at its one successful
-- compare_exchange or exchange (a failed one reads the state again), so operations are steps, and a
-- list of them is an interleaving of the threads. `state_` is the address of a linked list, or one
-- of two marks; the list here is the list of the coroutines that it links, the newest one first.
pub mod Order
pub mod Release
mod Tests
use libcold.Base.{ℕ, List, [], ◌∷◌, ◌++◌, Bool, true, false, Option, none, some}

-- kNotLocked; a list without entries is kLockedNoWaiters.
pub data LockState : Type 0 where
  not_locked : LockState
  locked : List ℕ → LockState

pub record AsyncMutex : Type 0 where
  pub state : LockState
  pub waiters_head : List ℕ

abbrev pub new_mutex : AsyncMutex
new_mutex = record { state = not_locked; waiters_head = [] }

-- AsyncMutexLockOperation::await_suspend: whether the coroutine has the lock at once.
abbrev pub lock_in : LockState → ℕ → AsyncMutex → AsyncMutex × Bool
lock_in not_locked awaiter m = (record m { state = locked [] }, true)
lock_in (locked waiters) awaiter m = (record m { state = locked (awaiter ∷ waiters) }, false)

unfoldable pub await_suspend : ℕ → AsyncMutex → AsyncMutex × Bool
await_suspend awaiter m = lock_in m.state awaiter m

abbrev pub try_in : LockState → AsyncMutex → AsyncMutex × Bool
try_in not_locked m = (record m { state = locked [] }, true)
try_in (locked waiters) m = (m, false)

unfoldable pub try_lock : AsyncMutex → AsyncMutex × Bool
try_lock m = try_in m.state m

-- The loop that turns the list of waiters round.
unfoldable pub reverse_onto : List ℕ → List ℕ → List ℕ
reverse_onto new_head [] = new_head
reverse_onto new_head (cur ∷ rest) = reverse_onto (cur ∷ new_head) rest

-- The first of the waiters resumes and has the lock; none is an assertion that fails.
abbrev pub resume_head : AsyncMutex → List ℕ → Option (AsyncMutex × List ℕ)
resume_head m [] = none
resume_head m (head ∷ rest) = some (record m { waiters_head = rest }, head ∷ [])

abbrev pub unlock_in : LockState → List ℕ → AsyncMutex → Option (AsyncMutex × List ℕ)
unlock_in not_locked heads m = none
unlock_in (locked waiters) (head ∷ heads) m = resume_head m (head ∷ heads)
unlock_in (locked []) [] m = some (record m { state = not_locked }, [])
unlock_in (locked (w ∷ waiters)) [] m =
    resume_head (record m { state = locked [] }) (reverse_onto [] (w ∷ waiters))

-- The coroutines that get the lock, at most one.
unfoldable pub unlock : AsyncMutex → Option (AsyncMutex × List ℕ)
unlock m = unlock_in m.state m.waiters_head m
