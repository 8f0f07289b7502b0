-- ===== src/AsyncMutex/Tests.antt =====
-- Runs of the lock, and the theorems at concrete calls.
use libcold.Base.{◌≡◌, refl, List, [], ◌∷◌, none, some}
use libcold.AsyncMutex.{
  AsyncMutex, new_mutex, locked, await_suspend, try_lock, unlock, reverse_onto,
}
use libcold.AsyncMutex.Order.{Op, lock, try, release, Trace, step, run, IsFair, run-IsFair}
use libcold.AsyncMutex.Release.{HandsOver, unlock-HandsOver}

abbrev calls : List Op
calls = lock 1 ∷ lock 2 ∷ try 9 ∷ lock 3 ∷ release ∷ lock 4 ∷ release ∷ release ∷ []

abbrev start : Trace
start = record { asked = []; granted = []; released = 0 }

abbrev held : AsyncMutex
held = record { state = locked []; waiters_head = [] }

abbrev history : Trace
history = record { asked = 1 ∷ 2 ∷ 3 ∷ 4 ∷ []; granted = 1 ∷ 2 ∷ 3 ∷ 4 ∷ []; released = 3 }

history_of_calls : run calls new_mutex start ≡ some (held, history)
unfolding run step await_suspend try_lock unlock reverse_onto
history_of_calls = refl

release_without_lock : run (release ∷ []) new_mutex start ≡ none
unfolding run step unlock
release_without_lock = refl

start-IsFair : IsFair new_mutex start
start-IsFair = record { order = refl; one = refl; free = refl }

run-IsFair_example : IsFair held history
run-IsFair_example = run-IsFair calls new_mutex held start history start-IsFair history_of_calls

abbrev contended : AsyncMutex
contended = record { state = locked (3 ∷ 2 ∷ []); waiters_head = [] }

unlock-HandsOver_example : HandsOver contended (unlock contended)
unlock-HandsOver_example = unlock-HandsOver contended (3 ∷ 2 ∷ []) refl
