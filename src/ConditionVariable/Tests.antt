-- ===== src/ConditionVariable/Tests.antt =====
-- A monitor with three waiters.
use libcold.Base.{ℕ, ◌≡◌, refl, [], ◌∷◌, Bool, false, Option, none, some, ◌==◌, if◌then◌else◌}
use libcold.AsyncMutex.{locked, await_suspend, unlock}
use libcold.ConditionVariable.{
  Monitor, Outcome, done, reads_ended, wait, wait_suspend, resume, notify_one, notify_all,
}
use libcold.ConditionVariable.Notify.{IsLinked, notify-newest}

abbrev links : ℕ → Option (Option ℕ)
links j =
    if j == 3
    then some (some 2)
    else if j == 2
    then some (some 1)
    else if j == 1
    then some none
    else none

-- 3, 2 and 1 wait, 3 is the newest.
abbrev three_waiters : Monitor
three_waiters = record {
  mutex = record { state = locked (9 ∷ []); waiters_head = [] };
  head = some 3;
  awaiters = links;
  granted = [];
}

abbrev never : ℕ → Bool
never c = false

abbrev stay : ℕ → Monitor → Outcome
stay c m = done m

notify-newest_example :
    ((m' : Monitor) × (notify_one never stay three_waiters ≡ done m')
      × (m'.mutex ≡ record { state = locked (3 ∷ 9 ∷ []); waiters_head = [] })
      × (m'.granted ≡ [])
      × IsLinked m'.awaiters m'.head (2 ∷ 1 ∷ []))
    × (notify_all never stay 5 three_waiters ≡ reads_ended)
notify-newest_example =
    notify-newest never stay 3 (2 ∷ 1 ∷ []) (9 ∷ []) 4 three_waiters refl
      (refl, some 2, refl, (refl, some 1, refl, (refl, none, refl, refl))) (refl, (refl, tt))

-- A coroutine that finds its predicate false gives the lock up, and NotifyOne queues it again.
abbrev one_waits : Outcome
one_waits = wait never stay 7 (record {
  mutex = record { state = locked []; waiters_head = [] };
  head = none;
  awaiters = λ _. none;
  granted = [];
})

abbrev head_of : Outcome → Option (Option ℕ)
head_of (done m) = some m.head
head_of _ = none

one_waits_head : head_of one_waits ≡ some (some 7)
unfolding wait wait_suspend unlock
one_waits_head = refl

notified_head : head_of (notify_one never stay three_waiters) ≡ some (some 2)
unfolding notify_one resume await_suspend
notified_head = refl
