-- ===== src/ConditionVariable/Forgotten.antt =====
-- NotifyAll by a coroutine that does not have the lock.
use libcold.Base.{
  ℕ, suc, ◌≡◌, refl, ap, sym, append-nil, ◌++◌, List, [], ◌∷◌, Bool, true, false, none, some, ◌==◌,
  ==_iff, if◌then◌else◌,
}
use libcold.AsyncMutex.{not_locked, await_suspend, unlock}
use libcold.ConditionVariable.{
  Monitor, Outcome, done, end_awaiter, notify_all, notify_loop, resume, wait, wait_suspend,
  push_waiter,
}
use libcold.ConditionVariable.Notify.{IsLinked}

module _ (cond : ℕ → Bool) (leave : ℕ → Monitor → Outcome) where
  -- The lock is free and the newest waiter, whose predicate does not hold, waits again at once. Its
  -- awaiter then ends the list, and NotifyAll stops there: it alone waits afterwards, and the others
  -- are neither resumed nor in the list.
  pub notify_all-forgets :
      (c : ℕ) (cs : List ℕ) (n : ℕ) (m : Monitor)
      → m.mutex ≡ record { state = not_locked; waiters_head = [] }
      → IsLinked m.awaiters m.head (c ∷ cs)
      → cond c ≡ false
      → (m' : Monitor) × (notify_all cond leave (suc (suc n)) m ≡ done m')
        × (m'.mutex ≡ m.mutex)
        × (m'.granted ≡ m.granted)
        × IsLinked m'.awaiters m'.head (c ∷ [])
  unfolding notify_all notify_loop resume wait wait_suspend await_suspend unlock
  notify_all-forgets c cs n m free (newest, next, alive, older) waits =
      let self : (c == c) ≡ true = (==_iff c c).1 refl in
      (
        record (push_waiter c (end_awaiter c (record m { head = none }))) {
          mutex = record { state = not_locked; waiters_head = [] };
          granted = m.granted ++ [];
        },
        rw (newest, free, waits, self) refl,
        sym free,
        append-nil m.granted,
        (refl, none, ap (λ b. if b then some none else (end_awaiter c m).awaiters c) self, refl),
      )
