-- ===== src/ConditionVariable/Notify.antt =====
-- Notifications by a coroutine that has the lock.
use libcold.Base.{
  ℕ, suc, ◌≡◌, refl, ap, ◌∙◌, List, [], ◌∷◌, Every, Bool, false, Option, none, some, ◌==◌,
  if◌then◌else◌, ==_iff,
}
use libcold.AsyncMutex.{locked, await_suspend}
use libcold.ConditionVariable.{
  Monitor, Outcome, done, reads_ended, end_awaiter, resume, notify_one, notify_loop, notify_all,
}

-- The awaiters that head_ and next_ link, the newest one first, all of them alive.
abbrev pub IsLinked : (ℕ → Option (Option ℕ)) → Option ℕ → List ℕ → Type 0
IsLinked awaiters head [] = head ≡ none
IsLinked awaiters head (c ∷ cs) =
    (head ≡ some c) × (next : Option ℕ) × (awaiters c ≡ some next) × IsLinked awaiters next cs

abbrev pub with_queue : List ℕ → Monitor → Monitor
with_queue qs m = record m { mutex = record m.mutex { state = locked qs } }

IsLinked-end_awaiter :
    (c : ℕ) (m : Monitor) (head : Option ℕ) (cs : List ℕ)
    → Every (λ d. (d == c) ≡ false) cs
    → IsLinked m.awaiters head cs
    → IsLinked (end_awaiter c m).awaiters head cs
IsLinked-end_awaiter c m head [] apart links = links
IsLinked-end_awaiter c m head (d ∷ cs) (here, there) (now, next, alive, later) = (
  now,
  next,
  ap (λ b. if b then none else m.awaiters d) here ∙ alive,
  IsLinked-end_awaiter c m next cs there later,
)

module _ (cond : ℕ → Bool) (leave : ℕ → Monitor → Outcome) where
  -- Where a coroutine has the lock and different coroutines wait for the condition: NotifyOne
  -- takes the newest of them from the list, lets it ask for the lock, behind those that have
  -- asked already, and leaves the others linked. NotifyAll resumes it too, and then reads its
  -- awaiter, which has ended.
  pub notify-newest :
      (c : ℕ) (cs qs : List ℕ) (n : ℕ) (m : Monitor)
      → m.mutex.state ≡ locked qs
      → IsLinked m.awaiters m.head (c ∷ cs)
      → Every (λ d. (d == c) ≡ false) cs
      → ((m' : Monitor) × (notify_one cond leave m ≡ done m')
          × (m'.mutex ≡ record m.mutex { state = locked (c ∷ qs) })
          × (m'.granted ≡ m.granted)
          × IsLinked m'.awaiters m'.head cs)
        × (notify_all cond leave (suc n) m ≡ reads_ended)
  unfolding notify_one notify_all notify_loop resume await_suspend
  notify-newest c cs qs n m held (now, next, alive, later) apart = (
    (
      with_queue (c ∷ qs) (end_awaiter c (record m { head = next })),
      rw (now, alive, held) refl,
      refl,
      refl,
      IsLinked-end_awaiter c m next cs apart later,
    ),
    rw (now, held, (==_iff c c).1 refl) refl,
  )
