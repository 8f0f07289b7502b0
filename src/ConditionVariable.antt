-- ===== src/ConditionVariable.antt =====
-- cold/coro/ConditionVariable.h, over AsyncMutex. A coroutine is a number, and its awaiter stands at
-- one place in its frame: it lives from a suspension in Wait to the resumption, and a second wait
-- makes a new one there. A read of an awaiter that has ended is an outcome of its own. What Unlock
-- resumes is kept in `granted`.
pub mod Notify
pub mod Forgotten
mod Tests
use libcold.Base.{
  ℕ, zero, suc, List, ◌++◌, Bool, true, false, Option, none, some, ◌==◌, if◌then◌else◌, ◌>>=◌,
}
use libcold.AsyncMutex.{AsyncMutex, await_suspend, unlock}

-- The awaiter of a coroutine with its next_, where it lives.
pub record Monitor : Type 0 where
  pub mutex : AsyncMutex
  pub head : Option ℕ
  pub awaiters : ℕ → Option (Option ℕ)
  pub granted : List ℕ

-- What a notification leads to; a failed assertion of Unlock is `aborts`.
pub data Outcome : Type 0 where
  done : Monitor → Outcome
  aborts reads_ended unfinished : Outcome

abbrev pub and_then : Outcome → (Monitor → Outcome) → Outcome
and_then (done m) next = next m
and_then aborts next = aborts
and_then reads_ended next = reads_ended
and_then unfinished next = unfinished

-- ConditionVariableAwaiter::await_suspend: the loop of compare_exchange_weak puts the awaiter before
-- all others.
abbrev pub push_waiter : ℕ → Monitor → Monitor
push_waiter c m = record m {
  head = some c;
  awaiters = λ j. if j == c then some m.head else m.awaiters j;
}

abbrev pub unlocked : Option (AsyncMutex × List ℕ) → Monitor → Outcome
unlocked none m = aborts
unlocked (some (mutex, next)) m = done (record m { mutex = mutex; granted = m.granted ++ next })

unfoldable pub wait_suspend : ℕ → Monitor → Outcome
unfolding unlock
wait_suspend c m = unlocked (unlock m.mutex) (push_waiter c m)

-- The awaiter ends with the expression that awaits it.
abbrev pub end_awaiter : ℕ → Monitor → Monitor
end_awaiter c m = record m { awaiters = λ j. if j == c then none else m.awaiters j }

-- What a coroutine does with the lock: the predicate of Wait, and the program behind Wait.
module _ (cond : ℕ → Bool) (leave : ℕ → Monitor → Outcome) where
  abbrev pub check_if : Bool → ℕ → Monitor → Outcome
  check_if true c m = leave c m
  check_if false c m = wait_suspend c m

  -- A round of the loop of Wait.
  unfoldable pub wait : ℕ → Monitor → Outcome
  wait c m = check_if (cond c) c m

  abbrev pub locked_if : ℕ → Monitor → AsyncMutex × Bool → Outcome
  locked_if c m (mutex, true) = wait c (record m { mutex = mutex })
  locked_if c m (mutex, false) = done (record m { mutex = mutex })

  -- What a resumed waiter does: its awaiter ends, it asks for the lock, and goes on when it has it.
  unfoldable pub resume : ℕ → Monitor → Outcome
  unfolding wait await_suspend
  resume c m = locked_if c (end_awaiter c m) (await_suspend c m.mutex)

  abbrev pub pop_head : ℕ → Option (Option ℕ) → Monitor → Outcome
  pop_head cur none m = reads_ended
  pop_head cur (some next) m = resume cur (record m { head = next })

  abbrev pub notify_first : Option ℕ → Monitor → Outcome
  notify_first none m = done m
  notify_first (some cur) m = pop_head cur (m.awaiters cur) m

  unfoldable pub notify_one : Monitor → Outcome
  unfolding resume
  notify_one m = notify_first m.head m

  -- The read of i->next_.
  abbrev pub step_to : (Option ℕ → Monitor → Outcome) → Option (Option ℕ) → Monitor → Outcome
  step_to go none m = reads_ended
  step_to go (some next) m = go next m

  abbrev pub notify_next : (ℕ → Monitor → Outcome) → Option ℕ → Monitor → Outcome
  notify_next go none m = done m
  notify_next go (some i) m = go i m

  -- The loop of NotifyAll: next_ is read behind the resumption. Without rounds it is unfinished.
  unfoldable pub notify_loop : ℕ → Option ℕ → Monitor → Outcome
  unfolding resume
  notify_loop zero cur m = notify_next (λ i m'. unfinished) cur m
  notify_loop (suc n) cur m =
      notify_next
        (λ i m'.
          and_then (resume i m') (λ m''. step_to (λ c m3. notify_loop n c m3) (m''.awaiters i) m''))
        cur m

  unfoldable pub notify_all : ℕ → Monitor → Outcome
  unfolding notify_loop
  notify_all n m = notify_loop n m.head (record m { head = none })
