-- ===== src/TimerQueue/Timeout.antt =====
-- HandleTimeout: what it takes out of the queue, in which order, and how long it lets the loop wait.
use libcold.Base.{
  ◌*◌, ◌+◌, ◌<◌, ℕ, zero, suc, ◌-◌, ◌≤◌, ◌<◌, ◌≡◌, refl, sym, ap, List, [], ◌∷◌, Bool, true, Option,
  none, some, arith, length, ltb, leb, ◌==◌, ◌&&◌, if◌then◌else◌, Bool-cases, Option-cases, inl,
  inr,
}
use libcold.TimerQueue.{
  TimerNode, TimerQueue, node_gt, node_at, pop_front, push_task, timeout_loop, handle_timeout,
  wait_time, milliseconds, default_tick,
}
use libcold.TimerQueue.Order.{NotAfter-expiry, gt_of_ne}
use libcold.TimerQueue.Index.{lookup_timer}
use libcold.TimerQueue.Add.{IsValid}
use libcold.TimerQueue.Pop.{pop_front-Pops, timer-NotAfter}

-- The nodes taken out: in strict order from `low` on, each due, and each with its task if it was
-- not cancelled.
abbrev pub later_than : Option TimerNode → TimerNode → Bool
later_than none n = true
later_than (some m) n = node_gt n m

abbrev pub IsAscending : Option TimerNode → List TimerNode → Type 0
IsAscending low [] = Unit {0}
IsAscending low (n ∷ ns) = (later_than low n ≡ true) × IsAscending (some n) ns

abbrev pub tasks_of : List TimerNode → List ℕ
tasks_of [] = []
tasks_of (n ∷ ns) = push_task n (tasks_of ns)

abbrev pub find_node : ℕ → List TimerNode → Option TimerNode
find_node id [] = none
find_node id (n ∷ ns) = if n.timer_id == id then some n else find_node id ns

abbrev pub when_due : ℕ → Option TimerNode → Option TimerNode
when_due now none = none
when_due now (some n) = if leb n.expiry now then some n else none

abbrev pub when_pending : ℕ → Option TimerNode → Option TimerNode
when_pending now none = none
when_pending now (some n) = if leb n.expiry now then none else some n

-- `q` splits into the due timers, with their tasks in the order of their expiries, and the queue
-- `r` of those that are pending.
pub record Expires (low : Option TimerNode) (now : ℕ) (q r : TimerQueue) (tasks : List ℕ)
    (due : List TimerNode) : Type 0 where
  pub valid : IsValid r
  pub resumed : tasks ≡ tasks_of due
  pub ordered : IsAscending low due
  pub complete : (id : ℕ) → find_node id due ≡ when_due now (lookup_timer q id)
  pub left : (id : ℕ) → lookup_timer r id ≡ when_pending now (lookup_timer q id)

-- All timers of the queue come after `low`.
abbrev IsAbove : Option TimerNode → TimerQueue → Type 0
IsAbove low q = (id : ℕ) (n : TimerNode) → lookup_timer q id ≡ some n → later_than low n ≡ true

lookup_timer-root :
    (q : TimerQueue)
    → IsValid q
    → 0 < length q.time_heap
    → lookup_timer q (node_at q.time_heap 0).timer_id ≡ some (node_at q.time_heap 0)
lookup_timer-root q v pos = rw (v.indexed.held 0 pos)

pop_front-IsAbove :
    (q : TimerQueue)
    → IsValid q
    → 0 < length q.time_heap
    → IsAbove (some (node_at q.time_heap 0)) (pop_front q)
pop_front-IsAbove q v pos id n e =
    let p = pop_front-Pops q v pos in
    let there : lookup_timer q id ≡ some n = ground (arith, e, p.same id) in
    let (_, least, owner) = timer-NotAfter q id n v there in
    gt_of_ne (node_at q.time_heap 0) n least (λ same. ground (arith, e, p.same id, owner, same))

no_due :
    (now : ℕ) (q : TimerQueue)
    → IsValid q
    → (0 < length q.time_heap → now < (node_at q.time_heap 0).expiry)
    → (id : ℕ)
    → (when_due now (lookup_timer q id) ≡ none)
      × (when_pending now (lookup_timer q id) ≡ lookup_timer q id)
no_due now q v later id = elim (Option-cases (lookup_timer q id)) [
  | inl e ↦ rw e (refl, refl)
  | inr (n, e) ↦
      let (pos, least, _) = timer-NotAfter q id n v e in
      let bound = NotAfter-expiry (node_at q.time_heap 0) n least in
      let first = later pos in rw e (ground arith, ground arith)
]

Expires-none :
    (low : Option TimerNode) (now : ℕ) (q : TimerQueue)
    → IsValid q
    → (0 < length q.time_heap → now < (node_at q.time_heap 0).expiry)
    → Expires low now q q [] []
Expires-none low now q v later = record {
  valid = v;
  resumed = refl;
  ordered = tt;
  complete = λ id. sym (no_due now q v later id).0;
  left = λ id. sym (no_due now q v later id).1;
}

Expires-front :
    (low : Option TimerNode) (now : ℕ) (q r : TimerQueue) (tasks : List ℕ) (due : List TimerNode)
    → IsValid q
    → 0 < length q.time_heap
    → (node_at q.time_heap 0).expiry ≤ now
    → IsAbove low q
    → Expires (some (node_at q.time_heap 0)) now (pop_front q) r tasks due
    → Expires low now q r (push_task (node_at q.time_heap 0) tasks) (node_at q.time_heap 0 ∷ due)
Expires-front low now q r tasks due v pos time above x =
    let root = node_at q.time_heap 0 in
    let p = pop_front-Pops q v pos in
    let here = lookup_timer-root q v pos in
    record {
      valid = x.valid;
      resumed = ap (push_task root) x.resumed;
      ordered = (above root.timer_id root here, x.ordered);
      complete = λ id. ground (arith, here, p.same id, x.complete id);
      left = λ id. ground (arith, here, p.same id, x.left id);
    }

-- The loop takes out the due timers and no other, in the order of their expiries.
pub timeout_loop-Expires :
    (k now : ℕ) (low : Option TimerNode) (q : TimerQueue)
    → length q.time_heap ≤ k
    → IsValid q
    → IsAbove low q
    → (due : List TimerNode) × Expires low now q
        (timeout_loop k now q).0
        (timeout_loop k now q).1
        due
unfolding timeout_loop
timeout_loop-Expires zero now low q le v above =
    ([], Expires-none low now q v (λ pos. absurd (omega arith)))
timeout_loop-Expires (suc k) now low q le v above =
    let root = node_at q.time_heap 0 in
    elim (Bool-cases (ltb 0 (length q.time_heap) && leb root.expiry now)) [
      | inr stop ↦ rw stop ([], Expires-none low now q v (λ pos. ground arith))
      | inl go ↦
          let pos : 0 < length q.time_heap = ground arith in
          let p = pop_front-Pops q v pos in
          let size = p.size in
          let (due, x) =
            timeout_loop-Expires k now (some root) (pop_front q) (omega arith) p.valid
              (pop_front-IsAbove q v pos) in
          rw go (root ∷ due, Expires-front low now q _ _ due v pos (ground arith) above x)
    ]

wait_time-bound :
    (now : ℕ) (q : TimerQueue)
    → IsValid q
    → (wait_time now q ≤ default_tick)
      × ((id : ℕ) (n : TimerNode)
          → lookup_timer q id ≡ some n
          → (wait_time now q ≤ milliseconds n.expiry - milliseconds now)
            × (wait_time now q * 1_000_000 < (n.expiry - now) + 1_000_000))
unfolding wait_time
wait_time-bound now q v = (
  ground arith,
  λ id n e.
      let (pos, least, _) = timer-NotAfter q id n v e in
      ground (arith, NotAfter-expiry (node_at q.time_heap 0) n least),
)

-- HandleTimeout on a valid queue: exactly the timers whose expiry is not after `now` leave it; the
-- tasks of those that were not cancelled resume, in strict order of expiry and id; all other
-- timers stay as they were; and the wait, in milliseconds, is no longer than the default tick, and for
-- no timer that stays longer than the difference of its expiry and `now` in whole milliseconds, so
-- that it is less than a millisecond longer than the time to it.
pub handle_timeout_correct :
    (now : ℕ) (q : TimerQueue)
    → IsValid q
    → let (q', tasks, wait) = handle_timeout now q in
      ((due : List TimerNode) × Expires none now q q' tasks due)
      × (wait ≤ default_tick)
      × ((id : ℕ) (n : TimerNode)
          → lookup_timer q' id ≡ some n
          → (wait ≤ milliseconds n.expiry - milliseconds now)
            × (wait * 1_000_000 < (n.expiry - now) + 1_000_000))
unfolding handle_timeout
handle_timeout_correct now q v =
    let (due, x) =
      timeout_loop-Expires (length q.time_heap) now none q (omega arith) v (λ id n e. refl) in
    let (tick, soon) = wait_time-bound now (timeout_loop (length q.time_heap) now q).0 x.valid in
    ((due, x), tick, soon)
