-- ===== src/TimerQueue/Add.antt =====
-- AddTimer against the finite map, and the invariant of the queue.
use libcold.Base.{
  ℕ, ◌+◌, ◌<◌, ◌≡◌, [], ◌∷◌, ◌++◌, true, Option, none, some, arith, length, length-append,
  get_or-append_lt, get_or-append_end, ◌==◌, if◌then◌else◌, Option-cases, inl, inr,
}
use libcold.TimerQueue.{
  Timer, TimerNode, TimerQueue, node_at, null_node, parent_of, assign_index, add_at, add_timer,
  empty_queue,
}
use libcold.TimerQueue.Order.{IsHeap}
use libcold.TimerQueue.Index.{IsIndexed, lookup_timer}
use libcold.TimerQueue.Up.{IsUp, Repairs, fixup-Repairs}

-- The invariant of the queue between calls.
pub record IsValid (q : TimerQueue) : Type 0 where
  pub heap : IsHeap q.time_heap
  pub indexed : IsIndexed q

abbrev pub node_of_timer : Timer → TimerNode
node_of_timer t = record { timer_id = t.timer_id; expiry = t.expiry; task = t.task; valid = true }

abbrev pub appended : TimerQueue → Timer → TimerQueue
appended q t = record {
  time_heap = q.time_heap ++ node_of_timer t ∷ [];
  index = assign_index q.index t.timer_id (some (length q.time_heap));
}

module _ (q : TimerQueue) (t : Timer) (v : IsValid q) (absent : q.index t.timer_id ≡ none) where
  length-appended : length (appended q t).time_heap ≡ length q.time_heap + 1
  length-appended = length-append q.time_heap (node_of_timer t ∷ [])

  appended-held :
      (c : ℕ)
      → c < length (appended q t).time_heap
      → (appended q t).index (node_at (appended q t).time_heap c).timer_id ≡ some c
  appended-held c hc = ground (
    arith,
    length-appended,
    absent,
    v.indexed.held c,
    get_or-append_lt null_node q.time_heap (node_of_timer t ∷ []) c,
    get_or-append_end null_node q.time_heap (node_of_timer t) c,
  )

  appended_sound :
      (id c : ℕ)
      → (appended q t).index id ≡ some c
      → (c < length (appended q t).time_heap) × ((node_at (appended q t).time_heap c).timer_id ≡ id)
  appended_sound id c e =
      let old = get_or-append_lt null_node q.time_heap (node_of_timer t ∷ []) c in
      let new = get_or-append_end null_node q.time_heap (node_of_timer t) c in
      (
        ground (arith, length-appended, absent, v.indexed.sound id c),
        ground (arith, absent, v.indexed.sound id c, old, new),
      )

  appended-IsIndexed : IsIndexed (appended q t)
  appended-IsIndexed = record { held = appended-held; sound = appended_sound }

  appended-IsUp : IsUp (appended q t).time_heap (length q.time_heap)
  appended-IsUp = record {
    inside = omega (arith, length-appended);
    edges = λ c pos hc ne. ground (
      arith,
      length-appended,
      v.heap c,
      get_or-append_lt null_node q.time_heap (node_of_timer t ∷ []) c,
      get_or-append_lt null_node q.time_heap (node_of_timer t ∷ []) (parent_of c),
    );
    bridged = λ c pos hc e p. absurd (omega (arith, length-appended));
  }

  lookup_timer-appended :
      (id : ℕ)
      → lookup_timer (appended q t) id
        ≡ (if t.timer_id == id then some (node_of_timer t) else lookup_timer q id)
  lookup_timer-appended id = elim (Option-cases (q.index id)) [
    | inl e ↦
        ground
          (arith, e, get_or-append_end null_node q.time_heap (node_of_timer t) (length q.time_heap))
    | inr (c, e) ↦ ground (
      arith,
      e,
      v.indexed.sound id c,
      get_or-append_end null_node q.time_heap (node_of_timer t) (length q.time_heap),
      get_or-append_lt null_node q.time_heap (node_of_timer t ∷ []) c,
    )
  ]

IsValid-of_Repairs : {q r : TimerQueue} → Repairs q r → IsValid r
IsValid-of_Repairs f = record { heap = f.heap; indexed = f.indexed }

abbrev pub new_or_old : Timer → Option TimerNode → Option TimerNode
new_or_old t none = some (node_of_timer t)
new_or_old t (some n) = some n

-- AddTimer keeps the invariant, adds exactly the timer where no timer of its id is queued, and
-- changes nothing otherwise.
pub add_timer_correct :
    (q : TimerQueue) (t : Timer)
    → IsValid q
    → IsValid (add_timer q t)
      × ((id : ℕ)
          → lookup_timer (add_timer q t) id
            ≡ (if t.timer_id == id then new_or_old t (lookup_timer q id) else lookup_timer q id))
unfolding add_timer
add_timer_correct q t v = elim (Option-cases (q.index t.timer_id)) [
  | inr (i, e) ↦ rw (e, add_at) (v, λ id. ground (arith, e))
  | inl e ↦
      let done =
        fixup-Repairs (appended q t) (length q.time_heap) (appended-IsUp q t v e)
          (appended-IsIndexed q t v e) in
      rw (e, add_at)
        (
          IsValid-of_Repairs done,
          λ id. ground (arith, e, done.same id, lookup_timer-appended q t v e id),
        )
]

pub empty_queue-IsValid : IsValid empty_queue
empty_queue-IsValid = record {
  heap = λ c p k. absurd (omega arith);
  indexed = record { held = λ c k. absurd (omega arith); sound = λ id i e. cc };
}
