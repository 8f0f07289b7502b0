-- ===== src/TimerQueue/Pop.antt =====
-- One round of HandleTimeout's loop: the root leaves the queue.
use libcold.Base.{
  ℕ, suc, ◌+◌, ◌-◌, ◌<◌, ◌≡◌, ◌∙◌, false, none, some, arith, length, length-take, get_or-take, take,
  ltb, ◌==◌, if◌then◌else◌, Option-cases, inl, inr,
}
use libcold.TimerQueue.{
  TimerNode, TimerQueue, node_at, null_node, parent_of, assign_index, swap_heap, fix_down,
  pop_front,
}
use libcold.TimerQueue.Order.{NotAfter, root_least, length-swap_heap, node_at-swap_heap}
use libcold.TimerQueue.Index.{IsIndexed, lookup_timer}
use libcold.TimerQueue.Down.{IsDown, fix_down-Repairs}
use libcold.TimerQueue.Add.{IsValid}

module _ (q : TimerQueue) (n : ℕ) (v : IsValid q) (size : length q.time_heap ≡ suc n) where
  at :
      (c : ℕ)
      → c < n
      → node_at (take n (swap_heap q.time_heap 0 n)) c
        ≡ (if 0 == c then node_at q.time_heap n else node_at q.time_heap c)
  at c hc = ground (
    arith,
    get_or-take null_node n (swap_heap q.time_heap 0 n) c hc,
    node_at-swap_heap q.time_heap 0 n c (omega arith) (omega arith),
  )

  cut : TimerQueue
  cut = record {
    time_heap = take n (swap_heap q.time_heap 0 n);
    index =
        if ltb 0 n
        then assign_index (assign_index q.index (node_at q.time_heap 0).timer_id none)
            (node_at q.time_heap n).timer_id (some 0)
        else assign_index q.index (node_at q.time_heap 0).timer_id none;
  }

  length-cut : length cut.time_heap ≡ n
  unfolding cut
  length-cut =
      omega (arith, length-take n (swap_heap q.time_heap 0 n), length-swap_heap q.time_heap 0 n)

  cut-held : (c : ℕ) → c < n → cut.index (node_at cut.time_heap c).timer_id ≡ some c
  unfolding cut
  cut-held c hc =
      ground (arith, size, at c hc, v.indexed.held c, v.indexed.held n, v.indexed.held 0)

  cut_sound :
      (id c : ℕ) → cut.index id ≡ some c → (c < n) × ((node_at cut.time_heap c).timer_id ≡ id)
  unfolding cut
  cut_sound id c e =
      let bound : c < n =
        ground (arith, size, v.indexed.sound id c, v.indexed.held n, v.indexed.held 0) in
      (
        bound,
        ground (arith, size, at c bound, v.indexed.sound id c, v.indexed.held n, v.indexed.held 0),
      )

  cut-IsIndexed : IsIndexed cut
  cut-IsIndexed = record {
    held = λ c hc. cut-held c (omega (arith, length-cut));
    sound = λ id c e. let (k, m) = cut_sound id c e in (omega (arith, length-cut), m);
  }

  cut-IsDown : IsDown false cut.time_heap 0
  unfolding cut
  cut-IsDown = record {
    edges = λ c pos hc ne free. ground (arith, size, length-cut, at c, at (parent_of c), v.heap c);
    bridged = λ c pos hc e p. absurd (omega arith);
  }

  lookup_timer-cut :
      (id : ℕ)
      → lookup_timer cut id
        ≡ (if (node_at q.time_heap 0).timer_id == id then none else lookup_timer q id)
  unfolding cut
  lookup_timer-cut id = elim (Option-cases (q.index id)) [
    | inl e ↦ ground (arith, e, size, v.indexed.held n, v.indexed.held 0)
    | inr (c, e) ↦
        ground
          (arith, e, size, at c, at 0, v.indexed.sound id c, v.indexed.held n, v.indexed.held 0)
  ]

  pop_front-cut : pop_front q ≡ fix_down cut 0
  unfolding pop_front cut
  pop_front-cut =
      let last : length q.time_heap - 1 ≡ n = omega (arith, size) in
      let more : ltb 1 (length q.time_heap) ≡ ltb 0 n = ground (arith, size) in
      let moved : (node_at (swap_heap q.time_heap 0 n) 0).timer_id
          ≡ (node_at q.time_heap n).timer_id =
        ground (arith, node_at-swap_heap q.time_heap 0 n 0 (omega arith) (omega arith)) in
      rw (last, more, moved)

-- Taking out the root keeps the invariant, and takes exactly the root's timer out of the map.
pub record Pops (q r : TimerQueue) : Type 0 where
  pub valid : IsValid r
  pub same :
      (id : ℕ)
      → lookup_timer r id
        ≡ (if (node_at q.time_heap 0).timer_id == id then none else lookup_timer q id)
  pub size : length r.time_heap + 1 ≡ length q.time_heap

pub pop_front-Pops : (q : TimerQueue) → IsValid q → 0 < length q.time_heap → Pops q (pop_front q)
pop_front-Pops q v pos =
    let n = length q.time_heap - 1 in
    let size : length q.time_heap ≡ suc n = omega arith in
    let done =
      fix_down-Repairs (cut q n v size) 0 (cut-IsDown q n v size) (cut-IsIndexed q n v size) in
    rw (pop_front-cut q n v size) (record {
      valid = record { heap = done.heap; indexed = done.indexed };
      same = λ id. done.same id ∙ lookup_timer-cut q n v size id;
      size = let s = done.size in omega (arith, length-cut q n v size);
    })

-- Every timer in a heap is no earlier than the root.
pub timer-NotAfter :
    (q : TimerQueue) (id : ℕ) (n : TimerNode)
    → IsValid q
    → lookup_timer q id ≡ some n
    → (0 < length q.time_heap) × NotAfter (node_at q.time_heap 0) n × (n.timer_id ≡ id)
timer-NotAfter q id n v e = elim (Option-cases (q.index id)) [
  | inl e' ↦ absurd (ground (arith, e'))
  | inr (c, e') ↦
      let (k, owner) = v.indexed.sound id c e' in
      let least = root_least q.time_heap c v.heap k in
      (omega arith, ground (arith, e', least), ground (arith, e', owner))
]
