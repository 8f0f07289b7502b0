-- ===== src/TimerQueue/Edit.antt =====
-- CancelTimer and UpdateTimer against the finite map.
use libcold.Base.{
  ℕ, ◌<◌, ◌≡◌, refl, true, false, Option, none, some, arith, length, length-set, get_or-set, set,
  ◌==◌, if◌then◌else◌, Option-cases, inl, inr,
}
use libcold.TimerQueue.{
  Timer, TimerNode, TimerQueue, node_gt, node_at, null_node, parent_of, fix_down, add_at, add_timer,
  cancel_at, cancel_timer, update_at, update_timer,
}
use libcold.TimerQueue.Order.{NotAfter-trans, IsHeap}
use libcold.TimerQueue.Index.{IsIndexed, lookup_timer}
use libcold.TimerQueue.Up.{fixup-Repairs}
use libcold.TimerQueue.Down.{IsDown}
use libcold.TimerQueue.Settle.{fix_down-Settles}
use libcold.TimerQueue.Add.{IsValid}

-- A node is replaced by one of the same id.
abbrev replaced : TimerQueue → ℕ → TimerNode → TimerQueue
replaced q i n = record q { time_heap = set q.time_heap i n }

module _ (q : TimerQueue) (i : ℕ) (n : TimerNode) (v : IsValid q) (hi : i < length q.time_heap)
    (kept : n.timer_id ≡ (node_at q.time_heap i).timer_id) where
  at : (c : ℕ) → node_at (set q.time_heap i n) c ≡ (if i == c then n else node_at q.time_heap c)
  at c = get_or-set null_node q.time_heap i c n hi

  replaced-IsIndexed : IsIndexed (replaced q i n)
  replaced-IsIndexed = record {
    held = λ c hc. ground (arith, kept, at c, length-set q.time_heap i n, v.indexed.held c);
    sound = λ id c e.
        let old = v.indexed.sound id c e in
        (omega (arith, old.0, length-set q.time_heap i n), ground (arith, kept, at c, old.1));
  }

  lookup_timer-replaced :
      (id : ℕ)
      → lookup_timer (replaced q i n) id ≡ (if n.timer_id == id then some n else lookup_timer q id)
  lookup_timer-replaced id = elim (Option-cases (q.index id)) [
    | inl e ↦ ground (arith, e, kept, v.indexed.held i hi)
    | inr (c, e) ↦ ground (arith, e, kept, at c, v.indexed.held i hi, v.indexed.sound id c)
  ]

  replaced-IsDown : IsDown true (replaced q i n).time_heap i
  replaced-IsDown = record {
    edges = λ c pos hc ne free.
        ground (arith, at c, at (parent_of c), length-set q.time_heap i n, v.heap c);
    bridged = λ c pos hc e i_pos. ground (
      arith,
      at c,
      at (parent_of i),
      length-set q.time_heap i n,
      v.heap c,
      v.heap i,
      NotAfter-trans (node_at q.time_heap (parent_of i)) (node_at q.time_heap i)
          (node_at q.time_heap c),
    );
  }

abbrev pub map_node : (TimerNode → TimerNode) → Option TimerNode → Option TimerNode
map_node f none = none
map_node f (some n) = some (f n)

module _ (q : TimerQueue) (t : Timer) (v : IsValid q) where
  cancelled-IsHeap :
      (i : ℕ)
      → i < length q.time_heap
      → IsHeap (set q.time_heap i (record (node_at q.time_heap i) { valid = false }))
  unfolding node_gt
  cancelled-IsHeap i hi c pos hc =
      let n : TimerNode = record (node_at q.time_heap i) { valid = false } in
      ground (
        arith,
        get_or-set null_node q.time_heap i c n hi,
        get_or-set null_node q.time_heap i (parent_of c) n hi,
        length-set q.time_heap i n,
        v.heap c,
      )

  -- CancelTimer keeps the invariant, and marks the timer of that id, if there is one, as not valid.
  pub cancel_timer_correct :
      IsValid (cancel_timer q t)
      × ((id : ℕ)
          → lookup_timer (cancel_timer q t) id ≡ (
              if t.timer_id == id
              then map_node (λ n. record n { valid = false }) (lookup_timer q id)
              else lookup_timer q id))
  unfolding cancel_timer
  cancel_timer_correct = elim (Option-cases (q.index t.timer_id)) [
    | inl e ↦ rw (e, cancel_at) (v, λ id. ground (arith, e))
    | inr (i, e) ↦
        let (hi, owner) = v.indexed.sound t.timer_id i e in
        let n : TimerNode = record (node_at q.time_heap i) { valid = false } in
        rw (e, cancel_at)
          (
            record { heap = cancelled-IsHeap i hi; indexed = replaced-IsIndexed q i n v hi refl },
            λ id. ground (arith, e, owner, lookup_timer-replaced q i n v hi refl id),
          )
  ]

  -- UpdateTimer keeps the invariant, and gives the timer of that id, if there is one, its new expiry.
  pub update_timer_correct :
      IsValid (update_timer q t)
      × ((id : ℕ)
          → lookup_timer (update_timer q t) id ≡ (
              if t.timer_id == id
              then map_node (λ n. record n { expiry = t.expiry }) (lookup_timer q id)
              else lookup_timer q id))
  unfolding update_timer
  update_timer_correct = elim (Option-cases (q.index t.timer_id)) [
    | inl e ↦ rw (e, update_at) (v, λ id. ground (arith, e))
    | inr (i, e) ↦
        let (hi, owner) = v.indexed.sound t.timer_id i e in
        let n : TimerNode = record (node_at q.time_heap i) { expiry = t.expiry } in
        let down =
          fix_down-Settles (replaced q i n) i (omega (arith, length-set q.time_heap i n))
            (replaced-IsDown q i n v hi refl) (replaced-IsIndexed q i n v hi refl) in
        let up = fixup-Repairs (fix_down (replaced q i n) i) i down.up down.indexed in
        rw (e, update_at)
          (
            record { heap = up.heap; indexed = up.indexed },
            λ id. ground (
              arith,
              e,
              owner,
              up.same id,
              down.same id,
              lookup_timer-replaced q i n v hi refl id,
            ),
          )
  ]

  -- A cancelled timer keeps its place: adding a timer of its id again changes nothing, so its new
  -- task is lost, until the old expiry has passed.
  add_timer-cancel_timer :
      (t' : Timer) (n : TimerNode)
      → t'.timer_id ≡ t.timer_id
      → lookup_timer q t.timer_id ≡ some n
      → (add_timer (cancel_timer q t) t' ≡ cancel_timer q t)
        × (lookup_timer (cancel_timer q t) t.timer_id ≡ some (record n { valid = false }))
  unfolding add_timer cancel_timer
  add_timer-cancel_timer t' n same e = elim (Option-cases (q.index t.timer_id)) [
    | inl e' ↦ absurd (ground (arith, e'))
    | inr (i, e') ↦
        let found = cancel_timer_correct.1 t.timer_id in
        (rw (e', same, cancel_at) (rw (e', add_at)), ground (arith, found))
  ]
