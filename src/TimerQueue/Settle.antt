-- ===== src/TimerQueue/Settle.antt =====
-- FixDown where the heap order may fail on both sides of the node: the edge above it is left.
use libcold.Base.{
  ℕ, suc, ◌+◌, ◌-◌, ◌*◌, ◌≤◌, ◌<◌, ◌≡◌, refl, sym, subst, List, true, arith, length, ltb,
  Bool-cases, inl, inr,
}
use libcold.TimerQueue.{
  TimerNode, TimerQueue, node_gt, node_at, swap_nodes, smaller_son, fix_down_loop, fix_down,
}
use libcold.TimerQueue.Order.{NotAfter, NotAfter-trans, NotAfter-of_gt, IsHeap}
use libcold.TimerQueue.Index.{
  IsIndexed, lookup_timer, swap_nodes-IsIndexed, lookup_timer-swap_nodes,
}
use libcold.TimerQueue.Up.{IsUp, Repairs, Repairs-step, length-swap_nodes}
use libcold.TimerQueue.Down.{
  IsDown, smaller_son-IsSmaller, settled-edges, swap_nodes-IsDown, fix_down_loop-Repairs,
}

-- `r` holds the timers of `q`, and at most the edge above `p` is out of order.
pub record Settles (q r : TimerQueue) (p : ℕ) : Type 0 where
  pub up : IsUp r.time_heap p
  pub indexed : IsIndexed r
  pub same : (id : ℕ) → lookup_timer r id ≡ lookup_timer q id
  pub size : length r.time_heap ≡ length q.time_heap

IsHeap-IsUp : (h : List TimerNode) (p : ℕ) → p < length h → IsHeap h → IsUp h p
IsHeap-IsUp h p inside heap = record {
  inside = inside;
  edges = λ c pos hc ne. heap c pos hc;
  bridged = λ c pos hc e p_pos.
      NotAfter-trans _ (node_at h p) _ (heap p p_pos inside)
        (subst (λ t. NotAfter (node_at h t) (node_at h c)) e (heap c pos hc));
}

Settles-of_Repairs :
    {q r : TimerQueue} (p : ℕ) → p < length q.time_heap → Repairs q r → Settles q r p
Settles-of_Repairs p inside f = record {
  up = IsHeap-IsUp _ p (let size = f.size in omega arith) f.heap;
  indexed = f.indexed;
  same = f.same;
  size = f.size;
}

stays : (q : TimerQueue) (p : ℕ) → IsUp q.time_heap p → IsIndexed q → Settles q q p
stays q p u v = record { up = u; indexed = v; same = λ id. refl; size = refl }

fix_down_loop-Settles :
    (k : ℕ) (q : TimerQueue) (p : ℕ)
    → p < length q.time_heap
    → length q.time_heap ≤ p + suc k
    → IsDown true q.time_heap p
    → IsIndexed q
    → Settles q (fix_down_loop (suc k) q p) p
unfolding fix_down_loop
fix_down_loop-Settles k q p inside le d v =
    let s = smaller_son q.time_heap (p * 2 + 1) in
    elim (Bool-cases (ltb (p * 2 + 1) (length q.time_heap))) [
      | inr leaf ↦ rw leaf (
          stays q p
            (record {
              inside = inside;
              edges = λ c pos hc ne. d.edges c pos hc (ground arith) (inr ne);
              bridged = d.bridged;
            })
            v)
      | inl sons ↦
          let m = smaller_son-IsSmaller q.time_heap p (ground arith) in
          rw sons (elim (Bool-cases (node_gt (node_at q.time_heap s) (node_at q.time_heap p))) [
            | inl stop ↦ rw stop (
                stays q p
                  (record {
                    inside = inside;
                    edges = λ c pos hc ne.
                        settled-edges true q.time_heap p s d m (NotAfter-of_gt _ _ stop) c pos hc
                          (inr ne);
                    bridged = d.bridged;
                  })
                  v)
            | inr go ↦
                let below = m.below in
                rw go (
                  Settles-of_Repairs p inside (
                    Repairs-step (lookup_timer-swap_nodes q p s v inside m.inside)
                      (length-swap_nodes q p s)
                      (fix_down_loop-Repairs k (swap_nodes q p s) s
                        (omega (arith, length-swap_nodes q p s))
                        (swap_nodes-IsDown true q p s d m go)
                        (swap_nodes-IsIndexed q p s v inside m.inside))))
          ])
    ]

-- FixDown leaves at most the edge above the node to Fixup.
pub fix_down-Settles :
    (q : TimerQueue) (p : ℕ)
    → p < length q.time_heap
    → IsDown true q.time_heap p
    → IsIndexed q
    → Settles q (fix_down q p) p
unfolding fix_down
fix_down-Settles q p inside d v =
    let e : length q.time_heap ≡ suc (length q.time_heap - 1) = omega arith in
    subst (λ k. Settles q (fix_down_loop k q p) p) (sym e)
      (fix_down_loop-Settles (length q.time_heap - 1) q p inside (omega arith) d v)
