-- ===== src/TimerQueue/Down.antt =====
-- FixDown restores the heap order below one node.
use native.Mathlib.Decide.{ℕ_discrete}
use libcold.Base.{
  ℕ, zero, suc, ◌+◌, ◌*◌, ◌≤◌, ◌<◌, ◌≡◌, ◌≢◌, refl, List, Bool, false, arith, length, ltb, ◌==◌,
  ◌⊎◌, if◌then◌else◌, Bool-cases, inl, inr,
}
use libcold.TimerQueue.{
  TimerNode, TimerQueue, node_gt, node_at, parent_of, swap_heap, swap_nodes, smaller_son,
  fix_down_loop, fix_down,
}
use libcold.TimerQueue.Order.{
  NotAfter, NotAfter-refl, NotAfter-trans, NotAfter-of_gt, length-swap_heap, node_at-swap_heap,
}
use libcold.TimerQueue.Index.{IsIndexed, swap_nodes-IsIndexed, lookup_timer-swap_nodes}
use libcold.TimerQueue.Up.{Repairs, Repairs-step, length-swap_nodes}

-- The edges are in order but those below `p` and, if `top` holds, the one above it; the sons of `p`
-- fit its parent.
pub record IsDown (top : Bool) (h : List TimerNode) (p : ℕ) : Type 0 where
  pub edges :
      (c : ℕ)
      → 0 < c
      → c < length h
      → parent_of c ≢ p
      → (top ≡ false) ⊎ (c ≢ p)
      → NotAfter (node_at h (parent_of c)) (node_at h c)
  pub bridged :
      (c : ℕ)
      → 0 < c
      → c < length h
      → parent_of c ≡ p
      → 0 < p
      → NotAfter (node_at h (parent_of p)) (node_at h c)

-- The son that is compared is a son of `p`, and the other one comes no earlier.
pub record IsSmaller (h : List TimerNode) (p s : ℕ) : Type 0 where
  pub inside : s < length h
  pub below : p < s
  pub son : parent_of s ≡ p
  pub least :
      (c : ℕ) → 0 < c → c < length h → parent_of c ≡ p → NotAfter (node_at h s) (node_at h c)

smaller_son-least :
    (h : List TimerNode) (p c : ℕ)
    → p * 2 + 1 < length h
    → 0 < c
    → c < length h
    → parent_of c ≡ p
    → NotAfter (node_at h (smaller_son h (p * 2 + 1))) (node_at h c)
smaller_son-least h p c k pos hc e = elim (ℕ_discrete c (p * 2 + 1)) [
  | yes first ↦ rw first (
      ground (
        arith,
        NotAfter-refl (node_at h (p * 2 + 1)),
        NotAfter-of_gt (node_at h (p * 2 + 1)) (node_at h (p * 2 + 1 + 1)),
      ))
  | no other ↦
      let second : c ≡ p * 2 + 1 + 1 = omega arith in
      let there : p * 2 + 1 + 1 < length h = omega arith in
      rw second (ground (arith, NotAfter-refl (node_at h (p * 2 + 1 + 1))))
]

pub smaller_son-IsSmaller :
    (h : List TimerNode) (p : ℕ) → p * 2 + 1 < length h → IsSmaller h p (smaller_son h (p * 2 + 1))
smaller_son-IsSmaller h p k = record {
  inside = ground arith;
  below = ground arith;
  son = ground arith;
  least = λ c. smaller_son-least h p c k;
}

module _ (top : Bool) (h : List TimerNode) (p s : ℕ) (d : IsDown top h p)
    (m : IsSmaller h p s) where
  -- With no earlier son the node is in place.
  pub settled-edges :
      NotAfter (node_at h p) (node_at h s)
      → (c : ℕ) → 0 < c
      → c < length h
      → (top ≡ false) ⊎ (c ≢ p)
      → NotAfter (node_at h (parent_of c)) (node_at h c)
  settled-edges le c pos hc free = elim (ℕ_discrete (parent_of c) p) [
    | yes e ↦ rw e (NotAfter-trans _ _ _ le (m.least c pos hc e))
    | no ne ↦ d.edges c pos hc ne free
  ]

  module _ (le : NotAfter (node_at h s) (node_at h p)) where
    at :
        (c : ℕ)
        → node_at (swap_heap h p s) c
          ≡ (if s == c then node_at h p else if p == c then node_at h s else node_at h c)
    at c =
        let inside = m.inside in
        let below = m.below in node_at-swap_heap h p s c (omega arith) m.inside

    sink-edges :
        (c : ℕ)
        → 0 < c
        → c < length (swap_heap h p s)
        → parent_of c ≢ s
        → NotAfter (node_at (swap_heap h p s) (parent_of c)) (node_at (swap_heap h p s) c)
    sink-edges c pos hc ne = ground (
      arith,
      le,
      at c,
      at (parent_of c),
      length-swap_heap h p s,
      m.inside,
      m.below,
      m.son,
      m.least c,
      d.bridged s,
      d.edges c pos,
    )

    sink-bridged :
        (c : ℕ)
        → 0 < c
        → c < length (swap_heap h p s)
        → parent_of c ≡ s
        → 0 < s
        → NotAfter (node_at (swap_heap h p s) (parent_of s)) (node_at (swap_heap h p s) c)
    sink-bridged c pos hc e s_pos = ground (
      arith,
      at c,
      at (parent_of s),
      length-swap_heap h p s,
      m.inside,
      m.below,
      m.son,
      d.edges c pos,
    )

pub swap_nodes-IsDown :
    (top : Bool) (q : TimerQueue) (p s : ℕ)
    → IsDown top q.time_heap p
    → IsSmaller q.time_heap p s
    → NotAfter (node_at q.time_heap s) (node_at q.time_heap p)
    → IsDown false (swap_nodes q p s).time_heap s
unfolding swap_nodes
swap_nodes-IsDown top q p s d m le = record {
  edges = λ c pos hc ne free. sink-edges top q.time_heap p s d m le c pos hc ne;
  bridged = sink-bridged top q.time_heap p s d m le;
}

pub fix_down_loop-Repairs :
    (k : ℕ) (q : TimerQueue) (p : ℕ)
    → length q.time_heap ≤ p + k
    → IsDown false q.time_heap p
    → IsIndexed q
    → Repairs q (fix_down_loop k q p)
unfolding fix_down_loop
fix_down_loop-Repairs zero q p le d v = record {
  heap = λ c pos hc. d.edges c pos hc (omega arith) (inl refl);
  indexed = v;
  same = λ id. refl;
  size = refl;
}
fix_down_loop-Repairs (suc k) q p le d v =
    let s = smaller_son q.time_heap (p * 2 + 1) in
    elim (Bool-cases (ltb (p * 2 + 1) (length q.time_heap))) [
      | inr leaf ↦ rw leaf (record {
        heap = λ c pos hc. d.edges c pos hc (ground arith) (inl refl);
        indexed = v;
        same = λ id. refl;
        size = refl;
      })
      | inl sons ↦
          let m = smaller_son-IsSmaller q.time_heap p (ground arith) in
          rw sons (elim (Bool-cases (node_gt (node_at q.time_heap s) (node_at q.time_heap p))) [
            | inl stop ↦ rw stop (record {
              heap = λ c pos hc.
                  settled-edges false q.time_heap p s d m (NotAfter-of_gt _ _ stop) c pos hc
                    (inl refl);
              indexed = v;
              same = λ id. refl;
              size = refl;
            })
            | inr go ↦
                let inside = m.inside in
                let below = m.below in
                let p_inside : p < length q.time_heap = omega arith in
                rw go (
                  Repairs-step (lookup_timer-swap_nodes q p s v p_inside m.inside)
                    (length-swap_nodes q p s)
                    (fix_down_loop-Repairs k (swap_nodes q p s) s
                      (omega (arith, length-swap_nodes q p s))
                      (swap_nodes-IsDown false q p s d m go)
                      (swap_nodes-IsIndexed q p s v p_inside m.inside)))
          ])
    ]

-- FixDown makes a heap of the same timers where the heap order failed only below the node.
pub fix_down-Repairs :
    (q : TimerQueue) (p : ℕ) → IsDown false q.time_heap p → IsIndexed q → Repairs q (fix_down q p)
unfolding fix_down
fix_down-Repairs q p d v = fix_down_loop-Repairs (length q.time_heap) q p (omega arith) d v
