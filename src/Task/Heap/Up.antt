-- ===== src/Task/Heap/Up.antt =====
-- upheap turns a heap with one task too low into a heap of the same tasks.
use nifty.Base.{ℕ, zero, suc, ◌≤◌, ◌<◌, ◌≢◌, ltb, ltb→lt, arith, inl, inr, Bool-cases}
use nifty.Timespec.{Timespec, InRange}
use nifty.Task.Heap.{Heap, swap_tasks, upheap_loop, upheap}
use nifty.Task.Heap.Order.{
  parent, Fits, due, IsHeap, IsBridged, due-swap_tasks, length-swap_tasks, swap_tasks_keeps,
  comp_tasks_neg,
}

module _ (abstime : ℕ → Timespec) (inside : (p : ℕ) → InRange (abstime p)) where
  -- Only the task at `i` may be due before its parent.
  pub record IsUp (h : Heap) (i : ℕ) : Type 0 where
    pub fits : Fits h
    pub at : i < h.count
    pub edges : (c : ℕ) → 0 < c → c < h.count → c ≢ i → due abstime h (parent c) ≤ due abstime h c
    pub bridged : IsBridged abstime h i

  swap_tasks-IsUp :
      (h : Heap) (i : ℕ)
      → IsUp h i
      → 0 < i
      → due abstime h i < due abstime h (parent i)
      → IsUp (swap_tasks h (parent i) i) (parent i)
  swap_tasks-IsUp h i u pos below = grind (
    arith,
    swap_tasks_keeps h (parent i) i,
    length-swap_tasks h (parent i) i,
    due-swap_tasks abstime h (parent i) i,
  )

  upheap_loop-IsHeap :
      (n : ℕ) (h : Heap) (i : ℕ) → i ≤ n → IsUp h i → IsHeap abstime (upheap_loop abstime n h i)
  unfolding upheap_loop
  upheap_loop-IsHeap zero h i f u = λ c p q. u.edges c p q (omega arith)
  upheap_loop-IsHeap (suc n) h i f u = elim (Bool-cases (ltb 0 i)) [
    | inr root ↦ rw root (λ c p q. u.edges c p q (ground arith))
    | inl pos ↦
        rw (pos, comp_tasks_neg abstime h (parent i) i inside)
          (elim (Bool-cases (ltb (due abstime h i) (due abstime h (parent i)))) [
            | inl below ↦ rw below (
                upheap_loop-IsHeap n (swap_tasks h (parent i) i) (parent i) (ground arith)
                  (swap_tasks-IsUp h i u (ltb→lt _ _ pos) (ltb→lt _ _ below)))
            | inr settled ↦ rw settled (λ c p q. ground (arith, u.edges c))
          ])
  ]

  pub upheap-IsHeap : (h : Heap) (i : ℕ) → IsUp h i → IsHeap abstime (upheap abstime h i)
  unfolding upheap
  upheap-IsHeap h i u = upheap_loop-IsHeap i h i (omega arith) u
