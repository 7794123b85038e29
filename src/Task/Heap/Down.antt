-- ===== src/Task/Heap/Down.antt =====
-- downheap turns a heap with one task too high into a heap of the same tasks.
use nifty.Base.{
  ℕ, zero, suc, ◌+◌, ◌*◌, ◌/◌, ◌≤◌, ◌<◌, ◌≡◌, ◌≢◌, ◌⊎◌, ltb, ltb→lt, arith, length, inl, inr,
  Bool-cases,
}
use nifty.Timespec.{Timespec, InRange}
use nifty.Task.Heap.{Heap, swap_tasks, largest_child, downheap_loop, downheap}
use nifty.Task.Heap.Order.{
  parent, Fits, due, IsHeap, IsBridged, due-swap_tasks, length-swap_tasks, swap_tasks_keeps,
  comp_tasks_neg,
}

module _ (abstime : ℕ → Timespec) (inside : (p : ℕ) → InRange (abstime p)) where
  -- Only the children of `i` may be due before their parent.
  pub record IsDown (h : Heap) (i : ℕ) : Type 0 where
    pub fits : Fits h
    pub edges :
        (c : ℕ) → 0 < c → c < h.count → parent c ≢ i → due abstime h (parent c) ≤ due abstime h c
    pub bridged : IsBridged abstime h i

  -- `m` is a child of `i`, and none is due before it.
  record IsFirstChild (h : Heap) (i m : ℕ) : Type 0 where
    exists : m < h.count
    child : (m ≡ 2 * i + 1) ⊎ (m ≡ 2 * i + 2)
    least : (c : ℕ) → 0 < c → c < h.count → parent c ≡ i → due abstime h m ≤ due abstime h c

  largest_child-IsFirstChild :
      (h : Heap) (i : ℕ) → i < h.count / 2 → IsFirstChild h i (largest_child abstime h i)
  unfolding largest_child
  largest_child-IsFirstChild h i lt =
      grind (arith, comp_tasks_neg abstime h (2 * i + 1) (2 * i + 1 + 1) inside)

  swap_tasks-IsDown :
      (h : Heap) (i m : ℕ)
      → IsDown h i
      → IsFirstChild h i m
      → due abstime h m < due abstime h i
      → IsDown (swap_tasks h i m) m
  swap_tasks-IsDown h i m d s below =
      let keeps = swap_tasks_keeps h i m in
      let hi : i < length h.tasks = omega (arith, s.exists, d.fits) in
      let hm : m < length h.tasks = omega (arith, s.exists, d.fits) in
      let at = λ (c : ℕ). due-swap_tasks abstime h i m c hi hm in
      record {
        fits = ground (arith, length-swap_tasks h i m, d.fits);
        edges = λ c p q r. ground (arith, at c, at (parent c), d.edges c, d.bridged m, s.least c);
        bridged = λ c p q r t. ground (arith, at c, at (parent m), d.edges c);
      }

  downheap_loop-IsHeap :
      (n : ℕ) (h : Heap) (i : ℕ)
      → h.count ≤ n + i
      → IsDown h i
      → IsHeap abstime (downheap_loop abstime n h i)
  unfolding downheap_loop
  downheap_loop-IsHeap zero h i f d = λ c p q. d.edges c p q (omega arith)
  downheap_loop-IsHeap (suc n) h i f d = elim (Bool-cases (ltb i (h.count / 2))) [
    | inr leaf ↦ rw leaf (λ c p q. d.edges c p q (ground arith))
    | inl more ↦
        let m = largest_child abstime h i in
        let s = largest_child-IsFirstChild h i (ltb→lt _ _ more) in
        rw (more, comp_tasks_neg abstime h i m inside)
          (elim (Bool-cases (ltb (due abstime h m) (due abstime h i))) [
            | inl below ↦ rw below (
                downheap_loop-IsHeap n (swap_tasks h i m) m
                  (ground (arith, swap_tasks_keeps h i m, s.child))
                  (swap_tasks-IsDown h i m d s (ltb→lt _ _ below)))
            | inr settled ↦ rw settled (λ c p q. ground (arith, d.edges c, s.least c))
          ])
  ]

  pub downheap-IsHeap : (h : Heap) (i : ℕ) → IsDown h i → IsHeap abstime (downheap abstime h i)
  unfolding downheap
  downheap-IsHeap h i d = downheap_loop-IsHeap h.count h i (omega arith) d
