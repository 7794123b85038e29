-- ===== src/Task/Heap/Index.antt =====
-- The field `index` of every task: where it stands in the heap, and -1 outside it. The tasks of
-- the heap are those with an index.
use nifty.Base.{
  ℕ, zero, suc, ◌/◌, ◌<◌, ◌≡◌, ◌∙◌, refl, Bool, true, false, ltb, ltb→lt, arith, length, inl, inr,
  Bool-cases, none, some,
}
use nifty.Timespec.{Timespec, is_neg64}
use nifty.Task.Heap.{
  Heap, task_at, swap_tasks, comp_tasks, largest_child, upheap_loop, upheap, downheap_loop,
  downheap,
}
use nifty.Task.Heap.Order.{parent, Fits, task_at-swap_tasks, length-swap_tasks, swap_tasks_keeps}

abbrev pub is_scheduled : Heap → ℕ → Bool
is_scheduled h p = elim (h.index p) [ none ↦ false | some i ↦ true ]

-- The index of a task leads to it, and every task in the heap has its index.
pub record IsIndexed (h : Heap) : Type 0 where
  pub fits : Fits h
  pub forward : (i : ℕ) → i < h.count → h.index (task_at h i) ≡ some i
  pub back : (p i : ℕ) → h.index p ≡ some i → (i < h.count) × (task_at h i ≡ p)

-- The same tasks, in another order.
pub record SameTasks (h r : Heap) : Type 0 where
  pub indexed : IsIndexed r
  pub scheduled : (p : ℕ) → is_scheduled r p ≡ is_scheduled h p
  pub count : r.count ≡ h.count
  pub size : r.size ≡ h.size
  pub stored : length r.tasks ≡ length h.tasks
  pub is_min : r.is_min ≡ h.is_min

SameTasks-refl : (h : Heap) → IsIndexed h → SameTasks h h
SameTasks-refl h x = record {
  indexed = x;
  scheduled = λ p. refl;
  count = refl;
  size = refl;
  stored = refl;
  is_min = refl;
}

SameTasks-trans : (h r s : Heap) → SameTasks h r → SameTasks r s → SameTasks h s
SameTasks-trans h r s a b = record {
  indexed = b.indexed;
  scheduled = λ p. b.scheduled p ∙ a.scheduled p;
  count = b.count ∙ a.count;
  size = b.size ∙ a.size;
  stored = b.stored ∙ a.stored;
  is_min = b.is_min ∙ a.is_min;
}

module _ (h : Heap) (x y : ℕ) (v : IsIndexed h) (hx : x < h.count) (hy : y < h.count) where
  swapped_forward :
      (i : ℕ) → i < h.count → (swap_tasks h x y).index (task_at (swap_tasks h x y) i) ≡ some i
  unfolding swap_tasks
  swapped_forward i lt =
      ground
        (arith, v.fits, v.forward i lt, v.forward x hx, v.forward y hy, task_at-swap_tasks h x y i)

  swapped_back :
      (p i : ℕ)
      → (swap_tasks h x y).index p ≡ some i
      → (i < h.count) × (task_at (swap_tasks h x y) i ≡ p)
  unfolding swap_tasks
  swapped_back p i e = ground (
    arith,
    v.fits,
    v.back p i,
    v.forward x hx,
    v.forward y hy,
    v.forward i,
    task_at-swap_tasks h x y i,
  )

  swapped_scheduled : (p : ℕ) → is_scheduled (swap_tasks h x y) p ≡ is_scheduled h p
  unfolding swap_tasks
  swapped_scheduled p = ground (arith, v.forward x hx, v.forward y hy)

  swap_tasks-SameTasks : SameTasks h (swap_tasks h x y)
  swap_tasks-SameTasks =
      let keeps = swap_tasks_keeps h x y in
      record {
        indexed = record {
          fits = ground (arith, v.fits, length-swap_tasks h x y);
          forward = λ i lt. swapped_forward i (ground arith);
          back = λ p i e. ground (arith, swapped_back p i e);
        };
        scheduled = swapped_scheduled;
        count = keeps.0;
        size = keeps.1;
        is_min = keeps.2;
        stored = length-swap_tasks h x y;
      }

module _ (abstime : ℕ → Timespec) where
  upheap_loop-SameTasks :
      (n : ℕ) (h : Heap) (i : ℕ)
      → IsIndexed h
      → i < h.count
      → SameTasks h (upheap_loop abstime n h i)
  unfolding upheap_loop
  upheap_loop-SameTasks zero h i v lt = SameTasks-refl h v
  upheap_loop-SameTasks (suc n) h i v lt = elim (Bool-cases (ltb 0 i)) [
    | inr root ↦ rw root (SameTasks-refl h v)
    | inl pos ↦ rw pos (elim (Bool-cases (is_neg64 (comp_tasks abstime h (parent i) i))) [
      | inr settled ↦ rw settled (SameTasks-refl h v)
      | inl below ↦
          let s = swap_tasks-SameTasks h (parent i) i v (omega arith) lt in
          rw below (
            SameTasks-trans h (swap_tasks h (parent i) i) _ s (
              upheap_loop-SameTasks n (swap_tasks h (parent i) i) (parent i) s.indexed
                (omega (arith, s.count))))
    ])
  ]

  largest_child-lt : (h : Heap) (i : ℕ) → i < h.count / 2 → largest_child abstime h i < h.count
  unfolding largest_child
  largest_child-lt h i lt = ground arith

  downheap_loop-SameTasks :
      (n : ℕ) (h : Heap) (i : ℕ) → IsIndexed h → SameTasks h (downheap_loop abstime n h i)
  unfolding downheap_loop
  downheap_loop-SameTasks zero h i v = SameTasks-refl h v
  downheap_loop-SameTasks (suc n) h i v = elim (Bool-cases (ltb i (h.count / 2))) [
    | inr leaf ↦ rw leaf (SameTasks-refl h v)
    | inl more ↦
        let m = largest_child abstime h i in
        rw more (elim (Bool-cases (is_neg64 (comp_tasks abstime h i m))) [
          | inr settled ↦ rw settled (SameTasks-refl h v)
          | inl below ↦
              let inner = ltb→lt _ _ more in
              let s = swap_tasks-SameTasks h i m v (omega arith) (largest_child-lt h i inner) in
              rw below (
                SameTasks-trans h (swap_tasks h i m) _ s
                  (downheap_loop-SameTasks n (swap_tasks h i m) m s.indexed))
        ])
  ]

  pub upheap-SameTasks :
      (h : Heap) (i : ℕ) → IsIndexed h → i < h.count → SameTasks h (upheap abstime h i)
  unfolding upheap
  upheap-SameTasks h i v lt = upheap_loop-SameTasks i h i v lt

  pub downheap-SameTasks : (h : Heap) (i : ℕ) → IsIndexed h → SameTasks h (downheap abstime h i)
  unfolding downheap
  downheap-SameTasks h i v = downheap_loop-SameTasks h.count h i v
