-- ===== src/Task/Heap/Delete.antt =====
-- heap_delete, for times less than some two seconds apart, and what becomes of it beyond, where
-- the difference of the times loses its sign as it is cut to an `int`.
use nifty.Base.{
  ℕ, zero, suc, ◌+◌, ◌-◌, ◌%◌, ◌≤◌, ◌<◌, ◌≡◌, ◌∙◌, refl, true, false, ltb, ◌==◌, if◌then◌else◌,
  arith, inl, inr, Bool-cases, get_or-set, length-set, Alloc,
}
use mathlib.Core.Path.{subst}
use nifty.Timespec.{
  Timespec, InRange, IsNear, is_pos32, is_neg32, word32, cut_comp_near, cut_comp_far,
}
use nifty.Task.Heap.{
  Heap, task_at, comp_tasks, shrink_if_sparse, upheap_loop, upheap, downheap, replace_by_last,
  heap_delete, take_out,
}
use nifty.Task.Heap.Order.{parent, due, IsHeap, comp_tasks_neg}
use nifty.Task.Heap.Up.{IsUp, upheap-IsHeap}
use nifty.Task.Heap.Index.{upheap-SameTasks}
use nifty.Task.Heap.Change.{
  Changed, drop_last-IsIndexed, drop_last-Changed, replace_by_last-IsIndexed,
  replace_by_last-Changed,
}
use nifty.Task.Heap.Resize.{shrink_if_sparse-Resized}
use nifty.Task.Heap.Ops.{
  IsValid, IsTaken, shrunk, replaced, replace_by_last-IsShaped, drop_last-IsShaped,
  drop_last-IsHeap, SameTasks-IsShaped,
}

module _ (abstime : ℕ → Timespec) (inside : (p : ℕ) → InRange (abstime p)) where
  count-replace_by_last : (h : Heap) (i : ℕ) → (replace_by_last h i).count ≡ h.count - 1
  unfolding replace_by_last
  count-replace_by_last h i = refl

  heap_delete-take_out :
      (mem : Alloc) (h : Heap) (i : ℕ)
      → heap_delete abstime mem h i ≡ shrink_if_sparse mem (take_out abstime h i)
  unfolding heap_delete
  heap_delete-take_out mem h i = refl

  module _ (h : Heap) (i : ℕ) (v : IsValid abstime h) (lt : suc i < h.count) where
    replace_by_last-IsUp :
        due abstime h (h.count - 1) ≤ due abstime h i → IsUp abstime inside (replace_by_last h i) i
    unfolding replace_by_last
    replace_by_last-IsUp sooner =
        let last = h.count - 1 in
        let at = λ (c : ℕ). get_or-set h.tasks i c (task_at h last) 0 in
        record {
          fits = ground (arith, v.indexed.fits, length-set h.tasks i (task_at h last));
          at = omega arith;
          edges = λ c p q r. ground (arith, v.indexed.fits, at c, at (parent c), v.ordered c);
          bridged = λ c p q r z.
              ground (arith, v.indexed.fits, at c, at (parent i), v.ordered c, v.ordered i);
        }

    -- The last task takes the place of one that is not due before it, and goes up.
    raised :
        due abstime h (h.count - 1) ≤ due abstime h i
        → IsTaken abstime h (task_at h i) (upheap abstime (replace_by_last h i) i)
    raised sooner =
        let u = replace_by_last-IsUp sooner in
        let inner : i < h.count = omega arith in
        let x = replace_by_last-IsIndexed h i v.indexed inner lt in
        let s = upheap-SameTasks abstime (replace_by_last h i) i x u.at in
        record {
          shaped = SameTasks-IsShaped _ _ (replace_by_last-IsShaped h i v.shaped) s;
          indexed = s.indexed;
          ordered = upheap-IsHeap abstime inside (replace_by_last h i) i u;
          changed = λ p. s.scheduled p ∙ replace_by_last-Changed h i v.indexed inner lt p;
        }

    replace_by_last-IsHeap :
        due abstime h (h.count - 1) ≡ due abstime h i → IsHeap abstime (replace_by_last h i)
    unfolding replace_by_last
    replace_by_last-IsHeap same c p q =
        let at = λ (c : ℕ). get_or-set h.tasks i c (task_at h (h.count - 1)) 0 in
        ground (arith, v.indexed.fits, at c, at (parent c), v.ordered c)

    kept :
        due abstime h (h.count - 1) ≡ due abstime h i
        → IsTaken abstime h (task_at h i) (replace_by_last h i)
    kept same =
        let inner : i < h.count = omega arith in
        record {
          shaped = replace_by_last-IsShaped h i v.shaped;
          indexed = replace_by_last-IsIndexed h i v.indexed inner lt;
          ordered = replace_by_last-IsHeap same;
          changed = replace_by_last-Changed h i v.indexed inner lt;
        }

    cut_comp :
        IsNear (abstime (task_at h (h.count - 1))) (abstime (task_at h i))
        → let comp = comp_tasks abstime h i (h.count - 1) % word32 in
          (is_pos32 comp ≡ ltb (due abstime h i) (due abstime h (h.count - 1)))
          × (is_neg32 comp ≡ ltb (due abstime h (h.count - 1)) (due abstime h i))
    unfolding comp_tasks
    cut_comp near = cut_comp_near _ _ (inside _) (inside _) near

    moved :
        IsNear (abstime (task_at h (h.count - 1))) (abstime (task_at h i))
        → let comp = comp_tasks abstime h i (h.count - 1) % word32 in
          IsTaken abstime h (task_at h i) (
            if is_pos32 comp
            then downheap abstime (replace_by_last h i) i
            else if is_neg32 comp
            then upheap abstime (replace_by_last h i) i
            else replace_by_last h i)
    moved near =
        let e = cut_comp near in
        rw (e.0, e.1)
          (elim (Bool-cases (ltb (due abstime h i) (due abstime h (h.count - 1)))) [
            | inl later ↦ rw later (replaced abstime inside h i v lt (ground arith))
            | inr other ↦
                rw other (elim (Bool-cases (ltb (due abstime h (h.count - 1)) (due abstime h i))) [
                  | inl sooner ↦ rw sooner (raised (ground arith))
                  | inr same ↦ rw same (kept (ground arith))
                ])
          ])

    take_out-IsTaken_inner :
        IsNear (abstime (task_at h (h.count - 1))) (abstime (task_at h i))
        → IsTaken abstime h (task_at h i) (take_out abstime h i)
    unfolding take_out
    take_out-IsTaken_inner near =
        let inner : ltb i (h.count - 1) ≡ true = ground arith in rw inner (moved near)

    due-replace_by_last :
        (c : ℕ)
        → due abstime (replace_by_last h i) c
          ≡ (if i == c then due abstime h (h.count - 1) else due abstime h c)
    unfolding replace_by_last
    due-replace_by_last c =
        ground (arith, v.indexed.fits, get_or-set h.tasks i c (task_at h (h.count - 1)) 0)

    -- A task that is not due before the task it replaces does not go up.
    settled :
        due abstime h i ≤ due abstime h (h.count - 1)
        → (n : ℕ) → upheap_loop abstime n (replace_by_last h i) i ≡ replace_by_last h i
    unfolding upheap_loop
    settled later zero = refl
    settled later (suc n) =
        let e = comp_tasks_neg abstime (replace_by_last h i) (parent i) i inside in
        elim (Bool-cases (ltb 0 i)) [
          | inr root ↦ rw root refl
          | inl pos ↦
              let stays : ltb (due abstime (replace_by_last h i) i)
                    (due abstime (replace_by_last h i) (parent i))
                  ≡ false =
                ground
                  (arith, v.ordered i, due-replace_by_last i, due-replace_by_last (parent i)) in
              rw (pos, e, stays) refl
        ]

    -- Where the last task is due 2 ^ 31 nanoseconds after the one it replaces, or a little more,
    -- it stays there.
    take_out_far :
        due abstime h i + 0x8000_0000 ≤ due abstime h (h.count - 1)
        → due abstime h (h.count - 1) < due abstime h i + word32
        → take_out abstime h i ≡ replace_by_last h i
    unfolding take_out upheap comp_tasks
    take_out_far far near =
        let e = cut_comp_far _ _ (inside _) (inside _) far near in
        let inner : ltb i (h.count - 1) ≡ true = ground arith in
        rw (inner, e.0, e.1) (settled (omega arith) i)

  take_out-IsTaken :
      (h : Heap) (i : ℕ)
      → IsValid abstime h
      → i < h.count
      → IsNear (abstime (task_at h (h.count - 1))) (abstime (task_at h i))
      → IsTaken abstime h (task_at h i) (take_out abstime h i)
  unfolding take_out
  take_out-IsTaken h i v lt near = elim (Bool-cases (ltb i (h.count - 1))) [
    | inl inner ↦ take_out-IsTaken_inner h i v (ground arith) near
    | inr last ↦ rw last (record {
      shaped = drop_last-IsShaped h i v.shaped;
      indexed = drop_last-IsIndexed h i v.indexed lt (ground arith);
      ordered = drop_last-IsHeap abstime h i v.ordered;
      changed = drop_last-Changed h i v.indexed lt;
    })
  ]

  -- heap_delete, at an index of a valid heap with times in range, where the task there and the
  -- last one are due less than 2 ^ 31 nanoseconds apart, leaves a valid heap of the tasks but that
  -- one.
  pub heap_delete_lem :
      (mem : Alloc) (h : Heap) (i : ℕ)
      → IsValid abstime h
      → i < h.count
      → IsNear (abstime (task_at h (h.count - 1))) (abstime (task_at h i))
      → let r = heap_delete abstime mem h i in IsValid abstime r × Changed h r (task_at h i) false
  heap_delete_lem mem h i v lt near = rw (heap_delete-take_out mem h i) (
      shrunk abstime mem h (take_out abstime h i) (task_at h i) v.null
        (take_out-IsTaken h i v lt near))

  -- heap_delete, at an index of a valid heap with times in range, leaves a heap out of order where
  -- the last task is due at least 2 ^ 31 and less than 2 ^ 32 nanoseconds after the deleted one,
  -- and after a child of it that is not the last.
  pub heap_delete_breaks :
      (mem : Alloc) (h : Heap) (i c : ℕ)
      → IsValid abstime h
      → 0 < c
      → suc c < h.count
      → parent c ≡ i
      → due abstime h c < due abstime h (h.count - 1)
      → due abstime h i + 0x8000_0000 ≤ due abstime h (h.count - 1)
      → due abstime h (h.count - 1) < due abstime h i + word32
      → ¬ IsHeap abstime (heap_delete abstime mem h i)
  heap_delete_breaks mem h i c v pos lt up sooner far near o =
      let inner : suc i < h.count = omega arith in
      let s = replace_by_last-IsShaped h i v.shaped in
      let x = replace_by_last-IsIndexed h i v.indexed (omega arith) inner in
      let e =
        shrink_if_sparse-Resized mem (replace_by_last h i) s (omega (arith, x.fits, s.stored)) in
      let n = count-replace_by_last h i in
      let o' : IsHeap abstime (shrink_if_sparse mem (replace_by_last h i)) =
        subst (λ (k : Heap). IsHeap abstime (shrink_if_sparse mem k))
          (take_out_far h i v inner far near)
          (subst (IsHeap abstime) (heap_delete-take_out mem h i) o) in
      ground (
        arith,
        e.count,
        n,
        o' c,
        e.tasks c,
        e.tasks (parent c),
        due-replace_by_last h i v inner c,
        due-replace_by_last h i v inner (parent c),
      )
