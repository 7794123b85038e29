-- ===== src/Task/Heap/Ops.antt =====
-- heap_insert and heap_pop keep the heap a heap, and change it by the one task.
use nifty.Base.{
  ℕ, suc, ◌-◌, ◌*◌, ◌≤◌, ◌<◌, ◌≡◌, ◌≢◌, ◌⊎◌, ◌∙◌, refl, true, false, ◌==◌, if◌then◌else◌, arith,
  length, inl, inr, Bool-cases, none, get_or-set, length-set, Alloc,
}
use nifty.Timespec.{Timespec, nanos, InRange}
use nifty.Task.Heap.{
  Heap, task_at, heap_resize, shrink_if_sparse, upheap, downheap, add_last, insert_last,
  heap_insert, heap_top, replace_by_last, drop_last, heap_pop,
}
use nifty.Task.Heap.Order.{parent, due, IsHeap, root_least}
use nifty.Task.Heap.Up.{IsUp, upheap-IsHeap}
use nifty.Task.Heap.Down.{IsDown, downheap-IsHeap}
use nifty.Task.Heap.Index.{is_scheduled, IsIndexed, SameTasks, upheap-SameTasks, downheap-SameTasks}
use nifty.Task.Heap.Change.{
  Changed, drop_last-IsIndexed, drop_last-Changed, replace_by_last-IsIndexed,
  replace_by_last-Changed, add_last-IsIndexed, add_last-Changed,
}
use nifty.Task.Heap.Resize.{IsShaped, Resized, heap_resize_lem, shrink_if_sparse-Resized}

-- A heap between two calls: the array has its size, every task knows its index, NULL is no task,
-- and no task is due before its parent.
pub record IsValid (abstime : ℕ → Timespec) (h : Heap) : Type 0 where
  pub shaped : IsShaped h
  pub indexed : IsIndexed h
  pub null : h.index 0 ≡ none
  pub ordered : IsHeap abstime h

-- The tasks and the shape of the array of one heap are those of another.
pub record IsMoved (h r : Heap) : Type 0 where
  pub shaped : IsShaped r
  pub indexed : IsIndexed r
  pub scheduled : (p : ℕ) → is_scheduled r p ≡ is_scheduled h p

Resized-IsMoved : (h r : Heap) → IsIndexed h → Resized h r → IsMoved h r
Resized-IsMoved h r v e = record {
  shaped = e.shaped;
  indexed = record {
    fits = omega (arith, e.fits, e.shaped.stored);
    forward = λ i l. ground (arith, e.count, e.tasks i, e.index (task_at h i), v.forward i);
    back = λ p i q. ground (arith, e.count, e.tasks i, e.index p, v.back p i);
  };
  scheduled = λ p. ground (arith, e.index p);
}

Resized-IsHeap :
    (abstime : ℕ → Timespec) (h r : Heap) → IsHeap abstime h → Resized h r → IsHeap abstime r
Resized-IsHeap abstime h r o e c p q = ground (arith, e.count, e.tasks c, e.tasks (parent c), o c)

pub unscheduled : (h : Heap) (p : ℕ) → is_scheduled h p ≡ false → h.index p ≡ none
unscheduled h p e = ground arith

pub SameTasks-IsShaped : (h r : Heap) → IsShaped h → SameTasks h r → IsShaped r
SameTasks-IsShaped h r s e = record {
  stored = ground (arith, e.stored, e.size, s.stored);
  large = ground (arith, e.size, s.large);
  minimal = ground (arith, e.is_min, e.size, s.minimal);
}

-- A heap without the task `t`, in an array that may be sparse.
pub record IsTaken (abstime : ℕ → Timespec) (h : Heap) (t : ℕ) (r : Heap) : Type 0 where
  pub shaped : IsShaped r
  pub indexed : IsIndexed r
  pub ordered : IsHeap abstime r
  pub changed : Changed h r t false

-- The shrinking at the end of an operation keeps a heap without its one task valid.
pub shrunk :
    (abstime : ℕ → Timespec) (mem : Alloc) (h r : Heap) (t : ℕ)
    → h.index 0 ≡ none
    → IsTaken abstime h t r
    → IsValid abstime (shrink_if_sparse mem r) × Changed h (shrink_if_sparse mem r) t false
shrunk abstime mem h r t nil k =
    let s = k.shaped in
    let e = shrink_if_sparse-Resized mem r s (omega (arith, k.indexed.fits, s.stored)) in
    let m = Resized-IsMoved r (shrink_if_sparse mem r) k.indexed e in
    (
      record {
        shaped = m.shaped;
        indexed = m.indexed;
        null = unscheduled (shrink_if_sparse mem r) 0 (ground (arith, m.scheduled 0, k.changed 0));
        ordered = Resized-IsHeap abstime r _ k.ordered e;
      },
      λ p. m.scheduled p ∙ k.changed p,
    )

add_last-IsShaped : (h : Heap) (t : ℕ) → IsShaped h → IsShaped (add_last h t)
unfolding add_last
add_last-IsShaped h t s = record {
  stored = ground (arith, s.stored, length-set h.tasks h.count t);
  large = s.large;
  minimal = s.minimal;
}

pub replace_by_last-IsShaped : (h : Heap) (i : ℕ) → IsShaped h → IsShaped (replace_by_last h i)
unfolding replace_by_last
replace_by_last-IsShaped h i s = record {
  stored = ground (arith, s.stored, length-set h.tasks i (task_at h (h.count - 1)));
  large = s.large;
  minimal = s.minimal;
}

pub drop_last-IsShaped : (h : Heap) (i : ℕ) → IsShaped h → IsShaped (drop_last h i)
unfolding drop_last
drop_last-IsShaped h i s = record { stored = s.stored; large = s.large; minimal = s.minimal }

pub drop_last-IsHeap :
    (abstime : ℕ → Timespec) (h : Heap) (i : ℕ) → IsHeap abstime h → IsHeap abstime (drop_last h i)
unfolding drop_last
drop_last-IsHeap abstime h i o c p q = o c p (omega arith)

-- A task of the heap is not NULL.
pub task_at-some :
    (abstime : ℕ → Timespec) (h : Heap) (i : ℕ) → IsValid abstime h → i < h.count → task_at h i ≢ 0
task_at-some abstime h i v lt = ground (arith, v.indexed.forward i lt, v.null)

module _ (abstime : ℕ → Timespec) (inside : (p : ℕ) → InRange (abstime p)) where
  add_last-IsUp :
      (h : Heap) (t : ℕ)
      → IsHeap abstime h
      → h.count < length h.tasks
      → IsUp abstime inside (add_last h t) h.count
  unfolding add_last
  add_last-IsUp h t o room = record {
    fits = ground (arith, length-set h.tasks h.count t);
    at = omega arith;
    edges = λ c p q r.
        ground
          (arith, o c, get_or-set h.tasks h.count c t 0, get_or-set h.tasks h.count (parent c) t 0);
    bridged = λ c p q r z. ground arith;
  }

  insert_last_lem :
      (h : Heap) (t : ℕ)
      → IsValid abstime h
      → h.count < h.size
      → t ≢ 0
      → is_scheduled h t ≡ false
      → IsValid abstime (insert_last abstime h t) × Changed h (insert_last abstime h t) t true
  unfolding insert_last
  insert_last_lem h t v room some' new =
      let fits : h.count < length h.tasks = omega (arith, v.shaped.stored) in
      let x = add_last-IsIndexed h t v.indexed fits (unscheduled h t new) in
      let ch = add_last-Changed h t v.indexed fits (unscheduled h t new) in
      let u = add_last-IsUp h t v.ordered fits in
      let s = upheap-SameTasks abstime (add_last h t) h.count x u.at in
      (
        record {
          shaped = SameTasks-IsShaped (add_last h t) _ (add_last-IsShaped h t v.shaped) s;
          indexed = s.indexed;
          null =
              unscheduled (upheap abstime (add_last h t) h.count) 0
                (ground (arith, s.scheduled 0, ch 0, v.null));
          ordered = upheap-IsHeap abstime inside (add_last h t) h.count u;
        },
        λ p. s.scheduled p ∙ ch p,
      )

  -- Where the times are in range, a task that is not NULL and not in a valid heap goes in, and
  -- what comes of it is a valid heap of the tasks it had and this one; or there is no memory for a
  -- larger array, and nothing has changed.
  pub heap_insert_lem :
      (mem : Alloc) (h : Heap) (t : ℕ)
      → IsValid abstime h
      → t ≢ 0
      → is_scheduled h t ≡ false
      → let r = heap_insert abstime mem h t in
        ((r.0 ≡ true) × IsValid abstime r.1 × Changed h r.1 t true) ⊎ (r ≡ (false, h))
  unfolding heap_insert
  heap_insert_lem mem h t v some' new = elim (Bool-cases (h.count == h.size)) [
    | inr room ↦ rw room (
        let g = insert_last_lem h t v (ground (arith, v.indexed.fits, v.shaped.stored)) some' new in
        inl (refl, g.0, g.1))
    | inl full ↦
        rw full
          (elim (heap_resize_lem mem h (2 * h.size) v.shaped (ground arith) (ground arith)
            (omega (arith, v.shaped.large)) (omega (arith, v.shaped.large))) [
              | inr failed ↦ rw failed (inr refl)
              | inl done ↦
                  let r = (heap_resize mem h (2 * h.size)).1 in
                  let m = Resized-IsMoved h r v.indexed done.1 in
                  let w : IsValid abstime r = record {
                    shaped = m.shaped;
                    indexed = m.indexed;
                    null = unscheduled r 0 (ground (arith, m.scheduled 0, v.null));
                    ordered = Resized-IsHeap abstime h r v.ordered done.1;
                  } in
                  let g =
                    insert_last_lem r t w (ground (arith, done.2, done.1.count, v.shaped.large))
                      some' (m.scheduled t ∙ new) in
                  rw done.0 (inl (refl, g.0, λ p. ground (arith, g.1 p, m.scheduled p)))
            ])
  ]

  replace_by_last-IsDown :
      (h : Heap) (i : ℕ)
      → IsValid abstime h
      → suc i < h.count
      → due abstime h i ≤ due abstime h (h.count - 1)
      → IsDown abstime inside (replace_by_last h i) i
  unfolding replace_by_last
  replace_by_last-IsDown h i v lt later =
      let last = h.count - 1 in
      let at = λ (c : ℕ). get_or-set h.tasks i c (task_at h last) 0 in
      record {
        fits = ground (arith, v.indexed.fits, length-set h.tasks i (task_at h last));
        edges = λ c p q r. ground (arith, v.indexed.fits, at c, at (parent c), v.ordered c);
        bridged = λ c p q r z.
            ground (arith, v.indexed.fits, at c, at (parent i), v.ordered c, v.ordered i);
      }

  -- The last task takes the place of one that is not due after it, and goes down.
  pub replaced :
      (h : Heap) (i : ℕ)
      → IsValid abstime h
      → suc i < h.count
      → due abstime h i ≤ due abstime h (h.count - 1)
      → IsTaken abstime h (task_at h i) (downheap abstime (replace_by_last h i) i)
  replaced h i v lt later =
      let d = replace_by_last-IsDown h i v lt later in
      let inner : i < h.count = omega arith in
      let x = replace_by_last-IsIndexed h i v.indexed inner lt in
      let s = downheap-SameTasks abstime (replace_by_last h i) i x in
      record {
        shaped = SameTasks-IsShaped _ _ (replace_by_last-IsShaped h i v.shaped) s;
        indexed = s.indexed;
        ordered = downheap-IsHeap abstime inside (replace_by_last h i) i d;
        changed = λ p. s.scheduled p ∙ replace_by_last-Changed h i v.indexed inner lt p;
      }

  pub heap_pop-some :
      (mem : Alloc) (h : Heap)
      → 0 < h.count
      → task_at h 0 ≢ 0
      → heap_pop abstime mem h ≡ (
        task_at h 0,
        shrink_if_sparse mem
            (if h.count == 1 then drop_last h 0 else downheap abstime (replace_by_last h 0) 0),
      )
  unfolding heap_pop heap_top
  heap_pop-some mem h pos some' = ground arith

  without_top :
      (h : Heap)
      → IsValid abstime h
      → 0 < h.count
      → IsTaken abstime h
          (task_at h 0)
          (if h.count == 1 then drop_last h 0 else downheap abstime (replace_by_last h 0) 0)
  without_top h v pos = elim (Bool-cases (h.count == 1)) [
    | inl e ↦ rw e (record {
      shaped = drop_last-IsShaped h 0 v.shaped;
      indexed = drop_last-IsIndexed h 0 v.indexed pos (ground arith);
      ordered = drop_last-IsHeap abstime h 0 v.ordered;
      changed = drop_last-Changed h 0 v.indexed pos;
    })
    | inr e ↦
        let two : 1 < h.count = ground arith in
        let later = root_least abstime h (h.count - 1) v.ordered (omega arith) in
        rw e (replaced h 0 v two later)
  ]

  -- From a valid heap with tasks, where the times are in range, heap_pop takes a task of the heap
  -- that is not due after any other, and leaves a valid heap of the others, whether or not the
  -- array could be shrunk.
  pub heap_pop_lem :
      (mem : Alloc) (h : Heap) (i : ℕ)
      → IsValid abstime h
      → i < h.count
      → let r = heap_pop abstime mem h in
        (is_scheduled h r.0 ≡ true)
        × (nanos (abstime r.0) ≤ due abstime h i)
        × IsValid abstime r.1
        × Changed h r.1 r.0 false
  heap_pop_lem mem h i v l =
      let pos : 0 < h.count = omega arith in
      let e = heap_pop-some mem h pos (task_at-some abstime h 0 v pos) in
      let g = shrunk abstime mem h _ (task_at h 0) v.null (without_top h v pos) in
      rw e (ground (arith, v.indexed.forward 0 pos), root_least abstime h i v.ordered l, g.0, g.1)
