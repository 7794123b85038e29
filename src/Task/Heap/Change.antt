-- ===== src/Task/Heap/Change.antt =====
-- The steps that put one task into the heap, or take one out, before the order is restored.
use nifty.Base.{
  ℕ, suc, ◌-◌, ◌<◌, ◌≡◌, Bool, true, false, ◌==◌, if◌then◌else◌, arith, length, none, get_or-set,
  length-set,
}
use nifty.Task.Heap.{Heap, task_at, add_last, replace_by_last, drop_last}
use nifty.Task.Heap.Index.{IsIndexed, is_scheduled}

-- The same tasks but for one: `here` tells whether it is in the second heap.
abbrev pub Changed : Heap → Heap → ℕ → Bool → Type 0
Changed h r t here = (p : ℕ) → is_scheduled r p ≡ (if p == t then here else is_scheduled h p)

module _ (h : Heap) (i : ℕ) (v : IsIndexed h) (lt : i < h.count) where
  pub drop_last-IsIndexed : suc i ≡ h.count → IsIndexed (drop_last h i)
  unfolding drop_last
  drop_last-IsIndexed e = record {
    fits = omega (arith, v.fits);
    forward = λ j l. ground (arith, v.forward j, v.forward i);
    back = λ p j q. ground (arith, v.back p j, v.forward i);
  }

  pub drop_last-Changed : Changed h (drop_last h i) (task_at h i) false
  unfolding drop_last
  drop_last-Changed p = ground arith

  pub replace_by_last-IsIndexed : suc i < h.count → IsIndexed (replace_by_last h i)
  unfolding replace_by_last
  replace_by_last-IsIndexed e = record {
    fits = ground (arith, v.fits, length-set h.tasks i (task_at h (h.count - 1)));
    forward = λ j l. ground (
      arith,
      v.fits,
      v.forward j,
      v.forward i,
      v.forward (h.count - 1),
      get_or-set h.tasks i j (task_at h (h.count - 1)) 0,
    );
    back = λ p j q. ground (
      arith,
      v.fits,
      v.back p j,
      v.forward i,
      v.forward (h.count - 1),
      get_or-set h.tasks i j (task_at h (h.count - 1)) 0,
    );
  }

  pub replace_by_last-Changed :
      suc i < h.count → Changed h (replace_by_last h i) (task_at h i) false
  unfolding replace_by_last
  replace_by_last-Changed e p = ground (arith, v.forward i, v.forward (h.count - 1))

module _ (h : Heap) (t : ℕ) (v : IsIndexed h) (room : h.count < length h.tasks)
    (new : h.index t ≡ none) where
  pub add_last-IsIndexed : IsIndexed (add_last h t)
  unfolding add_last
  add_last-IsIndexed = record {
    fits = ground (arith, length-set h.tasks h.count t);
    forward = λ j l. ground (arith, v.forward j, get_or-set h.tasks h.count j t 0);
    back = λ p j q. ground (arith, v.back p j, get_or-set h.tasks h.count j t 0);
  }

  pub add_last-Changed : Changed h (add_last h t) t true
  unfolding add_last
  add_last-Changed p = ground arith
