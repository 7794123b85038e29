-- ===== src/Task/Heap/Resize.antt =====
-- Resizing the array of the heap keeps the tasks in their places.
use nifty.Base.{
  ℕ, ◌/◌, ◌≤◌, ◌<◌, ◌≡◌, ◌≢◌, ◌⊎◌, ◌∙◌, refl, Bool, true, false, ltb, leb, not, ◌==◌, arith, length,
  inl, inr, Bool-cases, none, some, ◌&&◌, Alloc, take, get_or-take, get_or-append, length-take,
  length-append, length-cells, cells, ◌++◌,
}
use nifty.Task.Heap.{Heap, min_size, task_at, heap_resize, shrink_if_sparse}

-- The array is as long as `size` says, and is `min` when that is the least size.
pub record IsShaped (h : Heap) : Type 0 where
  pub stored : length h.tasks ≡ h.size
  pub large : min_size ≤ h.size
  pub minimal : h.is_min ≡ (h.size == min_size)

-- Another array with the same tasks at the same places.
pub record Resized (h r : Heap) : Type 0 where
  pub shaped : IsShaped r
  pub fits : r.count ≤ r.size
  pub count : r.count ≡ h.count
  pub index : (p : ℕ) → r.index p ≡ h.index p
  pub tasks : (c : ℕ) → c < h.count → task_at r c ≡ task_at h c

pub Resized-refl : (h : Heap) → IsShaped h → h.count ≤ h.size → Resized h h
Resized-refl h s fits = record {
  shaped = s;
  fits = fits;
  count = refl;
  index = λ p. refl;
  tasks = λ c l. refl;
}

module _ (mem : Alloc) (h : Heap) (n : ℕ) (s : IsShaped h) (fits : h.count ≤ n)
    (small : h.count ≤ h.size) where
  -- Resizing the array of a heap to another size that has room for the tasks and is not below the
  -- least keeps the tasks in their places, or it fails and changes nothing.
  pub heap_resize_lem :
      min_size ≤ n
      → n ≢ h.size
      → (((heap_resize mem h n).0 ≡ true)
          × Resized h (heap_resize mem h n).1
          × ((heap_resize mem h n).1.size ≡ n))
        ⊎ (heap_resize mem h n ≡ (false, h))
  unfolding heap_resize
  heap_resize_lem large other = elim (Bool-cases (not (h.size == min_size) && (n == min_size))) [
    | inl e ↦ rw e (
        inl (
          refl,
          record {
            shaped = record {
              stored = ground (arith, s.stored, length-take n h.tasks);
              large = large;
              minimal = ground arith;
            };
            fits = fits;
            count = refl;
            index = λ p. refl;
            tasks = λ c l. get_or-take n h.tasks c 0 (omega arith);
          },
          refl,
        ))
    | inr e ↦ rw e (by_allocation mem e)
  ]
    where
      by_allocation :
          (m : Alloc)
          → (not (h.size == min_size) && (n == min_size)) ≡ false
          → let r : Bool × Heap = elim m [
            | none ↦ (false, h)
            | some junk ↦ (
              true,
              record h { tasks = take n (h.tasks ++ cells junk n); is_min = false; size = n },
            )
          ] in
            ((r.0 ≡ true) × Resized h r.1 × (r.1.size ≡ n)) ⊎ (r ≡ (false, h))
      by_allocation none e = inr refl
      by_allocation (some junk) e = inl (
        refl,
        record {
          shaped = record {
            stored = ground (
              arith,
              length-take n (h.tasks ++ cells junk n),
              length-append h.tasks (cells junk n),
              length-cells junk n,
            );
            large = large;
            minimal = ground arith;
          };
          fits = fits;
          count = refl;
          index = λ p. refl;
          tasks = λ c l.
              get_or-take n (h.tasks ++ cells junk n) c 0 (omega arith)
              ∙ get_or-append h.tasks (cells junk n) c 0 (omega (arith, s.stored));
        },
        refl,
      )

-- The array that is halved when it is sparse keeps the tasks.
pub shrink_if_sparse-Resized :
    (mem : Alloc) (h : Heap) → IsShaped h → h.count ≤ h.size → Resized h (shrink_if_sparse mem h)
unfolding shrink_if_sparse
shrink_if_sparse-Resized mem h s small =
    elim (Bool-cases (ltb h.count (h.size / 4) && leb min_size (h.size / 2))) [
      | inr e ↦ rw e (Resized-refl h s small)
      | inl e ↦
          rw e
            (elim (heap_resize_lem mem h (h.size / 2) s (ground arith) small (ground arith)
              (ground (arith, s.large))) [
                | inl done ↦ done.1
                | inr failed ↦ rw failed (Resized-refl h s small)
              ])
    ]
