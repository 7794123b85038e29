-- ===== src/Task/Heap/Room.antt =====
-- A task that the scheduler thread takes from the heap can always be put back: heap_pop leaves
-- room, so that heap_insert does not need to allocate.
use nifty.Base.{
  ℕ, ◌-◌, ◌/◌, ◌<◌, ◌≡◌, ◌≢◌, ◌∙◌, refl, true, false, ltb, leb, ◌&&◌, ◌==◌, if◌then◌else◌, arith,
  inl, inr, Bool-cases, Alloc, none,
}
use nifty.Timespec.{Timespec, InRange}
use nifty.Task.Heap.{
  Heap, task_at, shrink_if_sparse, downheap, replace_by_last, drop_last, heap_insert, heap_pop,
  heap_top, heap_init,
}
use nifty.Task.Heap.Order.{parent}
use nifty.Task.Heap.Index.{is_scheduled, downheap-SameTasks}
use nifty.Task.Heap.Change.{replace_by_last-IsIndexed}
use nifty.Task.Heap.Resize.{IsShaped, heap_resize_lem, shrink_if_sparse-Resized}
use nifty.Task.Heap.Ops.{
  IsValid, heap_pop-some, task_at-some, SameTasks-IsShaped, replace_by_last-IsShaped,
  drop_last-IsShaped,
}

abbrev pub HasRoom : Heap → Type 0
HasRoom h = h.count < h.size

shrink_if_sparse-HasRoom :
    (mem : Alloc) (h : Heap) → IsShaped h → HasRoom h → HasRoom (shrink_if_sparse mem h)
unfolding shrink_if_sparse
shrink_if_sparse-HasRoom mem h s room =
    elim (Bool-cases (ltb h.count (h.size / 4) && leb 32 (h.size / 2))) [
      | inr e ↦ rw e room
      | inl e ↦
          rw e
            (elim (heap_resize_lem mem h (h.size / 2) s (ground arith) (ground arith) (ground arith)
              (ground (arith, s.large))) [
                | inl done ↦ ground (arith, done.1.count, done.2)
                | inr failed ↦ rw failed room
              ])
    ]

pub count-heap_top : (h : Heap) → (heap_top h).0 ≡ h.count
unfolding heap_top
count-heap_top h = refl

pub heap_top_some : (h : Heap) → 0 < h.count → (heap_top h).1 ≡ task_at h 0
unfolding heap_top
heap_top_some h pos = ground arith

pub index-heap_init : (h : Heap) (p : ℕ) → (heap_init h).index p ≡ h.index p
unfolding heap_init
index-heap_init h p = refl

-- A heap that is set up, while no task has an index.
pub heap_init-IsValid :
    (abstime : ℕ → Timespec) (h : Heap)
    → ((p : ℕ) → h.index p ≡ none)
    → IsValid abstime (heap_init h)
unfolding heap_init
heap_init-IsValid abstime h clear = record {
  shaped = record { stored = refl; large = omega arith; minimal = refl };
  indexed = record {
    fits = omega arith;
    forward = λ i l. absurd (omega arith);
    back = λ p i q. ground (arith, clear p);
  };
  null = clear 0;
  ordered = λ c p q. absurd (omega arith);
}

-- The sizes of a heap without its top task.
record IsLess (h r : Heap) : Type 0 where
  shaped : IsShaped r
  count : r.count ≡ h.count - 1
  size : r.size ≡ h.size

drop_last-IsLess : (h : Heap) (i : ℕ) → IsShaped h → IsLess h (drop_last h i)
unfolding drop_last
drop_last-IsLess h i s = record { shaped = drop_last-IsShaped h i s; count = refl; size = refl }

replace_by_last-IsLess : (h : Heap) (i : ℕ) → IsShaped h → IsLess h (replace_by_last h i)
unfolding replace_by_last
replace_by_last-IsLess h i s = record {
  shaped = replace_by_last-IsShaped h i s;
  count = refl;
  size = refl;
}

-- The heap stays valid as the time of a task outside it is set.
pub IsValid-untouched :
    (a b : ℕ → Timespec) (h : Heap) (t : ℕ)
    → IsValid a h
    → is_scheduled h t ≡ false
    → ((p : ℕ) → p ≢ t → b p ≡ a p)
    → IsValid b h
IsValid-untouched a b h t v out same =
    let at =
      λ (c : ℕ) (l : c < h.count). same (task_at h c) (ground (arith, v.indexed.forward c l)) in
    record {
      shaped = v.shaped;
      indexed = v.indexed;
      null = v.null;
      ordered = λ c p q. ground (arith, v.ordered c p q, at c q, at (parent c) (omega arith));
    }

module _ (abstime : ℕ → Timespec) (inside : (p : ℕ) → InRange (abstime p)) where
  without_top-IsLess :
      (h : Heap)
      → IsValid abstime h
      → 0 < h.count
      → IsLess h (if h.count == 1 then drop_last h 0 else downheap abstime (replace_by_last h 0) 0)
  without_top-IsLess h v pos = elim (Bool-cases (h.count == 1)) [
    | inl e ↦ rw e (drop_last-IsLess h 0 v.shaped)
    | inr e ↦
        let x = replace_by_last-IsIndexed h 0 v.indexed pos (ground arith) in
        let s = downheap-SameTasks abstime (replace_by_last h 0) 0 x in
        let l = replace_by_last-IsLess h 0 v.shaped in
        rw e (record {
          shaped = SameTasks-IsShaped _ _ l.shaped s;
          count = s.count ∙ l.count;
          size = s.size ∙ l.size;
        })
  ]

  pub heap_pop-HasRoom :
      (mem : Alloc) (h : Heap)
      → IsValid abstime h
      → 0 < h.count
      → HasRoom (heap_pop abstime mem h).1
        × ((heap_pop abstime mem h).1.count ≡ h.count - 1)
        × ((heap_pop abstime mem h).0 ≡ task_at h 0)
  heap_pop-HasRoom mem h v pos =
      let l = without_top-IsLess h v pos in
      let r = if h.count == 1 then drop_last h 0 else downheap abstime (replace_by_last h 0) 0 in
      let room : HasRoom r = ground (arith, l.count, l.size, v.indexed.fits, v.shaped.stored) in
      let e = heap_pop-some abstime inside mem h pos (task_at-some abstime h 0 v pos) in
      rw e (
        shrink_if_sparse-HasRoom mem r l.shaped room,
        ground (arith, (shrink_if_sparse-Resized mem r l.shaped (omega arith)).count, l.count),
        refl,
      )

  pub heap_insert_room :
      (mem : Alloc) (h : Heap) (t : ℕ) → HasRoom h → (heap_insert abstime mem h t).0 ≡ true
  unfolding heap_insert
  heap_insert_room mem h t room =
      let other : (h.count == h.size) ≡ false = ground arith in rw other refl
