-- ===== src/Task/Heap.antt =====
-- src/nft_task.c, HEAP IMPLEMENTATION: the pending tasks as a binary heap, earliest first. A task
-- is its address; what the heap reads of it is its time, and what it writes is its index.
pub mod Order
pub mod Up
pub mod Down
pub mod Index
pub mod Change
pub mod Resize
pub mod Ops
pub mod Delete
pub mod Room
mod Tests
use nifty.Base.{
  ℕ, zero, suc, ◌+◌, ◌-◌, ◌*◌, ◌/◌, ◌%◌, Bool, true, false, not, ◌&&◌, Option, none, some, List, [],
  ◌∷◌, ◌++◌, ltb, leb, ◌==◌, if◌then◌else◌, get_or, set, take, replicate, Alloc, cells,
}
use nifty.Timespec.{Timespec, nft_timespec_comp, is_neg64, is_pos32, is_neg32, word32}

-- MIN_SIZE
abbrev pub min_size : ℕ
min_size = 32

-- `heap_t`, whether `tasks` is the array `min`, and the field `index` of every task (`none` is -1).
pub record Heap : Type 0 where
  pub size : ℕ
  pub count : ℕ
  pub tasks : List ℕ
  pub is_min : Bool
  pub index : ℕ → Option ℕ

abbrev pub update : (ℕ → Option ℕ) → ℕ → Option ℕ → ℕ → Option ℕ
update f p v q = if p == q then v else f q

-- heap->tasks[i]
abbrev pub task_at : Heap → ℕ → ℕ
task_at h i = get_or h.tasks i 0

-- swap_tasks
pub swap_tasks : Heap → ℕ → ℕ → Heap
swap_tasks h x y = record h {
  tasks = set (set h.tasks x (task_at h y)) y (task_at h x);
  index = update (update h.index (task_at h y) (some x)) (task_at h x) (some y);
}

-- heap_init, over the array that the static variable holds
unfoldable pub heap_init : Heap → Heap
heap_init h = record h { size = min_size; count = 0; tasks = replicate min_size 0; is_min = true }

-- heap_resize
pub heap_resize : Alloc → Heap → ℕ → Bool × Heap
heap_resize mem h nsize =
    if not (h.size == min_size) && (nsize == min_size)
    then (true, record h { tasks = take nsize h.tasks; is_min = true; size = nsize })
    else elim mem [
      | none ↦ (false, h)
      | some junk ↦ (
        true,
        record h { tasks = take nsize (h.tasks ++ cells junk nsize); is_min = false; size = nsize },
      )
    ]

-- heap_top: the count, and the top task or NULL.
unfoldable pub heap_top : Heap → ℕ × ℕ
heap_top h = (h.count, if h.count == 0 then 0 else task_at h 0)

-- The end of heap_pop and heap_delete: the array is halved when less than a quarter is in use.
pub shrink_if_sparse : Alloc → Heap → Heap
unfolding heap_resize
shrink_if_sparse mem h =
    if ltb h.count (h.size / 4) && leb min_size (h.size / 2)
    then (heap_resize mem h (h.size / 2)).1
    else h

-- heap_insert: the item goes behind the last task.
pub add_last : Heap → ℕ → Heap
add_last h item = record h {
  count = h.count + 1;
  tasks = set h.tasks h.count item;
  index = update h.index item (some h.count);
}

-- The task at `i` is replaced by the last one, where `i` is not the last.
pub replace_by_last : Heap → ℕ → Heap
replace_by_last h i =
    let last = h.count - 1 in
    record h {
      count = last;
      tasks = set h.tasks i (task_at h last);
      index = update (update h.index (task_at h i) none) (task_at h last) (some i);
    }

-- The task at `i`, the last one, is taken out.
pub drop_last : Heap → ℕ → Heap
drop_last h i = record h { count = h.count - 1; index = update h.index (task_at h i) none }

module _ (abstime : ℕ → Timespec) where
  -- comp_tasks
  pub comp_tasks : Heap → ℕ → ℕ → ℕ
  comp_tasks h x y = nft_timespec_comp (abstime (task_at h y)) (abstime (task_at h x))

  -- upheap; as many rounds as the index suffice, since it falls in each
  pub upheap_loop : ℕ → Heap → ℕ → Heap
  upheap_loop zero h child = h
  upheap_loop (suc n) h child =
      let parent = (child - 1) / 2 in
      let up = upheap_loop n (swap_tasks h parent child) parent in
      let step = if is_neg64 (comp_tasks h parent child) then up else h in
      if ltb 0 child then step else h

  pub upheap : Heap → ℕ → Heap
  unfolding upheap_loop comp_tasks swap_tasks
  upheap h child = upheap_loop child h child

  -- The child of `i` that is due first.
  pub largest_child : Heap → ℕ → ℕ
  largest_child h i =
      let child1 = 2 * i + 1 in
      let child2 = child1 + 1 in
      if ltb child2 h.count && is_neg64 (comp_tasks h child1 child2) then child2 else child1

  -- downheap; as many rounds as there are tasks suffice
  pub downheap_loop : ℕ → Heap → ℕ → Heap
  downheap_loop zero h i = h
  downheap_loop (suc n) h i =
      let largest = largest_child h i in
      let down = downheap_loop n (swap_tasks h i largest) largest in
      let step = if is_neg64 (comp_tasks h i largest) then down else h in
      if ltb i (h.count / 2) then step else h

  pub downheap : Heap → ℕ → Heap
  unfolding downheap_loop largest_child comp_tasks swap_tasks
  downheap h i = downheap_loop h.count h i

  -- heap_insert, once there is room
  pub insert_last : Heap → ℕ → Heap
  unfolding upheap add_last
  insert_last h item = upheap (add_last h item) h.count

  -- heap_insert
  unfoldable pub heap_insert : Alloc → Heap → ℕ → Bool × Heap
  unfolding insert_last heap_resize
  heap_insert mem h item =
      if h.count == h.size
      then (let (done, h') = heap_resize mem h (2 * h.size) in
          if done then (true, insert_last h' item) else (false, h'))
      else (true, insert_last h item)

  -- heap_pop: the task, or NULL, and the heap. It returns 1 if there was a task.
  unfoldable pub heap_pop : Alloc → Heap → ℕ × Heap
  unfolding replace_by_last drop_last downheap shrink_if_sparse heap_top
  heap_pop mem h = if (heap_top h).1 == 0 then (0, shrink_if_sparse mem h) else (
    task_at h 0,
    shrink_if_sparse mem (if h.count == 1 then drop_last h 0 else downheap (replace_by_last h 0) 0),
  )

  -- heap_delete, but for the array's size: the difference of the times is cut to an `int`.
  pub take_out : Heap → ℕ → Heap
  unfolding replace_by_last drop_last downheap upheap comp_tasks
  take_out h i =
      let comp = comp_tasks h i (h.count - 1) % word32 in
      let moved = replace_by_last h i in
      if ltb i (h.count - 1)
      then (if is_pos32 comp
          then downheap moved i
          else if is_neg32 comp
          then upheap moved i
          else moved)
      else drop_last h i

  -- heap_delete
  unfoldable pub heap_delete : Alloc → Heap → ℕ → Heap
  unfolding take_out shrink_if_sparse
  heap_delete mem h i = shrink_if_sparse mem (take_out h i)
