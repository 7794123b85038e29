-- ===== src/Task/Heap/Order.antt =====
-- The heap order: no task is due before its parent.
use nifty.Base.{
  ℕ, zero, suc, ◌-◌, ◌/◌, ◌≤◌, ◌<◌, ◌≡◌, ltb, ◌==◌, if◌then◌else◌, arith, length, get_or-set,
  length-set, set,
}
use nifty.Timespec.{Timespec, nanos, InRange, is_neg64, comp_neg}
use nifty.Task.Heap.{Heap, task_at, swap_tasks, comp_tasks}

abbrev pub parent : ℕ → ℕ
parent c = (c - 1) / 2

-- The array has a cell for every task.
abbrev pub Fits : Heap → Type 0
Fits h = h.count ≤ length h.tasks

-- What is at an index after two tasks have changed places.
pub task_at-swap_tasks :
    (h : Heap) (x y c : ℕ)
    → x < length h.tasks
    → y < length h.tasks
    → task_at (swap_tasks h x y) c
      ≡ (if y == c then task_at h x else if x == c then task_at h y else task_at h c)
unfolding swap_tasks
task_at-swap_tasks h x y c hx hy = ground (
  arith,
  length-set h.tasks x (task_at h y),
  get_or-set (set h.tasks x (task_at h y)) y c (task_at h x) 0,
  get_or-set h.tasks x c (task_at h y) 0,
)

pub length-swap_tasks : (h : Heap) (x y : ℕ) → length (swap_tasks h x y).tasks ≡ length h.tasks
unfolding swap_tasks
length-swap_tasks h x y = ground (
  arith,
  length-set h.tasks x (task_at h y),
  length-set (set h.tasks x (task_at h y)) y (task_at h x),
)

pub swap_tasks_keeps :
    (h : Heap) (x y : ℕ)
    → ((swap_tasks h x y).count ≡ h.count)
      × ((swap_tasks h x y).size ≡ h.size)
      × ((swap_tasks h x y).is_min ≡ h.is_min)
unfolding swap_tasks
swap_tasks_keeps h x y = ground arith

module _ (abstime : ℕ → Timespec) where
  -- When the task at an index is due.
  abbrev pub due : Heap → ℕ → ℕ
  due h i = nanos (abstime (task_at h i))

  abbrev pub IsHeap : Heap → Type 0
  IsHeap h = (c : ℕ) → 0 < c → c < h.count → due h (parent c) ≤ due h c

  -- The children of `i` are not due before the parent of `i`.
  abbrev pub IsBridged : Heap → ℕ → Type 0
  IsBridged h i = (c : ℕ) → 0 < c → c < h.count → parent c ≡ i → 0 < i → due h (parent i) ≤ due h c

  pub due-swap_tasks :
      (h : Heap) (x y c : ℕ)
      → x < length h.tasks
      → y < length h.tasks
      → due (swap_tasks h x y) c ≡ (if y == c then due h x else if x == c then due h y else due h c)
  due-swap_tasks h x y c hx hy = ground (arith, task_at-swap_tasks h x y c hx hy)

  -- comp_tasks is negative where the second task is due first.
  pub comp_tasks_neg :
      (h : Heap) (x y : ℕ)
      → ((p : ℕ) → InRange (abstime p))
      → is_neg64 (comp_tasks abstime h x y) ≡ ltb (due h y) (due h x)
  unfolding comp_tasks
  comp_tasks_neg h x y inside =
      comp_neg (abstime (task_at h y)) (abstime (task_at h x)) (inside _) (inside _)

  root_least_below : (k : ℕ) (h : Heap) (i : ℕ) → IsHeap h → i < k → i < h.count → due h 0 ≤ due h i
  root_least_below zero h i o f p = absurd (omega arith)
  root_least_below (suc k) h zero o f p = omega arith
  root_least_below (suc k) h (suc i) o f p = omega (
    arith,
    o (suc i) (omega arith) p,
    root_least_below k h (parent (suc i)) o (omega arith) (omega arith),
  )

  -- No task of a heap is due before the one at the top.
  pub root_least : (h : Heap) (i : ℕ) → IsHeap h → i < h.count → due h 0 ≤ due h i
  root_least h i o p = root_least_below (suc i) h i o (omega arith) p
