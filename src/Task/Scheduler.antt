-- ===== src/Task/Scheduler.antt =====
-- src/nft_task.c: creating, scheduling and cancelling tasks, and the rounds of the scheduler
-- thread. The mutex is held in every function here but while a task's action runs, so each is a
-- function of the state, and a round of the thread is the part between two releases of the mutex.
-- A handle is the address of its task, and leads to it as long as there are references.

pub mod System
pub mod Counts
pub mod Due
pub mod Cancel
mod Tests
use nifty.Base.{
  ℕ, ◌+◌, ◌-◌, Bool, true, false, not, ◌&&◌, ◌||◌, Option, none, some, ltb, ◌==◌, if◌then◌else◌,
  Alloc, Status, ok, einval, enomem, replicate,
}
use nifty.Timespec.{Timespec, nft_timespec_comp, nft_timespec_norm, nft_timespec_add, is_pos64}
use nifty.Task.Heap.{Heap, task_at, heap_init, heap_top, heap_insert, heap_pop, heap_delete}

-- Where the scheduler thread is: before a wait, in the loop over the tasks that are due at a time,
-- or with the mutex released, at the action of a task, which it discards afterwards or not.
pub data Phase : Type 0 where
  waiting : Phase
  checking : Timespec → Phase
  executing : ℕ → Bool → Timespec → Phase

-- The static variables, the fields of every `nft_task`, the references to it, which are none once
-- it is destroyed, and how often the condition was signalled.
pub record Scheduler : Type 0 where
  pub heap : Heap
  pub abstime : ℕ → Timespec
  pub interval : ℕ → Timespec
  pub function : ℕ → ℕ
  pub argument : ℕ → ℕ
  pub refs : ℕ → ℕ
  pub current : ℕ
  pub signals : ℕ
  pub phase : Phase

abbrev pub put {ℓ} : {A : Type ℓ} → (ℕ → A) → ℕ → A → ℕ → A
put f t a p = if p == t then a else f p

-- task_init; the thread that it creates is about to wait.
pub task_init : Scheduler → Scheduler
task_init s = record s { heap = heap_init s.heap; phase = waiting }

-- nft_task_discard; the last one destroys the task.
abbrev pub task_discard : Scheduler → ℕ → Scheduler
task_discard s t = record s { refs = put s.refs t (s.refs t - 1) }

abbrev pub task_lookup : Scheduler → ℕ → ℕ × Scheduler
task_lookup s h =
    if s.refs h == 0 then (0, s) else (h, record s { refs = put s.refs h (s.refs h + 1) })

-- `ts.tv_sec || ts.tv_nsec`
abbrev pub is_set : Timespec → Bool
is_set ts = not (ts.tv_sec == 0) || not (ts.tv_nsec == 0)

-- When a new task is due: at its time, or one interval from now.
pub first_time : Timespec → Timespec → Timespec → Timespec
first_time now abstime interval =
    nft_timespec_norm (if abstime.tv_sec == 0 then nft_timespec_add now interval else abstime)

-- nft_task_create; `calloc` is what nft_core_create returns, and `now` what nft_gettime does.
pub task_create : ℕ → Timespec → Scheduler → Timespec → Timespec → ℕ → ℕ → ℕ × Scheduler
task_create calloc now s abstime interval function argument =
    if not (not (abstime.tv_sec == 0) || is_set interval) || (function == 0)
    then (0, s)
    else if calloc == 0
    then (0, s)
    else (
      calloc,
      record s {
        refs = put s.refs calloc 1;
        heap = record s.heap { index = put s.heap.index calloc none };
        abstime = put s.abstime calloc (first_time now abstime interval);
        interval = put s.interval calloc interval;
        function = put s.function calloc function;
        argument = put s.argument calloc argument;
      },
    )

-- nft_task_schedule_task; the reference goes to the heap, or is discarded.
pub schedule_task : Alloc → Scheduler → ℕ → Status × Scheduler
schedule_task mem s task =
    let (done, heap) = heap_insert s.abstime mem s.heap task in
    let s' = record s { heap = heap } in
    if task == 0
    then (einval, s)
    else if done
    then (ok, if (heap_top heap).1 == task then record s' { signals = s.signals + 1 } else s')
    else (enomem, task_discard s' task)

-- `task->index >= 0 && task->index < Queue.count`, and `Queue.tasks[task->index] == task`.
abbrev pub is_queued : Heap → ℕ → Bool
is_queued h task = elim (h.index task) [
  | none ↦ false
  | some i ↦ ltb i h.count && (task_at h i == task)
]

abbrev pub place : Heap → ℕ → ℕ
place h task = elim (h.index task) [ none ↦ 0 | some i ↦ i ]

-- nft_task_cancel_task
pub cancel_task : Alloc → Scheduler → ℕ → Bool × Scheduler
cancel_task mem s task =
    let heap = heap_delete s.abstime mem s.heap (place s.heap task) in
    if is_queued s.heap task
    then (true, task_discard (record s { heap = heap }) task)
    else (false, s)

-- nft_task_schedule: the handle, or NULL.
pub schedule : ℕ → Timespec → Alloc → Scheduler → Timespec → Timespec → ℕ → ℕ → ℕ × Scheduler
schedule calloc now mem s abstime interval function argument =
    let (task, s') = task_create calloc now s abstime interval function argument in
    let (error, s'') = schedule_task mem s' task in
    if task == 0 then (0, s') else elim error [ ok ↦ (task, s'') | _ ↦ (0, s'') ]

-- nft_task_cancel: the argument of a task that was cancelled, or NULL.
pub cancel : Alloc → Scheduler → ℕ → ℕ × Scheduler
cancel mem s handle =
    let (task, s₁) = task_lookup s handle in
    let (result, s₂) = cancel_task mem s₁ task in
    if task == 0 then (0, s₁) else (if result then s₂.argument task else 0, task_discard s₂ task)

-- nft_task_this
pub task_this : Scheduler → ℕ
task_this s = s.current

-- task_thread, after the wait: `curr` is the time that it woke up.
pub wake : Scheduler → Timespec → Scheduler
wake s curr = record s { phase = checking curr }

-- `nft_timespec_comp(task->abstime, curr) > 0`
abbrev pub is_later : Scheduler → ℕ → Timespec → Bool
is_later s task curr = is_pos64 (nft_timespec_comp (s.abstime task) curr)

-- task_thread, a task that was popped: a repeated one is due again an interval later, and goes back
-- into the heap. The mutex is released.
pub dispatch : Alloc → Scheduler → ℕ → Timespec → Scheduler
dispatch mem s task curr =
    let abstime = put s.abstime task (nft_timespec_add (s.abstime task) (s.interval task)) in
    if is_set (s.interval task)
    then record s {
      abstime = abstime;
      heap = (heap_insert abstime mem s.heap task).1;
      current = task;
      phase = executing task false curr;
    }
    else record s { current = task; phase = executing task true curr }

-- task_thread, one test of the inner loop and what follows, up to the action of a task.
pub check : Alloc → Alloc → Scheduler → Timespec → Scheduler
check mem mem' s curr =
    let (count, top) = heap_top s.heap in
    let (task, heap) = heap_pop s.abstime mem s.heap in
    if (count == 0) || is_later s top curr
    then record s { phase = waiting }
    else dispatch mem' (record s { heap = heap }) task curr

-- task_thread, after the action.
pub after_action : Scheduler → ℕ → Bool → Timespec → Scheduler
after_action s task discard curr =
    let s' = record s { current = 0; phase = checking curr } in
    if discard then task_discard s' task else s'
