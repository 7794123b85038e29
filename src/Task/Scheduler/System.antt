-- ===== src/Task/Scheduler/System.antt =====
-- The scheduler and its clients as a step relation: a step is a call, or the part of one, that
-- holds the mutex, so that an interleaving of the threads is a sequence of steps. A task is cancelled
-- only while its time is near to that of the last task of the heap, as heap_delete needs it.
use nifty.Base.{
  ℕ, ◌+◌, ◌-◌, ◌<◌, ◌≡◌, Bool, true, false, none, ◌==◌, if◌then◌else◌, Alloc, replicate,
}
use nifty.Timespec.{Timespec, InRange, IsNear, nft_timespec_add}
use nifty.Task.Heap.{Heap, task_at, heap_top, min_size}
use nifty.Task.Heap.Index.{is_scheduled}
use nifty.Task.Scheduler.{
  waiting, checking, executing, Scheduler, put, task_init, first_time, task_create, schedule_task,
  task_lookup, task_discard, cancel_task, wake, check, after_action,
}

-- The scheduler, and how many references to each task its clients hold.
pub record System : Type 0 where
  pub sched : Scheduler
  pub held : ℕ → ℕ

-- The static heap of a program that starts.
abbrev pub static_heap : Heap
static_heap = record {
  size = 0;
  count = 0;
  tasks = replicate min_size 0;
  is_min = true;
  index = λ _. none;
}

-- The static variables of a program that starts, after the first call's pthread_once.
abbrev pub start : System
start = record {
  sched = task_init (record {
    heap = static_heap;
    abstime = λ _. record { tv_sec = 0; tv_nsec = 0 };
    interval = λ _. record { tv_sec = 0; tv_nsec = 0 };
    function = λ _. 0;
    argument = λ _. 0;
    refs = λ _. 0;
    current = 0;
    signals = 0;
    phase = waiting;
  });
  held = λ _. 0;
}

-- A client has one reference more to a task that it was given, and one less to one that it gave.
abbrev pub gain : (ℕ → ℕ) → ℕ → ℕ → ℕ
gain held t = if t == 0 then held else put held t (held t + 1)

abbrev pub lose : (ℕ → ℕ) → ℕ → ℕ → ℕ
lose held t = put held t (held t - 1)

-- What the steps of clients and of the scheduler thread are. A client uses the references that it
-- holds, and schedules a task that is not scheduled; a new task is at an address without
-- references; times are in range, and where a task is cancelled, near the last one's.
pub data Step : System → System → Type 0 where
  creates :
      (s : Scheduler) (held : ℕ → ℕ) (calloc : ℕ) (now abstime interval : Timespec)
      (function argument : ℕ)
      → s.refs calloc ≡ 0
      → InRange (first_time now abstime interval)
      → Step
          (record { sched = s; held = held })
          (record {
            sched = (task_create calloc now s abstime interval function argument).1;
            held = gain held (task_create calloc now s abstime interval function argument).0;
          })
  schedules :
      (s : Scheduler) (held : ℕ → ℕ) (mem : Alloc) (t : ℕ)
      → 0 < held t
      → is_scheduled s.heap t ≡ false
      → Step
          (record { sched = s; held = held })
          (record { sched = (schedule_task mem s t).1; held = lose held t })
  looks :
      (s : Scheduler) (held : ℕ → ℕ) (h : ℕ)
      → Step
          (record { sched = s; held = held })
          (record { sched = (task_lookup s h).1; held = gain held (task_lookup s h).0 })
  cancels :
      (s : Scheduler) (held : ℕ → ℕ) (mem : Alloc) (t : ℕ)
      → 0 < held t
      → IsNear (s.abstime (task_at s.heap (s.heap.count - 1))) (s.abstime t)
      → Step
          (record { sched = s; held = held })
          (record { sched = (cancel_task mem s t).1; held = held })
  discards :
      (s : Scheduler) (held : ℕ → ℕ) (t : ℕ)
      → 0 < held t
      → Step
          (record { sched = s; held = held })
          (record { sched = task_discard s t; held = lose held t })
  wakes :
      (s : Scheduler) (held : ℕ → ℕ) (curr : Timespec)
      → s.phase ≡ waiting
      → Step (record { sched = s; held = held }) (record { sched = wake s curr; held = held })
  checks :
      (s : Scheduler) (held : ℕ → ℕ) (mem mem' : Alloc) (curr : Timespec)
      → s.phase ≡ checking curr
      → InRange (nft_timespec_add (s.abstime (heap_top s.heap).1) (s.interval (heap_top s.heap).1))
      → Step
          (record { sched = s; held = held })
          (record { sched = check mem mem' s curr; held = held })
  finishes :
      (s : Scheduler) (held : ℕ → ℕ) (t : ℕ) (discard : Bool) (curr : Timespec)
      → s.phase ≡ executing t discard curr
      → Step
          (record { sched = s; held = held })
          (record { sched = after_action s t discard curr; held = held })

pub data Reach : System → Type 0 where
  at_start : Reach start
  later : (w v : System) → Reach w → Step w v → Reach v
