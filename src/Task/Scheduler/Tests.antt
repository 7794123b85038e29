-- ===== src/Task/Scheduler/Tests.antt =====
-- The theorems on the scheduler at a task that is repeated every two seconds.
use nifty.Base.{ℕ, ◌-◌, ◌<◌, ◌≡◌, ◌⊎◌, refl, true, false, none, arith, Alloc}
use nifty.Timespec.{Timespec, InRange, nft_timespec_add, nft_timespec_norm, nft_timespec_comp}
use nifty.Task.Heap.{task_at, heap_init, heap_top, heap_insert, heap_pop}
use nifty.Task.Heap.Order.{due}
use nifty.Task.Heap.Index.{is_scheduled}
use nifty.Task.Scheduler.{
  waiting, executing, task_init, first_time, task_create, schedule_task, cancel, wake, dispatch,
  check,
}
use nifty.Task.Scheduler.System.{
  System, start, gain, lose, creates, schedules, wakes, checks, Reach, at_start, later,
}
use nifty.Task.Scheduler.Counts.{Reach-Inv}
use nifty.Task.Scheduler.Due.{Executes, check_lem}
use nifty.Task.Scheduler.Cancel.{IsCancelled, cancel_lem, cancel_frees}

abbrev seconds : ℕ → Timespec
seconds n = record { tv_sec = n; tv_nsec = 0 }

abbrev no_memory : Alloc
no_memory = none

-- The task at address 8 is due at 5 seconds, and every 2 seconds from then on.
abbrev made : System
made = record {
  sched = (task_create 8 (seconds 1) start.sched (seconds 5) (seconds 2) 1 7).1;
  held = gain start.held (task_create 8 (seconds 1) start.sched (seconds 5) (seconds 2) 1 7).0;
}

made-Reach : Reach made
unfolding task_init first_time nft_timespec_norm
made-Reach =
    later start made at_start
      (creates start.sched start.held 8 (seconds 1) (seconds 5) (seconds 2) 1 7 refl (omega arith))

abbrev given : System
given = record { sched = (schedule_task no_memory made.sched 8).1; held = lose made.held 8 }

given-Reach : Reach given
unfolding task_create task_init first_time nft_timespec_norm
given-Reach =
    later made given made-Reach (schedules made.sched made.held no_memory 8 (omega arith) refl)

given-scheduled : is_scheduled given.sched.heap 8 ≡ true
unfolding task_create task_init schedule_task heap_insert heap_init heap_top
given-scheduled = refl

cancel_example :
    let r = cancel no_memory given.sched 8 in
    (r.0 ≡ given.sched.argument 8) × IsCancelled given.sched 8 r.1
unfolding task_create task_init schedule_task heap_insert heap_init first_time nft_timespec_norm
    heap_top
cancel_example =
    cancel_lem given.sched given.held no_memory 8 (Reach-Inv given given-Reach) given-scheduled
      (omega arith, omega arith)

-- The thread wakes up at 6 seconds, and executes the task.
abbrev woken : System
woken = record { sched = wake given.sched (seconds 6); held = given.held }

woken-Reach : Reach woken
unfolding task_create task_init schedule_task heap_insert heap_init heap_top
woken-Reach = later given woken given-Reach (wakes given.sched given.held (seconds 6) refl)

woken-fits :
    let s = woken.sched in
    InRange (nft_timespec_add (s.abstime (heap_top s.heap).1) (s.interval (heap_top s.heap).1))
unfolding wake task_create task_init schedule_task heap_insert heap_init heap_top first_time
    nft_timespec_norm nft_timespec_add
woken-fits = omega arith

check_example :
    let s = woken.sched in
    ((check no_memory no_memory s (seconds 6) ≡ record s { phase = waiting })
      × ((i : ℕ) → i < s.heap.count → 6_000_000_000 < due s.abstime s.heap i))
    ⊎ Executes s (heap_top s.heap).1 (seconds 6) (check no_memory no_memory s (seconds 6))
check_example =
    check_lem woken.sched woken.held (seconds 6) (Reach-Inv woken woken-Reach) (omega arith)
      no_memory no_memory woken-fits

abbrev busy : System
busy = record { sched = check no_memory no_memory woken.sched (seconds 6); held = woken.held }

busy-Reach : Reach busy
unfolding wake
busy-Reach =
    later woken busy woken-Reach
      (checks woken.sched woken.held no_memory no_memory (seconds 6) refl woken-fits)

busy-executing :
    (busy.sched.phase ≡ executing 8 false (seconds 6))
    × (is_scheduled busy.sched.heap 8 ≡ true)
    × (task_at busy.sched.heap (busy.sched.heap.count - 1) ≡ 8)
unfolding check dispatch wake task_create task_init schedule_task heap_insert heap_init heap_top
    heap_pop first_time nft_timespec_norm nft_timespec_comp
busy-executing = (refl, refl, refl)

cancel_frees_example :
    let s' = (cancel no_memory busy.sched 8).1 in
    Reach (record { sched = s'; held = lose (gain busy.held 8) 8 })
    × (s'.phase ≡ executing 8 false (seconds 6))
    × (s'.refs 8 ≡ 0)
unfolding task_create task_init
cancel_frees_example =
    cancel_frees busy no_memory 8 (seconds 6) busy-Reach busy-executing.0 refl busy-executing.1
      (ground (arith, busy-executing.2))
