-- ===== src/Task/Scheduler/Counts.antt =====
-- The invariant of the scheduler holds in every state that it reaches with its clients.
mod Defs
mod Clients
mod Thread
pub use Defs.*
pub use Thread.{IsPopped, heap_pop-IsPopped, reinserted}
use Clients.{creates-Inv, schedules-Inv, looks-Inv, cancels-Inv, discards-Inv}
use Thread.{wakes-Inv, checks-Inv, finishes-Inv}
use nifty.Base.{
  ℕ, ◌+◌, ◌-◌, ◌<◌, ◌≡◌, ◌≢◌, ◌∙◌, refl, Bool, true, false, none, ◌==◌, if◌then◌else◌, Alloc, arith,
  inl, inr, Bool-cases, not, ◌&&◌, ◌||◌, sym,
}
use mathlib.Core.Path.{subst}
use nifty.Timespec.{Timespec, InRange, IsNear, nft_timespec_add}
use nifty.Task.Heap.{Heap, task_at, heap_top, heap_insert, heap_pop}
use nifty.Task.Heap.Index.{is_scheduled}
use nifty.Task.Heap.Change.{Changed}
use nifty.Task.Heap.Ops.{IsValid, heap_insert_lem, heap_pop_lem}
use nifty.Task.Heap.Delete.{heap_delete_lem}
use nifty.Task.Heap.Room.{
  HasRoom, IsValid-untouched, count-heap_top, heap_top_some, heap_init-IsValid, index-heap_init,
  heap_pop-HasRoom, heap_insert_room,
}
use nifty.Task.Scheduler.{
  Phase, waiting, checking, executing, Scheduler, put, task_init, first_time, task_create,
  schedule_task, task_lookup, task_discard, cancel_task, place, wake, check, after_action,
  is_queued, dispatch, is_set, is_later,
}
use nifty.Task.Scheduler.System.{
  System, static_heap, start, gain, lose, Step, creates, schedules, looks, cancels, discards, wakes,
  checks, finishes, Reach, at_start, later,
}

Step-Inv : (w u : System) → Step w u → Inv w.sched w.held → Inv u.sched u.held
Step-Inv w u (creates s held calloc now abstime interval function argument new fits) v =
    creates-Inv s held calloc now abstime interval function argument new fits v
Step-Inv w u (schedules s held mem t l out) v = schedules-Inv s held mem t l out v
Step-Inv w u (looks s held h) v = looks-Inv s held h v
Step-Inv w u (cancels s held mem t l near) v = cancels-Inv s held mem t near v
Step-Inv w u (discards s held t l) v = discards-Inv s held t l v
Step-Inv w u (wakes s held curr e) v = wakes-Inv s held curr e v
Step-Inv w u (checks s held mem mem' curr e fits) v = checks-Inv s held mem mem' curr e fits v
Step-Inv w u (finishes s held t discard curr e) v = finishes-Inv s held t discard curr e v

start-Inv : Inv start.sched start.held
unfolding task_init
start-Inv = record {
  valid = heap_init-IsValid _ _ (λ p. refl);
  inside = λ p. omega arith;
  null = refl;
  counted = λ p. ground (arith, index-heap_init static_heap p);
}

pub Reach-Inv : (w : System) → Reach w → Inv w.sched w.held
Reach-Inv w at_start = start-Inv
Reach-Inv w (later u w' r st) = Step-Inv u w' st (Reach-Inv u r)
