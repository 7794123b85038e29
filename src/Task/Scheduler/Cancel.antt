-- ===== src/Task/Scheduler/Cancel.antt =====
-- Cancelling: what nft_task_cancel gives back of a task that nft_task_schedule made, and the
-- repeated task that is cancelled while the scheduler thread executes it, of which the memory is
-- freed before the thread is done with it.
use nifty.Base.{
  ℕ, ◌+◌, ◌-◌, ◌<◌, ◌≡◌, ◌∙◌, refl, true, false, ◌==◌, if◌then◌else◌, Alloc, arith, sym,
}
use mathlib.Core.Path.{subst}
use nifty.Timespec.{Timespec, InRange, IsNear}
use nifty.Task.Heap.{task_at}
use nifty.Task.Heap.Index.{is_scheduled}
use nifty.Task.Heap.Ops.{IsValid}
use nifty.Task.Heap.Delete.{heap_delete_lem}
use nifty.Task.Scheduler.{
  executing, Scheduler, put, place, cancel_task, cancel, task_lookup, task_discard,
}
use nifty.Task.Scheduler.System.{System, gain, lose, looks, cancels, discards, Reach, later}
use nifty.Task.Scheduler.Counts.{Inv, in_heap, of_thread, Reach-Inv}
use nifty.Task.Scheduler.Due.{place-at}

-- The task is out of the heap, which holds the others, and a reference to it is gone.
pub record IsCancelled (s : Scheduler) (t : ℕ) (r : Scheduler) : Type 0 where
  pub valid : IsValid r.abstime r.heap
  pub scheduled :
      (p : ℕ) → is_scheduled r.heap p ≡ (if p == t then false else is_scheduled s.heap p)
  pub refs : (p : ℕ) → r.refs p ≡ (if p == t then s.refs t - 1 else s.refs p)
  pub argument : r.argument t ≡ s.argument t
  pub phase : r.phase ≡ s.phase

cancel_task-IsCancelled :
    (s : Scheduler) (mem : Alloc) (t : ℕ)
    → IsValid s.abstime s.heap
    → ((p : ℕ) → InRange (s.abstime p))
    → IsNear (s.abstime (task_at s.heap (s.heap.count - 1))) (s.abstime t)
    → is_scheduled s.heap t ≡ true
    → let r = cancel_task mem s t in (r.0 ≡ true) × IsCancelled s t r.1
unfolding cancel_task
cancel_task-IsCancelled s mem t v inside near was =
    let last = task_at s.heap (s.heap.count - 1) in
    let at = place-at s.heap t v.indexed was in
    let i = place s.heap t in
    let near' = subst (λ p. IsNear (s.abstime last) (s.abstime p)) (sym at.1) near in
    let g = heap_delete_lem s.abstime inside mem s.heap i v at.0 near' in
    rw at.2 (
      refl,
      record {
        valid = g.0;
        scheduled = λ p. ground (arith, g.1 p, at.1);
        refs = λ p. refl;
        argument = refl;
        phase = refl;
      },
    )

-- nft_task_cancel of a scheduled task, where the invariant holds and its time is near the last
-- task's, returns the argument that the task was made with, takes this task out of the heap and no
-- other, and leaves one reference less to it.
pub cancel_lem :
    (s : Scheduler) (held : ℕ → ℕ) (mem : Alloc) (t : ℕ)
    → Inv s held
    → is_scheduled s.heap t ≡ true
    → IsNear (s.abstime (task_at s.heap (s.heap.count - 1))) (s.abstime t)
    → let r = cancel mem s t in (r.0 ≡ s.argument t) × IsCancelled s t r.1
unfolding cancel
cancel_lem s held mem t v was near =
    let live : (s.refs t == 0) ≡ false = ground (arith, v.counted t) in
    let some' : (t == 0) ≡ false = ground (arith, v.valid.null) in
    let found = record s { refs = put s.refs t (s.refs t + 1) } in
    let c = cancel_task-IsCancelled found mem t v.valid v.inside near was in
    rw (live, some', c.0)
      (
        c.1.argument,
        record {
          valid = c.1.valid;
          scheduled = c.1.scheduled;
          refs = λ p. ground (arith, c.1.refs p, c.1.refs t);
          argument = c.1.argument;
          phase = c.1.phase;
        },
      )

task_lookup_live :
    (s : Scheduler) (t : ℕ)
    → 0 < s.refs t
    → task_lookup s t ≡ (t, record s { refs = put s.refs t (s.refs t + 1) })
task_lookup_live s t l = let live : (s.refs t == 0) ≡ false = ground arith in rw live refl

-- Where the scheduler and its clients have come to a state in which the scheduler thread executes
-- a repeated task, which no client holds a reference to and which is scheduled again, with its
-- time near the last task's, nft_task_cancel in another thread leads to a state in which no
-- reference to the task is left, so that it is freed, and the scheduler thread still executes it.
pub cancel_frees :
    (w : System) (mem : Alloc) (t : ℕ) (curr : Timespec)
    → Reach w
    → w.sched.phase ≡ executing t false curr
    → w.held t ≡ 0
    → is_scheduled w.sched.heap t ≡ true
    → IsNear (w.sched.abstime (task_at w.sched.heap (w.sched.heap.count - 1))) (w.sched.abstime t)
    → let s' = (cancel mem w.sched t).1 in
      Reach (record { sched = s'; held = lose (gain w.held t) t })
      × (s'.phase ≡ executing t false curr)
      × (s'.refs t ≡ 0)
unfolding cancel
cancel_frees w mem t curr r e none' was near =
    let s = w.sched in
    let v = Reach-Inv w r in
    let counted = subst (λ f. s.refs t ≡ w.held t + in_heap s t + of_thread f t) e (v.counted t) in
    let one : s.refs t ≡ 1 = ground (arith, counted) in
    let found = record s { refs = put s.refs t (s.refs t + 1) } in
    let c = cancel_task-IsCancelled found mem t v.valid v.inside near was in
    let some' : (t == 0) ≡ false = ground (arith, v.valid.null) in
    let r₁ =
      subst (λ k. Reach (record { sched = k.1; held = gain w.held k.0 }))
        (task_lookup_live s t (omega arith)) (later _ _ r (looks s w.held t)) in
    let mine : 0 < gain w.held t t = ground arith in
    let r₂ = later _ _ r₁ (cancels found (gain w.held t) mem t mine near) in
    let s' = (cancel_task mem found t).1 in
    let r₃ =
      subst
        (λ b. Reach (record {
          sched = task_discard s' t;
          held = lose (if b then w.held else put w.held t (w.held t + 1)) t;
        }))
        some' (later _ _ r₂ (discards s' (gain w.held t) t mine)) in
    let live : (s.refs t == 0) ≡ false = ground arith in
    rw (live, some') (r₃, c.1.phase ∙ e, ground (arith, c.1.refs t))
