-- ===== src/Task/Scheduler/Counts/Defs.antt =====
-- What the invariant of the scheduler says: a valid heap, and the references to a task are those that
-- clients hold, the heap's, and that of the scheduler thread for a task that it will discard.
use nifty.Base.{ℕ, ◌+◌, ◌<◌, ◌≡◌, ◌≢◌, ◌==◌, if◌then◌else◌, arith, ◌&&◌}
use mathlib.Core.Path.{subst}
use nifty.Timespec.{InRange}
use nifty.Task.Heap.Index.{is_scheduled}
use nifty.Task.Heap.Ops.{IsValid}
use nifty.Task.Scheduler.{Phase, waiting, checking, executing, Scheduler}

-- The reference of the heap, and the reference of the scheduler thread.
abbrev pub in_heap : Scheduler → ℕ → ℕ
in_heap s p = if is_scheduled s.heap p then 1 else 0

abbrev pub of_thread : Phase → ℕ → ℕ
of_thread waiting p = 0
of_thread (checking curr) p = 0
of_thread (executing t discard curr) p = if discard && (t == p) then 1 else 0

pub record Inv (s : Scheduler) (held : ℕ → ℕ) : Type 0 where
  pub valid : IsValid s.abstime s.heap
  pub inside : (p : ℕ) → InRange (s.abstime p)
  pub null : s.refs 0 ≡ 0
  pub counted : (p : ℕ) → s.refs p ≡ held p + in_heap s p + of_thread s.phase p

-- A reference that a client holds is to a task.
pub held-some : (s : Scheduler) (held : ℕ → ℕ) (t : ℕ) → Inv s held → 0 < held t → t ≢ 0
held-some s held t v l = ground (arith, v.counted 0, v.null)

pub counted_in :
    (s : Scheduler) (held : ℕ → ℕ) (f : Phase)
    → Inv s held
    → s.phase ≡ f
    → (p : ℕ) → s.refs p ≡ held p + in_heap s p + of_thread f p
counted_in s held f v e p =
    subst (λ f. s.refs p ≡ held p + in_heap s p + of_thread f p) e (v.counted p)
