-- ===== src/Task/Scheduler/Due.antt =====
-- When tasks are executed: one test of the scheduler thread's inner loop.
use nifty.Base.{
  ℕ, ◌+◌, ◌<◌, ◌≤◌, ◌≡◌, ◌≢◌, ◌⊎◌, refl, true, false, not, some, ◌==◌, ◌||◌, if◌then◌else◌, Alloc,
  arith, inl, inr, Bool-cases, ltb, ok,
}
use mathlib.Core.Path.{subst}
use nifty.Timespec.{Timespec, InRange, nanos, nft_timespec_add, nft_timespec_add_lem, comp_pos}
use nifty.Task.Heap.{Heap, task_at, heap_top, heap_insert, heap_pop}
use nifty.Task.Heap.Order.{due, root_least}
use nifty.Task.Heap.Index.{is_scheduled, IsIndexed}
use nifty.Task.Heap.Change.{Changed}
use nifty.Task.Heap.Ops.{IsValid, heap_insert_lem}
use nifty.Task.Heap.Room.{count-heap_top, heap_top_some}
use nifty.Task.Scheduler.{
  waiting, executing, Scheduler, is_set, is_later, dispatch, check, place, is_queued, schedule_task,
}
use nifty.Task.Scheduler.Counts.{Inv, held-some, IsPopped, reinserted, heap_pop-IsPopped}

-- The thread executes the task `t`, which is due, before the tasks that are due later; it stays
-- scheduled if it is repeated, an interval later.
pub record Executes (s : Scheduler) (t : ℕ) (curr : Timespec) (r : Scheduler) : Type 0 where
  pub phase : r.phase ≡ executing t (not (is_set (s.interval t))) curr
  pub current : r.current ≡ t
  pub was : is_scheduled s.heap t ≡ true
  pub reached : nanos (s.abstime t) ≤ nanos curr
  pub first : (i : ℕ) → i < s.heap.count → nanos (s.abstime t) ≤ due s.abstime s.heap i
  pub scheduled :
      (p : ℕ)
      → is_scheduled r.heap p ≡ (if p == t then is_set (s.interval t) else is_scheduled s.heap p)
  pub next : nanos (r.abstime t) ≡ nanos (s.abstime t) + nanos (s.interval t)

not-is_set : (ts : Timespec) → is_set ts ≡ false → nanos ts ≡ 0
not-is_set ts e = ground arith

module _ (s : Scheduler) (held : ℕ → ℕ) (curr : Timespec) (v : Inv s held)
    (inside : InRange curr) where
  is_later-lt : (t : ℕ) → is_later s t curr ≡ ltb (nanos curr) (nanos (s.abstime t))
  is_later-lt t = comp_pos (s.abstime t) curr (v.inside t) inside

  dispatch-Executes :
      (mem : Alloc) (t : ℕ) (h : Heap)
      → InRange (nft_timespec_add (s.abstime t) (s.interval t))
      → IsPopped s t h
      → nanos (s.abstime t) ≤ nanos curr
      → ((i : ℕ) → i < s.heap.count → nanos (s.abstime t) ≤ due s.abstime s.heap i)
      → Executes s t curr (dispatch mem (record s { heap = h }) t curr)
  unfolding dispatch
  dispatch-Executes mem t h fits g reached first = elim (Bool-cases (is_set (s.interval t))) [
    | inr once ↦ rw once (record {
      phase = ground (arith);
      current = refl;
      was = g.was;
      reached = reached;
      first = first;
      scheduled = λ p. ground (arith, g.changed p);
      next = ground (arith, not-is_set (s.interval t) once);
    })
    | inl again ↦
        let r = reinserted s held mem t h fits v g in
        rw again (record {
          phase = ground arith;
          current = refl;
          was = g.was;
          reached = reached;
          first = first;
          scheduled = λ p. ground (arith, g.changed p, r.2 p);
          next = ground (arith, nft_timespec_add_lem (s.abstime t) (s.interval t));
        })
  ]

  -- One test of the inner loop, in a state where the invariant holds, with times in range: the
  -- thread goes back to waiting, where all tasks are due later than the time that it woke up, and
  -- nothing else changes; or it executes the first task, which is due by then and no later than
  -- any other, and which stays scheduled, an interval later, just if it is repeated.
  pub check_lem :
      (mem mem' : Alloc)
      → InRange (nft_timespec_add (s.abstime (heap_top s.heap).1) (s.interval (heap_top s.heap).1))
      → ((check mem mem' s curr ≡ record s { phase = waiting })
          × ((i : ℕ) → i < s.heap.count → nanos curr < due s.abstime s.heap i))
        ⊎ Executes s (heap_top s.heap).1 curr (check mem mem' s curr)
  unfolding check
  check_lem mem mem' fits =
      let top = (heap_top s.heap).1 in
      let n = count-heap_top s.heap in
      let least =
        λ (i : ℕ) (l : i < s.heap.count). root_least s.abstime s.heap i v.valid.ordered l in
      elim (Bool-cases (((heap_top s.heap).0 == 0) || is_later s top curr)) [
        | inl idle ↦
            rw idle (
              inl
                (refl, λ i l. ground (arith, n, is_later-lt top, heap_top_some s.heap, least i l)))
        | inr now ↦
            let pos : 0 < s.heap.count = ground (arith, n) in
            let g = heap_pop-IsPopped s held mem v pos in
            rw (now, g.top)
              (inr (
                dispatch-Executes mem' top (heap_pop s.abstime mem s.heap).1 fits
                  (subst (λ p. IsPopped s p (heap_pop s.abstime mem s.heap).1) g.top g)
                  (ground (arith, n, is_later-lt top))
                  (λ i l. ground (arith, heap_top_some s.heap pos, least i l))))
      ]

pub place-at :
    (h : Heap) (p : ℕ)
    → IsIndexed h
    → is_scheduled h p ≡ true
    → (place h p < h.count) × (task_at h (place h p) ≡ p) × (is_queued h p ≡ true)
place-at h p x was =
    let e : h.index p ≡ some (place h p) = ground arith in ground (arith, x.back p (place h p) e)

least_of :
    (abstime : ℕ → Timespec) (h : Heap) (p : ℕ)
    → IsValid abstime h
    → is_scheduled h p ≡ true
    → (0 < h.count) × (due abstime h 0 ≤ nanos (abstime p))
least_of abstime h p v was =
    let at = place-at h p v.indexed was in
    ground (arith, at, root_least abstime h (place h p) v.ordered at.0)

-- Either the first task is the new one, or it is due when the first task was before.
unnoticed :
    (abstime : ℕ → Timespec) (h h' : Heap) (t : ℕ)
    → IsValid abstime h
    → IsValid abstime h'
    → Changed h h' t true
    → (heap_top h').1 ≢ t
    → (0 < h.count) × (due abstime h' 0 ≡ due abstime h 0)
unnoticed abstime h h' t v w ch other =
    let pos' = (least_of abstime h' t w (ground (arith, ch t))).0 in
    let top' = task_at h' 0 in
    let e = heap_top_some h' pos' in
    let was : is_scheduled h top' ≡ true = ground (arith, e, ch top', w.indexed.forward 0 pos') in
    let old = least_of abstime h top' v was in
    let top = task_at h 0 in
    let new = least_of abstime h' top w (ground (arith, ch top, v.indexed.forward 0 old.0)) in
    (old.0, omega (arith, old.1, new.1))

-- nft_task_schedule_task, in a state where the invariant holds, of a task that a client holds and
-- that is not scheduled, where there is memory, signals the scheduler thread, unless there was a
-- task before and the first task is due at the same time as then: a thread that waits for the
-- first task to be due never waits past that time.
pub schedule_task_signals :
    (s : Scheduler) (held : ℕ → ℕ) (mem : Alloc) (t : ℕ)
    → Inv s held
    → 0 < held t
    → is_scheduled s.heap t ≡ false
    → (schedule_task mem s t).0 ≡ ok
    → let s' = (schedule_task mem s t).1 in
      (s'.signals ≡ s.signals + 1)
      ⊎ ((0 < s.heap.count)
          × (s'.signals ≡ s.signals)
          × (due s'.abstime s'.heap 0 ≡ due s.abstime s.heap 0))
unfolding schedule_task
schedule_task_signals s held mem t v l out =
    let some' = held-some s held t v l in
    let is : (t == 0) ≡ false = ground arith in
    elim (heap_insert_lem s.abstime v.inside mem s.heap t v.valid some' out) [
      | inr full ↦ rw (is, full) (λ e. absurd (ground (arith, e)))
      | inl done ↦
          let h' = (heap_insert s.abstime mem s.heap t).1 in
          rw (is, done.0)
            (elim (Bool-cases ((heap_top h').1 == t)) [
              | inl top ↦ rw top (λ e. inl refl)
              | inr other ↦ rw other (λ e.
                  let u = unnoticed s.abstime s.heap h' t v.valid done.1 done.2 (ground arith) in
                  inr (u.0, refl, u.1))
            ])
    ]
