-- ===== src/Task/Scheduler/Counts/Clients.antt =====
-- The steps of clients keep the invariant of the scheduler.
use nifty.Base.{
  ℕ, ◌+◌, ◌-◌, ◌<◌, ◌≡◌, true, false, none, ◌==◌, Alloc, arith, inl, inr, Bool-cases, not, ◌||◌,
  sym,
}
use mathlib.Core.Path.{subst}
use nifty.Timespec.{Timespec, InRange, IsNear}
use nifty.Task.Heap.{Heap, task_at, heap_top, heap_insert}
use nifty.Task.Heap.Index.{is_scheduled}
use nifty.Task.Heap.Change.{Changed}
use nifty.Task.Heap.Ops.{IsValid, heap_insert_lem}
use nifty.Task.Heap.Delete.{heap_delete_lem}
use nifty.Task.Heap.Room.{IsValid-untouched}
use nifty.Task.Scheduler.{
  Scheduler, put, first_time, task_create, schedule_task, task_lookup, task_discard, cancel_task,
  place, is_queued, is_set,
}
use nifty.Task.Scheduler.System.{gain, lose}
use nifty.Task.Scheduler.Counts.Defs.{Inv, held-some}

-- A task outside the heap has no index, so that a new one may be made in its place.
IsValid-fresh :
    (a : ℕ → Timespec) (h : Heap) (t : ℕ)
    → IsValid a h
    → is_scheduled h t ≡ false
    → IsValid a (record h { index = put h.index t none })
IsValid-fresh a h t v out = record {
  shaped = record { stored = v.shaped.stored; large = v.shaped.large; minimal = v.shaped.minimal };
  indexed = record {
    fits = v.indexed.fits;
    forward = λ i l. ground (arith, v.indexed.forward i l);
    back = λ p i q. ground (arith, v.indexed.back p i);
  };
  null = ground (arith, v.null);
  ordered = v.ordered;
}

pub creates-Inv :
    (s : Scheduler) (held : ℕ → ℕ) (calloc : ℕ) (now abstime interval : Timespec)
    (function argument : ℕ)
    → s.refs calloc ≡ 0
    → InRange (first_time now abstime interval)
    → Inv s held
    → let r = task_create calloc now s abstime interval function argument in Inv r.1 (gain held r.0)
unfolding task_create
creates-Inv s held calloc now abstime interval function argument new fits v =
    elim (Bool-cases (not (not (abstime.tv_sec == 0) || is_set interval) || (function == 0))) [
      | inl e ↦ rw e v
      | inr e ↦ rw e (elim (Bool-cases (calloc == 0)) [
        | inl nil ↦ rw nil v
        | inr some' ↦
            let out : is_scheduled s.heap calloc ≡ false = ground (arith, v.counted calloc) in
            rw some' (record {
              valid =
                  IsValid-untouched s.abstime _ _ calloc
                    (IsValid-fresh s.abstime s.heap calloc v.valid out) (ground arith)
                    (λ p d. ground arith);
              inside = λ p. ground (arith, v.inside p);
              null = ground (arith, v.null);
              counted = λ p. ground (arith, v.counted p);
            })
      ])
    ]

-- A reference that a client gives is that of the heap.
inserted-Inv :
    (s : Scheduler) (held : ℕ → ℕ) (h' : Heap) (t n : ℕ)
    → 0 < held t
    → is_scheduled s.heap t ≡ false
    → Inv s held
    → IsValid s.abstime h'
    → Changed s.heap h' t true
    → Inv (record s { heap = h'; signals = n }) (lose held t)
inserted-Inv s held h' t n l out v valid ch = record {
  valid = valid;
  inside = v.inside;
  null = v.null;
  counted = λ p. ground (arith, v.counted p, ch p);
}

pub schedules-Inv :
    (s : Scheduler) (held : ℕ → ℕ) (mem : Alloc) (t : ℕ)
    → 0 < held t
    → is_scheduled s.heap t ≡ false
    → Inv s held
    → Inv (schedule_task mem s t).1 (lose held t)
unfolding schedule_task
schedules-Inv s held mem t l out v =
    let some' = held-some s held t v l in
    let is : (t == 0) ≡ false = ground arith in
    elim (heap_insert_lem s.abstime v.inside mem s.heap t v.valid some' out) [
      | inl done ↦
          let h' = (heap_insert s.abstime mem s.heap t).1 in
          let next = λ (n : ℕ). inserted-Inv s held h' t n l out v done.1 done.2 in
          rw (is, done.0)
            (elim (Bool-cases ((heap_top h').1 == t)) [
              | inl top ↦ rw top (next (s.signals + 1))
              | inr other ↦ rw other (next s.signals)
            ])
      | inr full ↦
          rw (is, full)
            (record {
              valid = v.valid;
              inside = v.inside;
              null = ground (arith, v.null);
              counted = λ p. ground (arith, v.counted p);
            })
    ]

pub looks-Inv :
    (s : Scheduler) (held : ℕ → ℕ) (h : ℕ)
    → Inv s held
    → Inv (task_lookup s h).1 (gain held (task_lookup s h).0)
looks-Inv s held h v = elim (Bool-cases (s.refs h == 0)) [
  | inl e ↦ rw e v
  | inr e ↦ rw e (record {
    valid = v.valid;
    inside = v.inside;
    null = ground (arith, v.null);
    counted = λ p. ground (arith, v.counted p, v.null);
  })
]

pub discards-Inv :
    (s : Scheduler) (held : ℕ → ℕ) (t : ℕ)
    → 0 < held t
    → Inv s held
    → Inv (task_discard s t) (lose held t)
discards-Inv s held t l v = record {
  valid = v.valid;
  inside = v.inside;
  null = ground (arith, v.null);
  counted = λ p. ground (arith, v.counted p);
}

pub cancels-Inv :
    (s : Scheduler) (held : ℕ → ℕ) (mem : Alloc) (t : ℕ)
    → IsNear (s.abstime (task_at s.heap (s.heap.count - 1))) (s.abstime t)
    → Inv s held
    → Inv (cancel_task mem s t).1 held
unfolding cancel_task
cancels-Inv s held mem t near v = elim (Bool-cases (is_queued s.heap t)) [
  | inr e ↦ rw e v
  | inl e ↦
      let i = place s.heap t in
      let at : task_at s.heap i ≡ t = ground arith in
      let lt : i < s.heap.count = ground arith in
      let near' =
        subst (λ p. IsNear (s.abstime (task_at s.heap (s.heap.count - 1))) (s.abstime p)) (sym at)
          near in
      let g = heap_delete_lem s.abstime v.inside mem s.heap i v.valid lt near' in
      rw e (record {
        valid = g.0;
        inside = v.inside;
        null = ground (arith, v.null);
        counted =
            λ p. ground (arith, v.counted p, v.counted t, g.1 p, v.valid.indexed.forward i lt);
      })
]
