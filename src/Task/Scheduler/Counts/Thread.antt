-- ===== src/Task/Scheduler/Counts/Thread.antt =====
-- The steps of the scheduler thread keep the invariant of the scheduler.
use nifty.Base.{
  ℕ, ◌-◌, ◌<◌, ◌≡◌, ◌≢◌, ◌∙◌, Bool, true, false, ◌==◌, Alloc, arith, inl, inr, Bool-cases, ◌||◌,
  sym,
}
use mathlib.Core.Path.{subst}
use nifty.Timespec.{Timespec, InRange, nft_timespec_add}
use nifty.Task.Heap.{Heap, heap_top, heap_insert, heap_pop}
use nifty.Task.Heap.Index.{is_scheduled}
use nifty.Task.Heap.Change.{Changed}
use nifty.Task.Heap.Ops.{IsValid, heap_insert_lem, heap_pop_lem}
use nifty.Task.Heap.Room.{
  HasRoom, IsValid-untouched, count-heap_top, heap_top_some, heap_pop-HasRoom, heap_insert_room,
}
use nifty.Task.Scheduler.{
  waiting, checking, executing, Scheduler, put, wake, check, after_action, dispatch, is_set,
  is_later,
}
use nifty.Task.Scheduler.Counts.Defs.{Inv, counted_in}

pub wakes-Inv :
    (s : Scheduler) (held : ℕ → ℕ) (curr : Timespec)
    → s.phase ≡ waiting
    → Inv s held
    → Inv (wake s curr) held
unfolding wake
wakes-Inv s held curr e v = record {
  valid = v.valid;
  inside = v.inside;
  null = v.null;
  counted = counted_in s held waiting v e;
}

pub finishes-Inv :
    (s : Scheduler) (held : ℕ → ℕ) (t : ℕ) (discard : Bool) (curr : Timespec)
    → s.phase ≡ executing t discard curr
    → Inv s held
    → Inv (after_action s t discard curr) held
unfolding after_action
finishes-Inv s held t false curr e v = record {
  valid = v.valid;
  inside = v.inside;
  null = v.null;
  counted = λ p. ground (arith, counted_in s held _ v e p);
}
finishes-Inv s held t true curr e v = record {
  valid = v.valid;
  inside = v.inside;
  null = ground (arith, v.null);
  counted = λ p. ground (arith, counted_in s held _ v e p, counted_in s held _ v e t);
}

-- What heap_pop gives to the scheduler thread: the top task, which was scheduled and is no longer,
-- and a heap that has room for it.
pub record IsPopped (s : Scheduler) (t : ℕ) (h : Heap) : Type 0 where
  pub top : t ≡ (heap_top s.heap).1
  pub was : is_scheduled s.heap t ≡ true
  pub out : is_scheduled h t ≡ false
  pub valid : IsValid s.abstime h
  pub changed : Changed s.heap h t false
  pub room : HasRoom h
  pub count : h.count ≡ s.heap.count - 1

pub heap_pop-IsPopped :
    (s : Scheduler) (held : ℕ → ℕ) (mem : Alloc)
    → Inv s held
    → 0 < s.heap.count
    → let r = heap_pop s.abstime mem s.heap in IsPopped s r.0 r.1
heap_pop-IsPopped s held mem v pos =
    let g = heap_pop_lem s.abstime v.inside mem s.heap 0 v.valid pos in
    let m = heap_pop-HasRoom s.abstime v.inside mem s.heap v.valid pos in
    record {
      top = m.2 ∙ sym (heap_top_some s.heap pos);
      was = g.0;
      out = ground (arith, g.3 (heap_pop s.abstime mem s.heap).0);
      valid = g.2;
      changed = g.3;
      room = m.0;
      count = m.1;
    }

-- A repeated task, due again an interval later, always goes back into the heap.
pub reinserted :
    (s : Scheduler) (held : ℕ → ℕ) (mem : Alloc) (t : ℕ) (h : Heap)
    → InRange (nft_timespec_add (s.abstime t) (s.interval t))
    → Inv s held
    → IsPopped s t h
    → let next = put s.abstime t (nft_timespec_add (s.abstime t) (s.interval t)) in
      let h' = (heap_insert next mem h t).1 in
      ((p : ℕ) → InRange (next p)) × IsValid next h' × Changed h h' t true
reinserted s held mem t h fits v g =
    let next = put s.abstime t (nft_timespec_add (s.abstime t) (s.interval t)) in
    let within : (p : ℕ) → InRange (next p) = λ p. ground (arith, v.inside p) in
    let valid = IsValid-untouched s.abstime next h t g.valid g.out (λ p d. ground arith) in
    let some' : t ≢ 0 = ground (arith, v.valid.null, g.was) in
    elim (heap_insert_lem next within mem h t valid some' g.out) [
      | inr full ↦ absurd (ground (arith, full, heap_insert_room next within mem h t g.room))
      | inl done ↦ (within, done.1, done.2)
    ]

dispatch-Inv :
    (s : Scheduler) (held : ℕ → ℕ) (mem : Alloc) (t : ℕ) (h : Heap) (curr curr' : Timespec)
    → s.phase ≡ checking curr
    → InRange (nft_timespec_add (s.abstime t) (s.interval t))
    → Inv s held
    → IsPopped s t h
    → Inv (dispatch mem (record s { heap = h }) t curr') held
unfolding dispatch
dispatch-Inv s held mem t h curr curr' e fits v g = elim (Bool-cases (is_set (s.interval t))) [
  | inr once ↦ rw once (record {
    valid = g.valid;
    inside = v.inside;
    null = v.null;
    counted = λ p. ground (arith, counted_in s held _ v e p, g.was, g.changed p);
  })
  | inl again ↦
      let r = reinserted s held mem t h fits v g in
      rw again (record {
        valid = r.1;
        inside = r.0;
        null = v.null;
        counted = λ p. ground (arith, counted_in s held _ v e p, g.was, g.changed p, r.2 p);
      })
]

pub checks-Inv :
    (s : Scheduler) (held : ℕ → ℕ) (mem mem' : Alloc) (curr : Timespec)
    → s.phase ≡ checking curr
    → InRange (nft_timespec_add (s.abstime (heap_top s.heap).1) (s.interval (heap_top s.heap).1))
    → Inv s held
    → Inv (check mem mem' s curr) held
unfolding check
checks-Inv s held mem mem' curr e fits v =
    elim (Bool-cases (((heap_top s.heap).0 == 0) || is_later s (heap_top s.heap).1 curr)) [
      | inl idle ↦ rw idle (record {
        valid = v.valid;
        inside = v.inside;
        null = v.null;
        counted = λ p. ground (arith, counted_in s held _ v e p);
      })
      | inr due ↦
          let g = heap_pop-IsPopped s held mem v (ground (arith, count-heap_top s.heap)) in
          rw due (
            dispatch-Inv s held mem' (heap_pop s.abstime mem s.heap).0
              (heap_pop s.abstime mem s.heap).1 curr curr e
              (subst (λ p. InRange (nft_timespec_add (s.abstime p) (s.interval p))) (sym g.top)
                fits)
              v g)
    ]
