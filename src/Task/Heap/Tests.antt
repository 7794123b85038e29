-- ===== src/Task/Heap/Tests.antt =====
-- The theorems on times and on the heap of the tasks at concrete times and heaps.
use nifty.Base.{
  ℕ, ◌%◌, ◌≤◌, ◌≡◌, ◌≢◌, ◌⊎◌, refl, Bool, true, false, none, [], arith, inl, inr, Alloc, ap,
  length-replicate,
}
use nifty.Timespec.{Timespec, nanos, InRange, nft_timespec_comp}
use nifty.Task.Heap.{Heap, heap_init, heap_insert, heap_pop, heap_delete}
use nifty.Task.Heap.Order.{due, IsHeap}
use nifty.Task.Heap.Index.{is_scheduled}
use nifty.Task.Heap.Change.{Changed}
use nifty.Task.Heap.Ops.{IsValid, heap_insert_lem, heap_pop_lem}
use nifty.Task.Heap.Delete.{heap_delete_lem, heap_delete_breaks}

abbrev half_past : Timespec
half_past = record { tv_sec = 1; tv_nsec = 500_000_000 }

-- The task at address `p` is due `p` seconds after the start, up to the seventh.
abbrev abstime : ℕ → Timespec
abstime p = record { tv_sec = p % 8; tv_nsec = 0 }

inside : (p : ℕ) → InRange (abstime p)
inside p = omega arith

abbrev no_memory : Alloc
no_memory = none

abbrev no_tasks : Heap
no_tasks = heap_init (record { size = 0; count = 0; tasks = []; is_min = true; index = λ p. none })

no_tasks-IsValid : IsValid abstime no_tasks
unfolding heap_init
no_tasks-IsValid = record {
  shaped = record { stored = length-replicate {A = ℕ} 32 0; large = omega arith; minimal = refl };
  indexed = record {
    fits = omega arith;
    forward = λ i l. absurd (omega arith);
    back = λ p i e. ground arith;
  };
  null = refl;
  ordered = λ c p q. absurd (omega arith);
}

inserted :
    (h : Heap) (t : ℕ)
    → IsValid abstime h
    → t ≢ 0
    → is_scheduled h t ≡ false
    → (heap_insert abstime no_memory h t).0 ≡ true
    → IsValid abstime (heap_insert abstime no_memory h t).1
inserted h t v some' new done = elim (heap_insert_lem abstime inside no_memory h t v some' new) [
  | inl r ↦ r.1
  | inr e ↦ ground (arith, done, ap (λ (r : Bool × Heap). r.0) e)
]

abbrev one_task : Heap
one_task = (heap_insert abstime no_memory no_tasks 3).1

one_task-IsValid : IsValid abstime one_task
unfolding heap_insert heap_init nft_timespec_comp
one_task-IsValid = inserted no_tasks 3 no_tasks-IsValid (λ e. ground arith) refl refl

abbrev two_tasks : Heap
two_tasks = (heap_insert abstime no_memory one_task 1).1

two_tasks-IsValid : IsValid abstime two_tasks
unfolding heap_insert heap_init nft_timespec_comp
two_tasks-IsValid = inserted one_task 1 one_task-IsValid (λ e. ground arith) refl refl

abbrev three_tasks : Heap
three_tasks = (heap_insert abstime no_memory two_tasks 4).1

three_tasks-IsValid : IsValid abstime three_tasks
unfolding heap_insert heap_init nft_timespec_comp
three_tasks-IsValid = inserted two_tasks 4 two_tasks-IsValid (λ e. ground arith) refl refl

heap_insert_example :
    (((heap_insert abstime no_memory two_tasks 4).0 ≡ true)
      × IsValid abstime three_tasks
      × Changed two_tasks three_tasks 4 true)
    ⊎ (heap_insert abstime no_memory two_tasks 4 ≡ (false, two_tasks))
unfolding heap_insert heap_init nft_timespec_comp
heap_insert_example =
    heap_insert_lem abstime inside no_memory two_tasks 4 two_tasks-IsValid (λ e. ground arith) refl

heap_pop_test : (heap_pop abstime no_memory three_tasks).0 ≡ 1
unfolding heap_pop heap_insert heap_init nft_timespec_comp
heap_pop_test = refl

heap_pop_example :
    (is_scheduled three_tasks (heap_pop abstime no_memory three_tasks).0 ≡ true)
    × (nanos (abstime (heap_pop abstime no_memory three_tasks).0) ≤ due abstime three_tasks 2)
    × IsValid abstime (heap_pop abstime no_memory three_tasks).1
    × Changed three_tasks
        (heap_pop abstime no_memory three_tasks).1
        (heap_pop abstime no_memory three_tasks).0
        false
unfolding heap_insert heap_init nft_timespec_comp
heap_pop_example =
    heap_pop_lem abstime inside no_memory three_tasks 2 three_tasks-IsValid (omega arith)

heap_delete_example :
    IsValid abstime (heap_delete abstime no_memory three_tasks 1)
    × Changed three_tasks (heap_delete abstime no_memory three_tasks 1) 3 false
unfolding heap_insert heap_init nft_timespec_comp
heap_delete_example =
    heap_delete_lem abstime inside no_memory three_tasks 1 three_tasks-IsValid (omega arith)
      (omega arith, omega arith)

heap_delete_breaks_example : ¬ IsHeap abstime (heap_delete abstime no_memory three_tasks 0)
unfolding heap_insert heap_init nft_timespec_comp
heap_delete_breaks_example =
    heap_delete_breaks abstime inside no_memory three_tasks 0 1 three_tasks-IsValid (omega arith)
      (omega arith) refl (omega arith) (omega arith) (omega arith)
