-- ===== src/Queue/Tests.antt =====
-- The theorems on the queue at concrete queues.
use nifty.Base.{
  true, ℕ, ◌≡◌, ◌⊎◌, refl, none, some, List, [], ◌∷◌, Status, ok, enomem, etimedout, ℤ, Alloc,
}
use nifty.Queue.{
  Queue, is_empty, is_shutdown, char_l, char_f, Wake, woken, queue_grow, queue_wait, enqueue_now,
  dequeue_now, create,
}
use nifty.Queue.Valid.{IsValid, create-IsValid, enqueue_now-IsValid}
use nifty.Queue.Items.{items}
use nifty.Queue.Deque
use nifty.Queue.Deque.{Op, enq, deq, Reply, Explains}
use nifty.Queue.Refine.{enqueue_now_refines, dequeue_now_refines}
use nifty.Queue.Wait.{Ends, Awaited, queue_wait_lem}
use nifty.Queue.Run.{run, run_refines}
use nifty.Queue.Api.Drain.{pop_all, IsClosing, pop_all_closing}

-- A block of memory with what was in it before.
abbrev some_memory : Alloc
some_memory = some λ i. i

-- A queue with a limit of two items.
abbrev no_items : Queue
no_items = create true (ℤ.pos 2)

abbrev one_item : Queue
one_item = (enqueue_now some_memory no_items 5 char_l).1

abbrev two_items : Queue
two_items = (enqueue_now some_memory one_item 6 char_f).1

-- Its items go round the end of the array: 6 stands in the last cell, and 5 in the first.
abbrev closing : Queue
closing = record two_items { shutdown = 1 }

no_items-IsValid : IsValid no_items
no_items-IsValid = create-IsValid (ℤ.pos 2)

one_item-IsValid : IsValid one_item
one_item-IsValid = enqueue_now-IsValid some_memory no_items 5 char_l no_items-IsValid

two_items-IsValid : IsValid two_items
two_items-IsValid = enqueue_now-IsValid some_memory one_item 6 char_f one_item-IsValid

closing-IsClosing : IsClosing closing
unfolding enqueue_now create
closing-IsClosing = record {
  valid = record {
    stored = two_items-IsValid.stored;
    large = two_items-IsValid.large;
    next_fits = two_items-IsValid.next_fits;
    first_fits = two_items-IsValid.first_fits;
    minarray = two_items-IsValid.minarray;
    trimmed = two_items-IsValid.trimmed;
  };
  flag = refl;
  alone = refl;
}

-- A program that fills the queue to its limit and empties it.
abbrev calls : List Op
calls = enq 5 char_l ∷ enq 6 char_f ∷ enq 7 char_l ∷ deq ∷ deq ∷ deq ∷ []

run_test :
    run (λ n. some_memory) no_items calls
    ≡ (ok, 0) ∷ (ok, 0) ∷ (etimedout, 0) ∷ (ok, 6) ∷ (ok, 5) ∷ (etimedout, 0) ∷ []
unfolding run enqueue_now dequeue_now create
run_test = refl

run_refines_example :
    Explains no_items.limit (items no_items) calls (run (λ n. some_memory) no_items calls)
unfolding create
run_refines_example = run_refines (λ n. some_memory) calls no_items no_items-IsValid refl

pop_all_closing_example : pop_all 2 (some closing) ≡ (6 ∷ 5 ∷ [], none)
unfolding enqueue_now create
pop_all_closing_example = pop_all_closing closing 6 (5 ∷ []) closing-IsClosing refl

enqueue_now_refines_example :
    (enqueue_now some_memory two_items 7 char_l ≡ (enomem, two_items))
    ⊎ ((enqueue_now some_memory two_items 7 char_l).0
        ≡ (Deque.enqueue (is_shutdown two_items) two_items.limit (items two_items) 7 char_l).0)
      × (items (enqueue_now some_memory two_items 7 char_l).1
          ≡ (Deque.enqueue (is_shutdown two_items) two_items.limit (items two_items) 7 char_l).1)
enqueue_now_refines_example = enqueue_now_refines some_memory two_items 7 char_l two_items-IsValid

dequeue_now_refines_example :
    ◌≡◌ {A = Status × ℕ × List ℕ}
      ((dequeue_now two_items).0, (dequeue_now two_items).1, items (dequeue_now two_items).2)
      (ok, 6, 5 ∷ [])
unfolding enqueue_now create
dequeue_now_refines_example = dequeue_now_refines two_items two_items-IsValid

-- Two items in an array of twice the least size.
abbrev sparse : Queue
sparse = (queue_grow some_memory two_items).1

last_item : Queue
last_item = (dequeue_now closing).2

-- While a thread waits for room, another takes an item.
abbrev schedule : List Wake
schedule = record { code = ok; found = (dequeue_now two_items).2 } ∷ []

queue_wait_example : Ends (Awaited (is_empty two_items)) (queue_wait schedule two_items (ℤ.pos 9))
unfolding enqueue_now create
queue_wait_example = queue_wait_lem schedule two_items (ℤ.pos 9) refl refl

queue_wait_test : queue_wait schedule two_items (ℤ.pos 9) ≡ woken ok (dequeue_now two_items).2
unfolding queue_wait dequeue_now enqueue_now create
queue_wait_test = refl
