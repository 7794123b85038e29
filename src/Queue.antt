-- ===== src/Queue.antt =====
-- src/nft_queue.c: the circular array that holds the queued items, growing and shrinking it,
-- enqueueing and dequeueing, and the waits of a thread that finds the queue full or empty.
-- The mutex is held from one wait to the next, so a call runs alone except at its waits: a wait
-- takes from a schedule what pthread_cond_wait returned and the queue that it found then.
pub mod Valid
pub mod Items
pub mod Store
pub mod Resize
pub mod Refine
pub mod Deque
pub mod Life
pub mod Run
pub mod Wait
pub mod Api
mod Tests
use nifty.Base.{
  ℕ, ◌+◌, ◌-◌, ◌*◌, ◌/◌, ◌%◌, Bool, true, false, not, ◌&&◌, ◌||◌, Option, none, some, List, [], ◌∷◌,
  ◌++◌, ltb, leb, ◌==◌, if◌then◌else◌, ℤ, nonzero, Status, ok, enomem, etimedout, eshutdown, is_ok,
  int_max, get_or, set, take, replicate, blit, cells, Alloc,
}

abbrev pub min_size : ℕ
min_size = 32

-- `struct nft_queue`. An index that the source sets to -1 is `none`. Of the array it is kept
-- whether it is `minarray`, of the condition how many broadcasts were sent to it, and of the core
-- object the reference count that the handle map keeps for it. `trims` tells whether `realloc`
-- succeeds where it makes the array smaller; no function sets it.
pub record Queue : Type 0 where
  pub shutdown : ℕ
  pub first : Option ℕ
  pub next : ℕ
  pub size : ℕ
  pub limit : ℕ
  pub array : List ℕ
  pub is_minarray : Bool
  pub broadcasts : ℕ
  pub refs : ℕ
  pub trims : Bool

-- EMPTY(q)
abbrev pub is_empty : Queue → Bool
is_empty q = elim q.first [ none ↦ true | some f ↦ false ]

-- FULL(q)
abbrev pub is_full : Queue → Bool
is_full q = elim q.first [ none ↦ false | some f ↦ q.next == f ]

-- NEXT(i)
abbrev pub next_index : Queue → ℕ → ℕ
next_index q i = (i + 1) % q.size

-- PREV(i)
abbrev pub prev_index : Queue → ℕ → ℕ
prev_index q i = (i + q.size - 1) % q.size

-- COUNT(q)
abbrev pub count : Queue → ℕ
count q = elim q.first [ none ↦ 0 | some f ↦ q.next + (if leb q.next f then q.size else 0) - f ]

-- LIMIT(q)
abbrev pub at_limit : Queue → Bool
at_limit q = ltb 0 q.limit && leb q.limit (count q)

-- GROW(q)
abbrev pub must_grow : Queue → Bool
must_grow q = is_full q && ((q.limit == 0) || ltb q.size q.limit)

-- SHRINK(q)
abbrev pub must_shrink : Queue → Bool
must_shrink q = ltb (count q) (q.size / 4) && leb min_size (q.size / 2)

-- SHUTDOWN(q)
abbrev pub is_shutdown : Queue → Bool
is_shutdown q = not (q.shutdown == 0)

abbrev pub broadcast : Queue → Queue
broadcast q = record q { broadcasts = q.broadcasts + 1 }

-- The block after the old items are copied to it: zeroed behind `minarray`, and behind an array
-- from `realloc` as the allocator left it.
pub grown : (ℕ → ℕ) → Queue → List ℕ
grown junk q =
    if q.is_minarray
    then blit (replicate (2 * q.size) 0) 0 q.array 0 q.size
    else q.array ++ cells junk q.size

-- Whether the items go round the end of the array.
abbrev pub is_wrapped : Queue → Bool
is_wrapped q = elim q.first [ none ↦ false | some f ↦ leb q.next f ]

-- The larger block with the part of the items that had gone round moved behind the others.
pub unwrapped : (ℕ → ℕ) → Queue → List ℕ
unfolding grown
unwrapped junk q =
    if is_wrapped q then blit (grown junk q) q.size (grown junk q) 0 q.next else grown junk q

pub queue_grow : Alloc → Queue → Status × Queue
unfolding unwrapped
queue_grow mem q = if ltb int_max (2 * q.size) then (enomem, q) else elim mem [
  | none ↦ (enomem, q)
  | some junk ↦ (
    ok,
    record q {
      array = unwrapped junk q;
      next = if is_wrapped q then q.next + q.size else q.next;
      size = 2 * q.size;
      is_minarray = false;
    },
  )
]

-- The items moved to the start of the array from where the first is. Where they go round its end,
-- the part at the start is first moved up, to follow the part that ends the array.
pub packed : Queue → ℕ → List ℕ
packed q f =
    if ltb f q.next
    then blit q.array 0 q.array f (count q)
    else (let shifted = blit q.array (q.size - f) q.array 0 q.next in
        blit shifted 0 shifted f (q.size - f))

-- What `realloc` returns is not tested: where it fails, the array is lost. It is not called where
-- the items go back to `minarray`.
pub queue_shrink : Queue → Queue
unfolding packed
queue_shrink q = record q {
  array =
      if ((q.size / 2) == min_size) || q.trims
      then take (q.size / 2) (elim q.first [ none ↦ q.array | some f ↦ packed q f ])
      else [];
  first = elim q.first [ none ↦ none | some f ↦ some 0 ];
  next = if is_empty q then q.next else count q;
  size = q.size / 2;
  is_minarray = (q.size / 2) == min_size;
}

-- One entry of a schedule: a wait on the condition that ended.
pub record Wake : Type 0 where
  pub code : Status
  pub found : Queue

-- `blocked` is a thread that no entry of the schedule wakes.
pub data Waited : Type 0 where
  woken : Status → Queue → Waited
  blocked : Waited

-- The condition of both loops in queue_wait.
abbrev pub keeps_waiting : Bool → Queue → Bool
keeps_waiting empty q = not (is_shutdown q) && (if empty then is_empty q else at_limit q)

pub wait_loop : Bool → List Wake → Status → Queue → Waited
wait_loop empty [] result q = if keeps_waiting empty q then blocked else woken result q
wait_loop empty (w ∷ ws) result q =
    let again = wait_loop empty ws w.code w.found in
    if keeps_waiting empty q
    then (if is_ok w.code then again else woken w.code w.found)
    else woken result q

-- `if (SHUTDOWN(q)) result = ESHUTDOWN`
abbrev pub shutdown_code : Waited → Waited
shutdown_code (woken result q) = woken (if is_shutdown q then eshutdown else result) q
shutdown_code blocked = blocked

pub queue_wait : List Wake → Queue → ℤ → Waited
unfolding wait_loop
queue_wait ws q timeout =
    if is_shutdown q
    then woken eshutdown q
    else shutdown_code (if nonzero timeout then wait_loop (is_empty q) ws ok q else woken ok q)

-- The parameter `which`: 'L' or 'F'.
pub data Which : Type 0 where
  char_l char_f : Which

-- nft_queue_enqueue, the branch that stores the item.
pub store : Queue → ℕ → Which → Queue
store q item which = elim q.first [
  | none ↦ broadcast (record q { array = set q.array 0 item; first = some 0; next = 1 })
  | some f ↦ elim which [
    | char_l ↦ record q { array = set q.array q.next item; next = next_index q q.next }
    | char_f ↦ record q { first = some (prev_index q f); array = set q.array (prev_index q f) item }
  ]
]

-- nft_queue_enqueue, the branch of a queue that is below its limit.
pub grow_and_store : Alloc → Queue → ℕ → Which → Status × Queue
unfolding queue_grow store
grow_and_store mem q item which =
    if must_grow q
    then (let (result, q') = queue_grow mem q in
        if is_ok result then (ok, store q' item which) else (result, q'))
    else (ok, store q item which)

-- nft_queue_enqueue from the test of SHUTDOWN(q) on, after any wait.
unfoldable pub enqueue_now : Alloc → Queue → ℕ → Which → Status × Queue
unfolding grow_and_store
enqueue_now mem q item which =
    if is_shutdown q
    then (eshutdown, q)
    else if at_limit q
    then (etimedout, q)
    else grow_and_store mem q item which

-- What a call that may wait comes to.
pub data Outcome {ℓ} (A : Type ℓ) : Type ℓ where
  returned : A → Outcome A
  waiting : Outcome A

-- nft_queue_enqueue. What queue_wait returns is not looked at.
pub enqueue : Alloc → List Wake → Queue → ℕ → ℤ → Which → Outcome (Status × Queue)
unfolding enqueue_now queue_wait
enqueue mem ws q item timeout which =
    if at_limit q && nonzero timeout
    then (elim (queue_wait ws q timeout) [
      | blocked ↦ waiting
      | woken code q' ↦ returned (enqueue_now mem q' item which)
    ])
    else returned (enqueue_now mem q item which)

-- nft_queue_dequeue, the steps for a queue that holds an item, in order: wake the threads that
-- wait for room, take the first item, reset an array that has run empty, and shrink it.
pub wake_enqueuers : Queue → Queue
wake_enqueuers q = if at_limit q then broadcast q else q

pub take_first : Queue → ℕ → ℕ × Queue
take_first q f = (get_or q.array f 0, record q { first = some (next_index q f) })

pub reset_if_full : Queue → Queue
reset_if_full q =
    if is_full q
    then (let r = record q { first = none; next = 0 } in if is_shutdown q then broadcast r else r)
    else q

pub shrink_if_sparse : Queue → Queue
shrink_if_sparse q = if not (is_shutdown q) && must_shrink q then queue_shrink q else q

-- The discard of the reference that the creation of the queue left.
pub release_if_drained : Queue → Queue
release_if_drained q =
    if is_empty q && (q.shutdown == 1)
    then record q { shutdown = q.shutdown + 1; refs = q.refs - 1 }
    else q

pub dequeue_from : Queue → ℕ → ℕ × Queue
unfolding wake_enqueuers take_first reset_if_full shrink_if_sparse release_if_drained
dequeue_from q f =
    let (item, rest) = take_first (wake_enqueuers q) f in
    (item, release_if_drained (shrink_if_sparse (reset_if_full rest)))

-- nft_queue_dequeue after any wait: the code, the item that is written to *itemp, the queue.
unfoldable pub dequeue_now : Queue → Status × ℕ × Queue
unfolding dequeue_from
dequeue_now q = elim q.first [
  | none ↦ (if is_shutdown q then eshutdown else etimedout, 0, q)
  | some f ↦ (ok, (dequeue_from q f).0, (dequeue_from q f).1)
]

-- nft_queue_dequeue, on a queue and a place for the item that are not null.
pub dequeue : List Wake → Queue → ℤ → Outcome (Status × ℕ × Queue)
unfolding dequeue_now queue_wait
dequeue ws q timeout =
    if is_empty q && nonzero timeout
    then (elim (queue_wait ws q timeout) [
      | blocked ↦ waiting
      | woken code q' ↦ returned (dequeue_now q')
    ])
    else returned (dequeue_now q)

-- nft_queue_create, from the fields on: a negative limit is the smallest array's size. The core
-- object comes with one reference.
unfoldable pub create : Bool → ℤ → Queue
create trims limit = record {
  shutdown = 0;
  first = none;
  next = 0;
  size = min_size;
  limit = elim limit [ ℤ.pos n ↦ n | ℤ.negsuc n ↦ min_size ];
  array = replicate min_size 0;
  is_minarray = true;
  broadcasts = 0;
  refs = 1;
  trims = trims;
}
