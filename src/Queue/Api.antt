-- ===== src/Queue/Api.antt =====
-- The handle-based functions of nft_queue.c. A handle leads to the queue as long as its reference
-- count is positive; `none` is a handle that is not valid, or no longer.
pub mod Drain
use nifty.Base.{
  Alloc, ℕ, ◌+◌, ◌-◌, Bool, true, false, Option, none, some, List, [], ◌∷◌, if◌then◌else◌, ◌==◌, ℤ,
  nonzero, Status, ok, einval, etimedout, eshutdown, is_ok, get_or, not, ◌&&◌,
}
use nifty.Queue.{
  Queue, is_empty, is_shutdown, broadcast, count, Wake, Waited, woken, blocked, Outcome, returned,
  waiting, enqueue, dequeue, char_l, char_f, Which, create,
}

-- What a handle refers to.
abbrev pub Slot : Type 0
Slot = Option Queue

-- nft_queue_lookup: a reference more.
abbrev pub lookup : Queue → Queue
lookup q = record q { refs = q.refs + 1 }

-- nft_queue_discard: a reference less; the last one destroys the queue.
abbrev pub discard : Queue → Slot
discard q = if q.refs == 1 then none else some (record q { refs = q.refs - 1 })

-- A call that holds a reference while it runs: it ends with a result and the discard.
abbrev pub finish {ℓ} : {A : Type ℓ} → A → Queue → Outcome (A × Slot)
finish a q = returned (a, discard q)

-- The body that nft_queue_add_wait and nft_queue_push_wait share.
pub enqueue_by_handle : Which → Alloc → List Wake → Slot → ℕ → ℤ → Outcome (Status × Slot)
unfolding enqueue
enqueue_by_handle w mem ws none item timeout = returned (einval, none)
enqueue_by_handle w mem ws (some q) item timeout = elim (enqueue mem ws (lookup q) item timeout w) [
  | waiting ↦ waiting
  | returned (code, q') ↦ finish code q'
]

pub add_wait : Alloc → List Wake → Slot → ℕ → ℤ → Outcome (Status × Slot)
unfolding enqueue_by_handle
add_wait = enqueue_by_handle char_l

pub add : Alloc → List Wake → Slot → ℕ → Outcome (Status × Slot)
unfolding add_wait
add mem ws h item = add_wait mem ws h item (ℤ.negsuc 0)

pub push_wait : Alloc → List Wake → Slot → ℕ → ℤ → Outcome (Status × Slot)
unfolding enqueue_by_handle
push_wait = enqueue_by_handle char_f

pub push : Alloc → List Wake → Slot → ℕ → Outcome (Status × Slot)
unfolding push_wait
push mem ws h item = push_wait mem ws h item (ℤ.negsuc 0)

-- The code and the item that is written to *itemp.
pub pop_wait_ex : List Wake → Slot → ℤ → Outcome ((Status × ℕ) × Slot)
unfolding dequeue
pop_wait_ex ws none timeout = returned ((einval, 0), none)
pop_wait_ex ws (some q) timeout = elim (dequeue ws (lookup q) timeout) [
  | waiting ↦ waiting
  | returned (code, item, q') ↦ finish (code, item) q'
]

pub pop_wait : List Wake → Slot → ℤ → Outcome (ℕ × Slot)
unfolding dequeue
pop_wait ws none timeout = returned (0, none)
pop_wait ws (some q) timeout = elim (dequeue ws (lookup q) timeout) [
  | waiting ↦ waiting
  | returned (code, item, q') ↦ finish item q'
]

pub pop : List Wake → Slot → Outcome (ℕ × Slot)
unfolding pop_wait
pop ws h = pop_wait ws h (ℤ.negsuc 0)

-- nft_queue_shutdown: the flag and the broadcast, at the first call only.
unfoldable pub begin_shutdown : Queue → Queue
begin_shutdown q = if is_shutdown q then q else broadcast (record q { shutdown = 1 })

-- `while (!EMPTY(q))`, as either loop waits.
pub drain_loop : List Wake → Status → Queue → Waited
drain_loop [] result q = if is_empty q then woken result q else blocked
drain_loop (w ∷ ws) result q =
    let again = drain_loop ws w.code w.found in
    if is_empty q then woken result q else if is_ok w.code then again else woken w.code w.found

-- nft_queue_shutdown from the second test of EMPTY(q) on.
unfoldable pub end_shutdown : Queue → Status × Queue
end_shutdown q =
    if is_empty q
    then (
      ok,
      record q { shutdown = q.shutdown + 1; refs = if q.shutdown == 1 then q.refs - 1 else q.refs },
    )
    else (etimedout, q)

pub shutdown : List Wake → Slot → ℤ → Outcome (Status × Slot)
unfolding begin_shutdown drain_loop end_shutdown
shutdown ws none timeout = returned (einval, none)
shutdown ws (some q) timeout =
    let q₁ = begin_shutdown (lookup q) in
    elim (if nonzero timeout then drain_loop ws ok q₁ else woken ok q₁) [
      | blocked ↦ waiting
      | woken _ q₂ ↦ finish (end_shutdown q₂).0 (end_shutdown q₂).1
    ]

-- nft_queue_count; `none` is -1.
pub queue_count : Slot → Option ℕ
queue_count none = none
queue_count (some q) = some (count q)

-- nft_queue_peek; zero is NULL.
pub peek : Slot → ℕ
peek none = 0
peek (some q) = elim q.first [ none ↦ 0 | some f ↦ get_or q.array f 0 ]

pub queue_state : Slot → Status
queue_state none = einval
queue_state (some q) = if is_shutdown q then eshutdown else ok

-- nft_queue_new; the reference that the creation leaves keeps the handle valid.
pub queue_new : Bool → ℤ → Slot
queue_new trims limit = some (create trims limit)
