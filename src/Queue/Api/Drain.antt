-- ===== src/Queue/Api/Drain.antt =====
-- Shutting a queue down and emptying it: when the handle ceases to be valid.
use nifty.Base.{
  ℕ, zero, suc, ◌+◌, ◌-◌, ◌≡◌, ◌≢◌, ◌⊎◌, refl, true, false, none, some, List, [], ◌∷◌, arith, inl,
  inr, Status, ok, etimedout, if◌then◌else◌, ap, ℤ, length,
}
use nifty.Queue.{Queue, is_empty, Outcome, returned, waiting, dequeue_now, dequeue}
use nifty.Queue.Valid.{IsValid, dequeue_now-IsValid}
use nifty.Queue.Items.{items, length-items}
use nifty.Queue.Refine.{dequeue_now_refines}
use nifty.Queue.Life.{Released, dequeue_now-Released}
use nifty.Queue.Api.{Slot, lookup, pop_wait_ex, shutdown, begin_shutdown, end_shutdown}

-- A pop that does not wait, from the handle on.
abbrev pop_now : Slot → Outcome ((Status × ℕ) × Slot)
pop_now h = pop_wait_ex [] h (ℤ.pos 0)

-- The items that successive pops return, and the handle after them.
pub pop_all : ℕ → Slot → List ℕ × Slot
unfolding pop_wait_ex
pop_all zero h = ([], h)
pop_all (suc n) h = elim (pop_now h) [
  | waiting ↦ ([], h)
  | returned ((c, x), h') ↦ (x ∷ (pop_all n h').0, (pop_all n h').1)
]

-- Shut down, with no reference but the one that its creation left.
pub record IsClosing (q : Queue) : Type 0 where
  pub valid : IsValid q
  pub flag : q.shutdown ≡ 1
  pub alone : q.refs ≡ 1

-- The queue behind the handle, after the pop of its first item.
popped : Queue → Queue
popped q = let r = (dequeue_now (lookup q)).2 in record r { refs = r.refs - 1 }

lookup-IsValid : (q : Queue) → IsValid q → IsValid (lookup q)
lookup-IsValid q v = ground arith

module _ (q : Queue) (x : ℕ) (xs : List ℕ) (c : IsClosing q) (e : items q ≡ x ∷ xs) where
  dequeued :
      ((dequeue_now (lookup q)).0 ≡ ok)
      × ((dequeue_now (lookup q)).1 ≡ x)
      × (items (dequeue_now (lookup q)).2 ≡ xs)
  dequeued = ground (arith, dequeue_now_refines (lookup q) (lookup-IsValid q c.valid))

  released : Released (lookup q) (dequeue_now (lookup q)).2
  released = dequeue_now-Released (lookup q) dequeued.0

  items-popped : items (popped q) ≡ xs
  unfolding popped
  items-popped = dequeued.2

  popped-IsClosing : is_empty (popped q) ≡ false → IsClosing (popped q)
  unfolding popped
  popped-IsClosing h =
      ground (arith, released, c, dequeue_now-IsValid (lookup q) (lookup-IsValid q c.valid))

  pop_now_closing :
      pop_now (some q) ≡ returned ((ok, x), if is_empty (popped q) then none else some (popped q))
  unfolding popped pop_wait_ex dequeue
  pop_now_closing = ground (arith, dequeued, released, c)

-- A valid queue with no items has the index that says so.
is_empty_of_nil : (q : Queue) → IsValid q → items q ≡ [] → is_empty q ≡ true
is_empty_of_nil q v e = ground (arith, length-items q, ap {B = ℕ} length e)

not_empty_of_cons : (q : Queue) (x : ℕ) (xs : List ℕ) → items q ≡ x ∷ xs → is_empty q ≡ false
not_empty_of_cons q x xs e = ground arith

popped-IsValid : (q : Queue) → IsValid q → IsValid (popped q)
unfolding popped
popped-IsValid q v = ground (arith, dequeue_now-IsValid (lookup q) (lookup-IsValid q v))

-- Popping a queue that is shut down, valid, and referred to only by the reference of its creation,
-- as often as it has items, where it has some, returns the items in order, and the handle is not
-- valid after the last pop.
pub pop_all_closing :
    (q : Queue) (x : ℕ) (xs : List ℕ)
    → IsClosing q
    → items q ≡ x ∷ xs
    → pop_all (suc (length xs)) (some q) ≡ (x ∷ xs, none)
unfolding pop_all
pop_all_closing q x [] c e =
    let gone = is_empty_of_nil (popped q) (popped-IsValid q c.valid) (items-popped q x [] c e) in
    ground (arith, pop_now_closing q x [] c e, gone)
pop_all_closing q x (y ∷ ys) c e =
    let left = items-popped q x (y ∷ ys) c e in
    let more = not_empty_of_cons (popped q) y ys left in
    let rest = pop_all_closing (popped q) y ys (popped-IsClosing q x (y ∷ ys) c e more) left in
    ground (arith, pop_now_closing q x (y ∷ ys) c e, more, rest)

List-cases : (l : List ℕ) → (l ≡ []) ⊎ ((x : ℕ) × (xs : List ℕ) × (l ≡ x ∷ xs))
List-cases [] = inl refl
List-cases (x ∷ xs) = inr (x, xs, refl)

-- nft_queue_shutdown with a timeout of zero, on a valid queue that is running and that nobody else
-- refers to: an empty queue is destroyed. One that holds items is left closing, with its items,
-- and the call returns ETIMEDOUT.
pub shutdown_now :
    (q : Queue)
    → IsValid q
    → q.shutdown ≡ 0
    → q.refs ≡ 1
    → ((items q ≡ []) × (shutdown [] (some q) (ℤ.pos 0) ≡ returned (ok, none)))
      ⊎ ((q' : Queue) × (items q ≢ [])
          × (shutdown [] (some q) (ℤ.pos 0) ≡ returned (etimedout, some q'))
          × IsClosing q'
          × (items q' ≡ items q))
unfolding shutdown begin_shutdown end_shutdown
shutdown_now q v h r = elim (List-cases (items q)) [
  | inl e ↦ let gone = is_empty_of_nil q v e in inl (e, ground arith)
  | inr (x, xs, e) ↦
      let held = not_empty_of_cons q x xs e in
      inr (
        record q { shutdown = 1; broadcasts = q.broadcasts + 1 },
        λ n. ground (arith, e, n),
        ground arith,
        ground arith,
        refl,
      )
]
