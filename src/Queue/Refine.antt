-- ===== src/Queue/Refine.antt =====
-- The queue refines the list with a limit: what an enqueue and a dequeue return and leave.
use nifty.Base.{
  Alloc, ℕ, ◌*◌, ◌≤◌, ◌≡◌, ◌≢◌, ◌⊎◌, refl, sym, true, false, none, some, ◌∷◌, arith, inl, inr,
  Option-cases, Bool-cases, ok, enomem, is_ok, int_max, ap, ◌∙◌,
}
use nifty.Queue.{
  Queue, at_limit, must_grow, is_full, is_shutdown, queue_grow, Which, grow_and_store, enqueue_now,
  wake_enqueuers, take_first, reset_if_full, shrink_if_sparse, release_if_drained, dequeue_from,
  dequeue_now,
}
use nifty.Queue.Deque
use nifty.Queue.Valid.{
  IsValid, queue_grow-IsValid, wake_enqueuers-IsValid, take_first-IsValid, reset_if_full-IsValid,
}
use nifty.Queue.Items.{items, length-items}
use nifty.Queue.Store.{items-store, items-take_first}
use nifty.Queue.Resize.{items-queue_grow, items-queue_shrink}

-- After growing, the array has room.
room_after_grow :
    (mem : Alloc) (q : Queue)
    → IsValid q
    → is_ok (queue_grow mem q).0 ≡ true
    → is_full (queue_grow mem q).1 ≡ false
unfolding queue_grow
room_after_grow none q v h = ground arith
room_after_grow (some junk) q v h = elim (Option-cases q.first) [
  | inl e ↦ ground arith
  | inr (f, e) ↦ ground arith
]

-- growing fails only with ENOMEM, and then leaves the queue as it was
grow_fails :
    (mem : Alloc) (q : Queue) → is_ok (queue_grow mem q).0 ≡ false → queue_grow mem q ≡ (enomem, q)
unfolding queue_grow
grow_fails none q h = ground arith
grow_fails (some junk) q h = ground arith

-- A full array that need not grow is at the limit.
room_unless_grow :
    (q : Queue) → IsValid q → at_limit q ≡ false → must_grow q ≡ false → is_full q ≡ false
room_unless_grow q v under still = elim (Option-cases q.first) [
  | inl e ↦ ground arith
  | inr (f, e) ↦ ground arith
]

grow_and_store_refines :
    (mem : Alloc) (q : Queue) (x : ℕ) (w : Which)
    → IsValid q
    → at_limit q ≡ false
    → (grow_and_store mem q x w ≡ (enomem, q))
      ⊎ ((grow_and_store mem q x w).0 ≡ ok)
        × (items (grow_and_store mem q x w).1 ≡ Deque.put w x (items q))
unfolding grow_and_store
grow_and_store_refines mem q x w v under = elim (Bool-cases (must_grow q)) [
  | inl grows ↦ elim (Bool-cases (is_ok (queue_grow mem q).0)) [
    | inl done ↦
        rw (grows, done)
          (inr (
            refl,
            items-store (queue_grow mem q).1 x w (queue_grow-IsValid mem q v)
                  (room_after_grow mem q v done)
                ∙ ap (Deque.put w x) (items-queue_grow mem q v),
          ))
    | inr failed ↦ rw (grows, failed) (inl (grow_fails mem q failed))
  ]
  | inr still ↦ rw still (inr (refl, items-store q x w v (room_unless_grow q v under still)))
]

-- An enqueue that does not wait, on a valid queue, returns the code that the list's enqueue
-- returns and leaves the items that it leaves, or it returns ENOMEM and leaves the queue as it
-- was.
pub enqueue_now_refines :
    (mem : Alloc) (q : Queue) (x : ℕ) (w : Which)
    → IsValid q
    → (enqueue_now mem q x w ≡ (enomem, q))
      ⊎ ((enqueue_now mem q x w).0 ≡ (Deque.enqueue (is_shutdown q) q.limit (items q) x w).0)
        × (items (enqueue_now mem q x w).1
            ≡ (Deque.enqueue (is_shutdown q) q.limit (items q) x w).1)
unfolding enqueue_now
enqueue_now_refines mem q x w v = ground (arith, grow_and_store_refines mem q x w v, length-items q)

-- An enqueue that does not wait does not return ENOMEM where there is memory for an array of twice
-- the size and that size is in the range of `int`.
pub enqueue_now-ne-enomem :
    (junk : ℕ → ℕ) (q : Queue) (x : ℕ) (w : Which)
    → 2 * q.size ≤ int_max
    → (enqueue_now (some junk) q x w).0 ≢ enomem
unfolding enqueue_now
enqueue_now-ne-enomem junk q x w small = ground (arith)

items-wake_enqueuers : (q : Queue) → items (wake_enqueuers q) ≡ items q
unfolding wake_enqueuers
items-wake_enqueuers q = ground arith

first-wake_enqueuers : (q : Queue) → (wake_enqueuers q).first ≡ q.first
unfolding wake_enqueuers
first-wake_enqueuers q = ground arith

items-shrink_if_sparse : (q : Queue) → IsValid q → items (shrink_if_sparse q) ≡ items q
unfolding shrink_if_sparse
items-shrink_if_sparse q v = ground (arith, items-queue_shrink q v)

items-release_if_drained : (q : Queue) → items (release_if_drained q) ≡ items q
unfolding release_if_drained
items-release_if_drained q = ground arith

items-dequeue_from :
    (q : Queue) (f : ℕ)
    → IsValid q
    → q.first ≡ some f
    → items q ≡ (dequeue_from q f).0 ∷ items (dequeue_from q f).1
unfolding dequeue_from
items-dequeue_from q f v e =
    let w = wake_enqueuers-IsValid q v in
    let taken = items-take_first (wake_enqueuers q) f w (first-wake_enqueuers q ∙ e) in
    let r = reset_if_full (take_first (wake_enqueuers q) f).1 in
    let vr = reset_if_full-IsValid _ (take_first-IsValid (wake_enqueuers q) f w) in
    sym (items-wake_enqueuers q)
    ∙ (taken
        ∙ ap (◌∷◌ (take_first (wake_enqueuers q) f).0)
            (sym (items-release_if_drained (shrink_if_sparse r) ∙ items-shrink_if_sparse r vr)))

-- A dequeue that does not wait, on a valid queue, where realloc does not fail as it makes the array
-- smaller, returns the code and the item that the list's
-- dequeue returns, and leaves the items that it leaves.
pub dequeue_now_refines :
    (q : Queue)
    → IsValid q
    → let (c, x, q') = dequeue_now q in (c, x, items q') ≡ Deque.dequeue (is_shutdown q) (items q)
unfolding dequeue_now
dequeue_now_refines q v = elim (Option-cases q.first) [
  | inl e ↦ ground arith
  | inr (f, e) ↦ ground (arith, items-dequeue_from q f v e)
]

-- An enqueue that fails does not change the queue.
pub enqueue_now_fails :
    (mem : Alloc) (q : Queue) (x : ℕ) (w : Which)
    → is_ok (enqueue_now mem q x w).0 ≡ false
    → (enqueue_now mem q x w).1 ≡ q
unfolding enqueue_now grow_and_store
enqueue_now_fails mem q x w = elim (Bool-cases (is_shutdown q)) [
  | inl e ↦ rw e (λ f. refl)
  | inr e ↦ rw e (elim (Bool-cases (at_limit q)) [
    | inl full ↦ rw full (λ f. refl)
    | inr room ↦ rw room (elim (Bool-cases (must_grow q)) [
      | inr fits ↦ rw fits (λ f. absurd (ground (arith, f)))
      | inl grow ↦ rw grow (elim (Bool-cases (is_ok (queue_grow mem q).0)) [
        | inl done ↦ rw done (λ f. absurd (ground (arith, f)))
        | inr failed ↦ rw failed (λ f. ground (arith, grow_fails mem q failed))
      ])
    ])
  ])
]
