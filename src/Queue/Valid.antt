-- ===== src/Queue/Valid.antt =====
-- The representation invariant of `nft_queue`: what VALIDATE(q) asserts, with the array's real
-- length and the rule for when it is `minarray`, and that `realloc` does not fail where it makes the
-- array smaller.
use nifty.Base.{
  Alloc, ℕ, ◌-◌, ◌*◌, ◌/◌, ◌≤◌, ◌<◌, ◌≡◌, refl, true, Option, none, some, arith, inl, inr,
  Option-cases, ◌==◌, ℤ, length, length-set, length-blit, length-replicate, length-cells,
  length-append, length-take, blit, cells, replicate,
}
use nifty.Queue.{
  Queue, min_size, count, must_shrink, prev_index, grown, unwrapped, queue_grow, packed,
  queue_shrink, Which, char_l, char_f, store, grow_and_store, enqueue_now, wake_enqueuers,
  take_first, reset_if_full, shrink_if_sparse, release_if_drained, dequeue_from, dequeue_now,
  create,
}

abbrev pub FirstFits : Option ℕ → ℕ → ℕ → Type 0
FirstFits none next size = next ≡ 0
FirstFits (some f) next size = f < size

pub record IsValid (q : Queue) : Type 0 where
  pub stored : length q.array ≡ q.size
  pub large : min_size ≤ q.size
  pub next_fits : q.next < q.size
  pub first_fits : FirstFits q.first q.next q.size
  pub minarray : q.is_minarray ≡ (q.size == min_size)
  pub trimmed : q.trims ≡ true

pub create-IsValid : (limit : ℤ) → IsValid (create true limit)
unfolding create
create-IsValid limit = record {
  stored = length-replicate {A = ℕ} 32 0;
  large = omega arith;
  next_fits = omega arith;
  first_fits = omega arith;
  minarray = ground arith;
  trimmed = refl;
}

pub length-grown : (junk : ℕ → ℕ) (q : Queue) → IsValid q → length (grown junk q) ≡ 2 * q.size
unfolding grown
length-grown junk q v = ground (
  arith,
  length-blit (replicate (2 * q.size) 0) 0 q.array 0 q.size,
  length-replicate {A = ℕ} (2 * q.size) 0,
  length-append q.array (cells junk q.size),
  length-cells junk q.size,
)

pub length-unwrapped :
    (junk : ℕ → ℕ) (q : Queue) → IsValid q → length (unwrapped junk q) ≡ 2 * q.size
unfolding unwrapped
length-unwrapped junk q v =
    ground (arith, length-grown junk q v, length-blit (grown junk q) q.size (grown junk q) 0 q.next)

-- Growing keeps the invariant.
pub queue_grow-IsValid : (mem : Alloc) (q : Queue) → IsValid q → IsValid (queue_grow mem q).1
unfolding queue_grow
queue_grow-IsValid none q v = ground arith
queue_grow-IsValid (some junk) q v = ground (arith, length-unwrapped junk q v)

pub length-packed : (q : Queue) (f : ℕ) → length (packed q f) ≡ length q.array
unfolding packed
length-packed q f =
    let shifted = blit q.array (q.size - f) q.array 0 q.next in
    ground (
      arith,
      length-blit q.array 0 q.array f (count q),
      length-blit q.array (q.size - f) q.array 0 q.next,
      length-blit shifted 0 shifted f (q.size - f),
    )

-- Shrinking keeps the invariant.
pub queue_shrink-IsValid : (q : Queue) → must_shrink q ≡ true → IsValid q → IsValid (queue_shrink q)
unfolding queue_shrink
queue_shrink-IsValid q m v = elim (Option-cases q.first) [
  | inl e ↦ ground (arith, length-take (q.size / 2) q.array)
  | inr (f, e) ↦ ground (arith, length-packed q f, length-take (q.size / 2) (packed q f))
]

-- Storing an item keeps the invariant.
pub store-IsValid : (q : Queue) (x : ℕ) (w : Which) → IsValid q → IsValid (store q x w)
unfolding store
store-IsValid q x char_l v = ground (arith, length-set q.array 0 x, length-set q.array q.next x)
store-IsValid q x char_f v = elim (Option-cases q.first) [
  | inl e ↦ ground (arith, length-set q.array 0 x)
  | inr (f, e) ↦ ground (arith, length-set q.array (prev_index q f) x)
]

grow_and_store-IsValid :
    (mem : Alloc) (q : Queue) (x : ℕ) (w : Which) → IsValid q → IsValid (grow_and_store mem q x w).1
unfolding grow_and_store
grow_and_store-IsValid mem q x w v = ground (
  arith,
  queue_grow-IsValid mem q v,
  store-IsValid q x w v,
  store-IsValid (queue_grow mem q).1 x w,
)

-- An enqueue keeps the invariant, whatever it returns.
pub enqueue_now-IsValid :
    (mem : Alloc) (q : Queue) (x : ℕ) (w : Which) → IsValid q → IsValid (enqueue_now mem q x w).1
unfolding enqueue_now
enqueue_now-IsValid mem q x w v = ground (arith, grow_and_store-IsValid mem q x w v)

pub wake_enqueuers-IsValid : (q : Queue) → IsValid q → IsValid (wake_enqueuers q)
unfolding wake_enqueuers
wake_enqueuers-IsValid q v = ground arith

pub take_first-IsValid : (q : Queue) (f : ℕ) → IsValid q → IsValid (take_first q f).1
unfolding take_first
take_first-IsValid q f v = ground arith

pub reset_if_full-IsValid : (q : Queue) → IsValid q → IsValid (reset_if_full q)
unfolding reset_if_full
reset_if_full-IsValid q v = ground arith

shrink_if_sparse-IsValid : (q : Queue) → IsValid q → IsValid (shrink_if_sparse q)
unfolding shrink_if_sparse
shrink_if_sparse-IsValid q v = ground (arith, queue_shrink-IsValid q)

release_if_drained-IsValid : (q : Queue) → IsValid q → IsValid (release_if_drained q)
unfolding release_if_drained
release_if_drained-IsValid q v = ground arith

pub dequeue_from-IsValid : (q : Queue) (f : ℕ) → IsValid q → IsValid (dequeue_from q f).1
unfolding dequeue_from
dequeue_from-IsValid q f v = release_if_drained-IsValid _ (
    shrink_if_sparse-IsValid _
      (reset_if_full-IsValid _ (take_first-IsValid _ f (wake_enqueuers-IsValid q v))))

-- A dequeue keeps the invariant, whatever it returns.
pub dequeue_now-IsValid : (q : Queue) → IsValid q → IsValid (dequeue_now q).2
unfolding dequeue_now
dequeue_now-IsValid q v = elim (Option-cases q.first) [
  | inl e ↦ ground arith
  | inr (f, e) ↦ ground (arith, dequeue_from-IsValid q f v)
]
