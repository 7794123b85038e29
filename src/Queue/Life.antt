-- ===== src/Queue/Life.antt =====
-- What the operations do to the fields beside the array: the limit, the shutdown flag, the
-- references and the broadcasts.
use nifty.Base.{
  Alloc, false, refl, is_ok, ℕ, ◌+◌, ◌-◌, ◌≡◌, ◌&&◌, true, arith, inl, inr, Option-cases, ok, ◌==◌,
  if◌then◌else◌, ◌∙◌,
}
use nifty.Queue.{
  Queue, at_limit, is_shutdown, is_empty, Which, enqueue_now, wake_enqueuers, take_first,
  reset_if_full, queue_shrink, shrink_if_sparse, release_if_drained, dequeue_from, dequeue_now,
}

-- The limit, the flag and the references are as they were.
pub record Keeps (q r : Queue) : Type 0 where
  pub limit : r.limit ≡ q.limit
  pub shutdown : r.shutdown ≡ q.shutdown
  pub refs : r.refs ≡ q.refs

pub enqueue_now-Keeps :
    (mem : Alloc) (q : Queue) (x : ℕ) (w : Which) → Keeps q (enqueue_now mem q x w).1
unfolding enqueue_now
enqueue_now-Keeps mem q x w = ground arith

-- The queue before the last step of a dequeue, the release of the first reference.
abbrev before_release : Queue → ℕ → Queue
before_release q f = shrink_if_sparse (reset_if_full (take_first (wake_enqueuers q) f).1)

wake_enqueuers-Keeps : (q : Queue) → Keeps q (wake_enqueuers q)
unfolding wake_enqueuers
wake_enqueuers-Keeps q = ground arith

take_first-Keeps : (q : Queue) (f : ℕ) → Keeps q (take_first q f).1
unfolding take_first
take_first-Keeps q f = ground arith

reset_if_full-Keeps : (q : Queue) → Keeps q (reset_if_full q)
unfolding reset_if_full
reset_if_full-Keeps q = ground arith

shrink_if_sparse-Keeps : (q : Queue) → Keeps q (shrink_if_sparse q)
unfolding shrink_if_sparse queue_shrink
shrink_if_sparse-Keeps q = ground arith

before_release-Keeps : (q : Queue) (f : ℕ) → Keeps q (before_release q f)
before_release-Keeps q f =
    let a = wake_enqueuers-Keeps q in
    let b = take_first-Keeps (wake_enqueuers q) f in
    let c = reset_if_full-Keeps (take_first (wake_enqueuers q) f).1 in
    let d = shrink_if_sparse-Keeps (reset_if_full (take_first (wake_enqueuers q) f).1) in
    record {
      limit = d.limit ∙ (c.limit ∙ (b.limit ∙ a.limit));
      shutdown = d.shutdown ∙ (c.shutdown ∙ (b.shutdown ∙ a.shutdown));
      refs = d.refs ∙ (c.refs ∙ (b.refs ∙ a.refs));
    }

-- A queue that is shutting down lets go of its first reference once it is empty, and once only.
abbrev pub Released : Queue → Queue → Type 0
Released q r =
    (r.shutdown ≡ (if is_empty r && (q.shutdown == 1) then 2 else q.shutdown))
    × (r.refs ≡ (if is_empty r && (q.shutdown == 1) then q.refs - 1 else q.refs))

dequeue_from-Released : (q : Queue) (f : ℕ) → Released q (dequeue_from q f).1
unfolding dequeue_from release_if_drained
dequeue_from-Released q f = ground (arith, before_release-Keeps q f)

pub limit-dequeue_now : (q : Queue) → (dequeue_now q).2.limit ≡ q.limit
unfolding dequeue_now dequeue_from release_if_drained
limit-dequeue_now q = elim (Option-cases q.first) [
  | inl e ↦ ground arith
  | inr (f, e) ↦ ground (arith, before_release-Keeps q f)
]

pub shutdown-dequeue_now : (q : Queue) → q.shutdown ≡ 0 → (dequeue_now q).2.shutdown ≡ 0
unfolding dequeue_now
shutdown-dequeue_now q h = elim (Option-cases q.first) [
  | inl e ↦ ground arith
  | inr (f, e) ↦ ground (arith, dequeue_from-Released q f)
]

-- A dequeue that returns an item releases the reference that the creation of the queue left, and
-- records it, if the queue was shut down with the reference not yet released, and is empty
-- afterwards; if not, the references and the flag stay as they were.
pub dequeue_now-Released : (q : Queue) → (dequeue_now q).0 ≡ ok → Released q (dequeue_now q).2
unfolding dequeue_now
dequeue_now-Released q h = elim (Option-cases q.first) [
  | inl e ↦ ground arith
  | inr (f, e) ↦ ground (arith, dequeue_from-Released q f)
]

-- An enqueue that succeeds on an empty queue sends one broadcast.
pub enqueue_now_wakes :
    (mem : Alloc) (q : Queue) (x : ℕ) (w : Which)
    → is_empty q ≡ true
    → (enqueue_now mem q x w).0 ≡ ok
    → (enqueue_now mem q x w).1.broadcasts ≡ q.broadcasts + 1
unfolding enqueue_now
enqueue_now_wakes mem q x w h e = ground arith

broadcasts-wake_enqueuers :
    (q : Queue) → (wake_enqueuers q).broadcasts ≡ q.broadcasts + (if at_limit q then 1 else 0)
unfolding wake_enqueuers
broadcasts-wake_enqueuers q = ground arith

broadcasts-reset_if_full :
    (q : Queue) (f : ℕ)
    → (reset_if_full (take_first q f).1).broadcasts
      ≡ q.broadcasts
        + (if is_empty (reset_if_full (take_first q f).1) && is_shutdown q then 1 else 0)
unfolding reset_if_full take_first
broadcasts-reset_if_full q f = ground arith

shrink_if_sparse_same :
    (q : Queue)
    → ((shrink_if_sparse q).broadcasts ≡ q.broadcasts)
      × (is_empty (shrink_if_sparse q) ≡ is_empty q)
unfolding shrink_if_sparse queue_shrink
shrink_if_sparse_same q = (ground arith, ground arith)

broadcasts-before_release :
    (q : Queue) (f : ℕ)
    → (before_release q f).broadcasts
      ≡ q.broadcasts
        + (if at_limit q then 1 else 0)
        + (if is_empty (before_release q f) && is_shutdown q then 1 else 0)
broadcasts-before_release q f = ground (
  arith,
  broadcasts-wake_enqueuers q,
  broadcasts-reset_if_full (wake_enqueuers q) f,
  shrink_if_sparse_same (reset_if_full (take_first (wake_enqueuers q) f).1),
  wake_enqueuers-Keeps q,
)

-- A dequeue that returns an item sends one broadcast if the queue was at its limit, and one more
-- if the queue is shut down and empty afterwards, and no other.
pub dequeue_now_wakes :
    (q : Queue)
    → (dequeue_now q).0 ≡ ok
    → (dequeue_now q).2.broadcasts
      ≡ q.broadcasts
        + (if at_limit q then 1 else 0)
        + (if is_empty (dequeue_now q).2 && is_shutdown q then 1 else 0)
unfolding dequeue_now dequeue_from release_if_drained
dequeue_now_wakes q h = elim (Option-cases q.first) [
  | inl e ↦ ground arith
  | inr (f, e) ↦ ground (arith, broadcasts-before_release q f)
]

-- A dequeue of an empty queue fails.
pub dequeue_now_empty : (q : Queue) → is_empty q ≡ true → is_ok (dequeue_now q).0 ≡ false
unfolding dequeue_now
dequeue_now_empty q e = ground arith

-- A dequeue that fails finds the queue empty and does not change it.
pub dequeue_now_fails :
    (q : Queue) → is_ok (dequeue_now q).0 ≡ false → (is_empty q ≡ true) × ((dequeue_now q).2 ≡ q)
unfolding dequeue_now
dequeue_now_fails q e = elim (Option-cases q.first) [
  | inl nil ↦ (ground (arith, nil), rw nil refl)
  | inr (f, some') ↦ absurd (ground (arith, e, some'))
]
