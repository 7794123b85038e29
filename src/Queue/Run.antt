-- ===== src/Queue/Run.antt =====
-- Sequences of calls on one queue, and what becomes of the queue once it is shut down.
use mathlib.Core.Path.{subst, subst₂}
use nifty.Base.{Alloc, ℕ, ◌≡◌, refl, false, List, [], ◌∷◌, arith, inl, inr, Status, length, ap, ◌∙◌}
use nifty.Queue.{Queue, is_shutdown, enqueue_now, dequeue_now}
use nifty.Queue.Deque
use nifty.Queue.Deque.{Op, enq, deq, Reply, Explains}
use nifty.Queue.Valid.{IsValid, enqueue_now-IsValid, dequeue_now-IsValid}
use nifty.Queue.Life.{enqueue_now-Keeps, limit-dequeue_now, shutdown-dequeue_now}
use nifty.Queue.Items.{items}
use nifty.Queue.Refine.{enqueue_now_refines, dequeue_now_refines}

-- The calls of a program that never waits (a timeout of zero), in order. `mem` tells what the
-- allocator returns to each call.
unfoldable pub run : (ℕ → Alloc) → Queue → List Op → List Reply
run mem q [] = []
run mem q (enq x w ∷ ops) =
    let (c, q') = enqueue_now (mem (length ops)) q x w in (c, 0) ∷ run mem q' ops
run mem q (deq ∷ ops) = let (c, x, q') = dequeue_now q in (c, x) ∷ run mem q' ops

-- The replies to any sequence of calls that do not wait, on a valid queue that is not shut down,
-- where realloc does not fail as it makes the array smaller, are those of the list with the queue's limit, except that an enqueue may return ENOMEM, and then
-- it changes nothing.
pub run_refines :
    (mem : ℕ → Alloc) (ops : List Op) (q : Queue)
    → IsValid q
    → q.shutdown ≡ 0
    → Explains q.limit (items q) ops (run mem q ops)
unfolding run
run_refines mem [] q v h = tt
run_refines mem (enq x w ∷ ops) q v h =
    let m = mem (length ops) in
    let q' = (enqueue_now m q x w).1 in
    let kept = enqueue_now-Keeps m q x w in
    let rest = run_refines mem ops q' (enqueue_now-IsValid m q x w v) (kept.shutdown ∙ h) in
    let runs : is_shutdown q ≡ false = ground arith in
    elim (enqueue_now_refines m q x w v) [
      | inl e ↦ rw e (inl (refl, run_refines mem ops q v h))
      | inr (c, i) ↦ inr (
        subst (λ b. (enqueue_now m q x w).0 ≡ (Deque.enqueue b q.limit (items q) x w).0) runs c,
        subst₂ (λ l b. Explains l (Deque.enqueue b q.limit (items q) x w).1 ops (run mem q' ops))
            kept.limit runs (subst (λ xs. Explains q'.limit xs ops (run mem q' ops)) i rest),
      )
    ]
run_refines mem (deq ∷ ops) q v h =
    let q' = (dequeue_now q).2 in
    let rest = run_refines mem ops q' (dequeue_now-IsValid q v) (shutdown-dequeue_now q h) in
    let runs : is_shutdown q ≡ false = ground arith in
    let same =
      subst (λ b. ((dequeue_now q).0, (dequeue_now q).1, items q') ≡ Deque.dequeue b (items q)) runs
        (dequeue_now_refines q v) in
    (
      ap (λ (t : Status × ℕ × List ℕ). t.0) same,
      ap (λ (t : Status × ℕ × List ℕ). t.1) same,
      subst₂ (λ l xs. Explains l xs ops (run mem q' ops)) (limit-dequeue_now q)
          (ap (λ (t : Status × ℕ × List ℕ). t.2) same) rest,
    )
