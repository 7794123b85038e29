-- ===== src/Queue/Wait.antt =====
-- Waiting and waking: when queue_wait comes back, and that no call forgets a broadcast.
use nifty.Base.{
  Alloc, ℕ, ◌≡◌, ◌⊎◌, ◌&&◌, refl, Bool, true, false, List, [], ◌∷◌, arith, inl, inr, Bool-cases,
  Status, ok, eshutdown, is_ok, if◌then◌else◌, ℤ, nonzero,
}
use nifty.Queue.{
  Queue, at_limit, is_shutdown, is_empty, Which, enqueue_now, dequeue_now, Wake, Waited, woken,
  blocked, keeps_waiting, wait_loop, queue_wait, Outcome, returned, waiting, enqueue, dequeue,
  shutdown_code,
}
use nifty.Queue.Valid.{IsValid, enqueue_now-IsValid, dequeue_now-IsValid}

-- Every queue that a wait finds is valid.
abbrev pub AllFound : (Queue → Type 0) → List Wake → Type 0
AllFound P [] = Unit
AllFound P (w ∷ ws) = P w.found × AllFound P ws

-- What holds of a wait that ends, of its code and the queue that it leaves.
abbrev pub Ends : (Status → Queue → Type 0) → Waited → Type 0
Ends P (woken c q) = P c q
Ends P blocked = Unit

-- A thread goes on only when what it waits for has come about, or the wait failed.
abbrev pub CameAbout : Bool → Status → Queue → Type 0
CameAbout empty c q = (keeps_waiting empty q ≡ false) ⊎ (is_ok c ≡ false)

wait_loop-CameAbout :
    (empty : Bool) (ws : List Wake) (r : Status) (q : Queue)
    → Ends (CameAbout empty) (wait_loop empty ws r q)
unfolding wait_loop
wait_loop-CameAbout empty [] r q = elim (Bool-cases (keeps_waiting empty q)) [
  | inl e ↦ rw e tt
  | inr e ↦ rw e (inl e)
]
wait_loop-CameAbout empty (w ∷ ws) r q = elim (Bool-cases (keeps_waiting empty q)) [
  | inl e ↦ rw e (elim (Bool-cases (is_ok w.code)) [
    | inl done ↦ rw done (wait_loop-CameAbout empty ws w.code w.found)
    | inr failed ↦ rw failed (inr failed)
  ])
  | inr e ↦ rw e (inl e)
]

-- The invariant holds again after a wait in which every other thread kept it.
wait_loop_inv :
    (P : Queue → Type 0) (empty : Bool) (ws : List Wake) (r : Status) (q : Queue)
    → P q
    → AllFound P ws
    → Ends (λ _ q'. P q') (wait_loop empty ws r q)
unfolding wait_loop
wait_loop_inv P empty [] r q p all = elim (Bool-cases (keeps_waiting empty q)) [
  | inl e ↦ rw e tt
  | inr e ↦ rw e p
]
wait_loop_inv P empty (w ∷ ws) r q p all = elim (Bool-cases (keeps_waiting empty q)) [
  | inl e ↦ rw e (elim (Bool-cases (is_ok w.code)) [
    | inl done ↦ rw done (wait_loop_inv P empty ws w.code w.found all.0 all.1)
    | inr failed ↦ rw failed all.0
  ])
  | inr e ↦ rw e p
]

shutdown_code-Ends :
    (P : Status → Queue → Type 0) (t : Waited)
    → Ends (λ c q. P (if is_shutdown q then eshutdown else c) q) t
    → Ends P (shutdown_code t)
shutdown_code-Ends P (woken c q) h = h
shutdown_code-Ends P blocked h = tt

Ends-map :
    (P Q : Status → Queue → Type 0) (t : Waited)
    → ((c : Status) (q : Queue) → P c q → Q c q)
    → Ends P t
    → Ends Q t
Ends-map P Q (woken c q) f h = f c q h
Ends-map P Q blocked f h = tt

-- Either the queue was shut down, and the code says so, or the wait failed, or the queue is no
-- longer empty, or no longer at its limit.
abbrev pub Awaited : Bool → Status → Queue → Type 0
Awaited empty c q' =
    ((is_shutdown q' ≡ true) × (c ≡ eshutdown))
    ⊎ ((is_shutdown q' ≡ false)
        × ((is_ok c ≡ false) ⊎ ((if empty then is_empty q' else at_limit q') ≡ false)))

CameAbout-Awaited :
    (empty : Bool) (c : Status) (q : Queue)
    → CameAbout empty c q
    → Awaited empty (if is_shutdown q then eshutdown else c) q
CameAbout-Awaited empty c q h = elim (Bool-cases (is_shutdown q)) [
  | inl e ↦ rw e (inl (refl, refl))
  | inr e ↦ rw e (inr (refl, awaits h e))
]
  where
    awaits :
        CameAbout empty c q
        → is_shutdown q ≡ false
        → (is_ok c ≡ false) ⊎ ((if empty then is_empty q else at_limit q) ≡ false)
    awaits (inl s) e = inr (ground arith)
    awaits (inr f) e = inl f

-- A wait on a queue that is not shut down, with a timeout that is not zero, if it ends, ends in
-- one of three ways: the queue was shut down in the meantime, and the code is ESHUTDOWN; or the
-- code is not zero; or there is what the thread waits for, an item in the queue that was empty, or
-- else a queue below its limit.
pub queue_wait_lem :
    (ws : List Wake) (q : Queue) (timeout : ℤ)
    → nonzero timeout ≡ true
    → is_shutdown q ≡ false
    → Ends (Awaited (is_empty q)) (queue_wait ws q timeout)
unfolding queue_wait
queue_wait_lem ws q timeout t h =
    rw (h, t)
      (shutdown_code-Ends (Awaited (is_empty q)) (wait_loop (is_empty q) ws ok q) (
        Ends-map (CameAbout (is_empty q)) _ (wait_loop (is_empty q) ws ok q)
          (CameAbout-Awaited (is_empty q)) (wait_loop-CameAbout (is_empty q) ws ok q)))

queue_wait_inv :
    (P : Queue → Type 0) (ws : List Wake) (q : Queue) (timeout : ℤ)
    → P q
    → AllFound P ws
    → Ends (λ _ q'. P q') (queue_wait ws q timeout)
unfolding queue_wait
queue_wait_inv P ws q timeout p all = elim (Bool-cases (is_shutdown q)) [
  | inl e ↦ rw e p
  | inr e ↦ rw e (elim (Bool-cases (nonzero timeout)) [
    | inl t ↦
        rw t (shutdown_code-Ends (λ _ q'. P q') _ (wait_loop_inv P (is_empty q) ws ok q p all))
    | inr t ↦ rw t p
  ])
]

-- What holds of the result of a call that comes back.
abbrev pub Comes {ℓ} : {A : Type ℓ} → (A → Type 0) → Outcome A → Type 0
Comes P (returned a) = P a
Comes P waiting = Unit

-- An enqueue that may wait leaves a valid queue valid, if it comes back and every queue that its
-- waits find is valid.
pub enqueue-IsValid :
    (mem : Alloc) (ws : List Wake) (q : Queue) (x : ℕ) (timeout : ℤ) (w : Which)
    → IsValid q
    → AllFound IsValid ws
    → Comes (λ r. IsValid r.1) (enqueue mem ws q x timeout w)
unfolding enqueue
enqueue-IsValid mem ws q x timeout w v all = elim (Bool-cases (at_limit q && nonzero timeout)) [
  | inl e ↦ rw e (go (queue_wait ws q timeout) (queue_wait_inv IsValid ws q timeout v all))
  | inr e ↦ rw e (enqueue_now-IsValid mem q x w v)
]
  where
    go :
        (t : Waited)
        → Ends (λ _ q'. IsValid q') t
        → Comes
            (λ (r : Status × Queue). IsValid r.1)
            (elim t [ blocked ↦ waiting | woken code q' ↦ returned (enqueue_now mem q' x w) ])
    go (woken c q') h = enqueue_now-IsValid mem q' x w h
    go blocked h = tt

-- A dequeue that may wait leaves a valid queue valid, if it comes back and every queue that its
-- waits find is valid.
pub dequeue-IsValid :
    (ws : List Wake) (q : Queue) (timeout : ℤ)
    → IsValid q
    → AllFound IsValid ws
    → Comes (λ r. IsValid r.2) (dequeue ws q timeout)
unfolding dequeue
dequeue-IsValid ws q timeout v all = elim (Bool-cases (is_empty q && nonzero timeout)) [
  | inl e ↦ rw e (go (queue_wait ws q timeout) (queue_wait_inv IsValid ws q timeout v all))
  | inr e ↦ rw e (dequeue_now-IsValid q v)
]
  where
    go :
        (t : Waited)
        → Ends (λ _ q'. IsValid q') t
        → Comes
            (λ (r : Status × ℕ × Queue). IsValid r.2)
            (elim t [ blocked ↦ waiting | woken code q' ↦ returned (dequeue_now q') ])
    go (woken c q') h = dequeue_now-IsValid q' h
    go blocked h = tt
