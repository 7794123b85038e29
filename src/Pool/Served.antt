-- ===== src/Pool/Served.antt =====
-- Whether there is a thread for a queued item.
use nifty.Base.{ℕ, ◌<◌, ◌≡◌, ◌⊎◌, refl, true, Status, is_ok, Alloc, arith, inl, inr, Bool-cases}
use nifty.Queue.{is_empty, char_l, enqueue_now, dequeue_now, create}
use nifty.Queue.Life.{dequeue_now_fails}
use nifty.Queue.Refine.{enqueue_now_fails}
use nifty.Queue.Api.{begin_shutdown, end_shutdown}
use nifty.Pool.{pool_create, spawn, add_now, thread_idle, thread_serve, signal_if_last}
use nifty.Pool.System.{
  System, Step, Reach, after_add, after_serve, enters, leaves, adds, starts, serves, ends, exits,
  shuts, drains, at_start, later,
}
use nifty.Pool.Counts.{IsCounted, Reach-IsCounted}

abbrev pub IsServed : System → Type 0
IsServed w = (is_empty w.pool.queue ≡ true) ⊎ (0 < w.pool.num_threads)

adds-IsServed :
    (w : System) (mem : Alloc) (created : Status) (item : ℕ)
    → is_ok created ≡ true
    → IsCounted w
    → IsServed w
    → IsServed (after_add w (add_now mem created w.pool item).1)
unfolding add_now spawn
adds-IsServed w mem created item c v s =
    elim (Bool-cases (is_ok (enqueue_now mem w.pool.queue item char_l).0)) [
      | inr e ↦ rw (e, enqueue_now_fails mem w.pool.queue item char_l e) s
      | inl e ↦ rw (e, c) (inr (ground (arith, v.threads, v.some_allowed)))
    ]

serves-IsServed :
    (w : System)
    → 0 < w.pool.idle_threads
    → IsCounted w
    → IsServed (after_serve w (thread_serve w.pool))
unfolding thread_serve signal_if_last
serves-IsServed w l v = elim (Bool-cases (is_ok (dequeue_now w.pool.queue).0)) [
  | inl e ↦ rw e (inr (omega (arith, v.threads)))
  | inr e ↦ let f = dequeue_now_fails w.pool.queue e in rw (e, f.1) (inl f.0)
]

Step-IsServed : (w u : System) → Step true w u → IsCounted w → IsServed w → IsServed u
unfolding thread_idle begin_shutdown end_shutdown
Step-IsServed w u (enters s l) v i = i
Step-IsServed w u (leaves s l) v i = i
Step-IsServed w u (adds s mem created item l (inl c)) v i = adds-IsServed s mem created item c v i
Step-IsServed w u (adds s mem created item l (inr c)) v i = absurd (ground (arith, c))
Step-IsServed w u (starts s l) v i = i
Step-IsServed w u (serves s l) v i = serves-IsServed s l v
Step-IsServed w u (ends s l) v i = i
Step-IsServed w u (exits s l f) v i = absurd (ground (arith, f))
Step-IsServed w u (shuts s l) v i = ground (arith, i)
Step-IsServed w u (drains s l f) v i = ground (arith, i)

-- In every state that a pool reaches, however its steps interleave, where pthread_create succeeds,
-- no work function calls pthread_exit, and realloc does not fail as it makes the array smaller, the queue is empty or the pool has a thread.
pub Reach-IsServed : (w : System) → Reach true w → IsServed w
unfolding pool_create create
Reach-IsServed w (at_start queue_limit max_threads) = inl refl
Reach-IsServed w (later u w' r st) =
    Step-IsServed u w' st (Reach-IsCounted u r) (Reach-IsServed u r)
