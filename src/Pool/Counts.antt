-- ===== src/Pool/Counts.antt =====
-- The invariant of a pool: its counts of threads, and the references to it.
use nifty.Base.{
  ℕ, ◌+◌, ◌-◌, ◌<◌, ◌≤◌, ◌≡◌, refl, Bool, true, ◌&&◌, ◌||◌, ◌==◌, if◌then◌else◌, ℤ, Status, is_ok,
  Alloc, arith, inl, inr, Bool-cases, ltb,
}
use nifty.Queue.{Queue, is_shutdown, is_empty, char_l, enqueue_now, dequeue_now, create}
use nifty.Queue.Valid.{IsValid, create-IsValid, enqueue_now-IsValid, dequeue_now-IsValid}
use nifty.Queue.Life.{enqueue_now-Keeps, dequeue_now-Released, dequeue_now_fails, dequeue_now_empty}
use nifty.Queue.Api.{begin_shutdown, end_shutdown}
use nifty.Pool.{
  Pool, pool_create, spawn, add_now, thread_cleanup, thread_idle, thread_serve, signal_if_last,
}
use nifty.Pool.System.{
  System, Step, Reach, after_add, after_serve, enters, leaves, adds, starts, serves, ends, exits,
  shuts, drains, at_start, later,
}

-- The reference that the creation leaves, until the queue is marked as drained.
abbrev pub of_creation : Queue → ℕ
of_creation q = if ltb q.shutdown 2 then 1 else 0

pub record IsCounted (w : System) : Type 0 where
  pub valid : IsValid w.pool.queue
  pub few : w.pool.num_threads ≤ w.pool.max_threads
  pub some_allowed : 0 < w.pool.max_threads
  pub threads : w.pool.num_threads ≡ w.starting + w.pool.idle_threads + w.busy
  pub drained : (ltb w.pool.queue.shutdown 2 || is_empty w.pool.queue) ≡ true
  pub counted : w.pool.queue.refs ≡ of_creation w.pool.queue + w.clients + w.pool.num_threads

IsValid-refs : (q : Queue) (n : ℕ) → IsValid q → IsValid (record q { refs = n })
IsValid-refs q n v = record {
  stored = v.stored;
  large = v.large;
  next_fits = v.next_fits;
  first_fits = v.first_fits;
  minarray = v.minarray;
  trimmed = v.trimmed;
}

create-of_creation :
    (limit : ℤ) → (create true limit).refs ≡ of_creation (create true limit) + 0 + 0
unfolding create
create-of_creation limit = refl

pool_create-IsCounted :
    (queue_limit max_threads : ℤ)
    → IsCounted (record {
      pool = pool_create true queue_limit max_threads;
      clients = 0;
      starting = 0;
      busy = 0;
    })
unfolding pool_create create
pool_create-IsCounted queue_limit max_threads = record {
  valid = create-IsValid queue_limit;
  few = omega arith;
  some_allowed = ground arith;
  threads = refl;
  drained = refl;
  counted = create-of_creation queue_limit;
}

spawn-IsValid : (created : Status) (p : Pool) → IsValid p.queue → IsValid (spawn created p).1.queue
unfolding spawn
spawn-IsValid created p v = elim (Bool-cases (is_ok created)) [
  | inl e ↦ rw e (IsValid-refs p.queue (p.queue.refs + 1) v)
  | inr e ↦ rw e (IsValid-refs p.queue (p.queue.refs + 1 - 1) v)
]

add_now-IsValid :
    (mem : Alloc) (created : Status) (p : Pool) (item : ℕ)
    → IsValid p.queue
    → IsValid (add_now mem created p item).1.queue
unfolding add_now
add_now-IsValid mem created p item v =
    let r = enqueue_now mem p.queue item char_l in
    let valid = enqueue_now-IsValid mem p.queue item char_l v in
    elim (Bool-cases (is_ok r.0)) [
      | inr e ↦ rw e valid
      | inl e ↦ rw e (elim (Bool-cases ((p.idle_threads == 0) && ltb p.num_threads p.max_threads)) [
        | inl n ↦ rw n (spawn-IsValid created (record p { queue = r.1 }) valid)
        | inr n ↦ rw n valid
      ])
    ]

-- A queue that is marked as drained is empty.
abbrev Drained : Queue → Type 0
Drained q = (ltb q.shutdown 2 || is_empty q) ≡ true

enqueue_now-Drained :
    (mem : Alloc) (q : Queue) (x : ℕ) → Drained q → Drained (enqueue_now mem q x char_l).1
unfolding enqueue_now
enqueue_now-Drained mem q x d = elim (Bool-cases (is_shutdown q)) [
  | inl e ↦ rw e d
  | inr e ↦ ground (arith, enqueue_now-Keeps mem q x char_l)
]

add_now-Drained :
    (mem : Alloc) (created : Status) (p : Pool) (item : ℕ)
    → Drained p.queue
    → Drained (add_now mem created p item).1.queue
unfolding add_now spawn
add_now-Drained mem created p item d = ground (arith, enqueue_now-Drained mem p.queue item d)

served-Drained :
    (q : Queue) → is_ok (dequeue_now q).0 ≡ true → Drained q → Drained (dequeue_now q).2
served-Drained q e d =
    let r = dequeue_now-Released q (ground (arith, e)) in ground (arith, r, d, dequeue_now_empty q)

adds-IsCounted :
    (w : System) (mem : Alloc) (created : Status) (item : ℕ)
    → IsCounted w
    → IsCounted (after_add w (add_now mem created w.pool item).1)
unfolding add_now spawn
adds-IsCounted w mem created item v =
    let q = w.pool.queue in
    let keeps = enqueue_now-Keeps mem q item char_l in
    record {
      valid = add_now-IsValid mem created w.pool item v.valid;
      few = ground (arith, v.few);
      some_allowed = ground (arith, v.some_allowed);
      threads = ground (arith, v.threads);
      drained = add_now-Drained mem created w.pool item v.drained;
      counted = ground (arith, v.counted, keeps);
    }

serves-IsCounted :
    (w : System)
    → 0 < w.pool.idle_threads
    → IsCounted w
    → IsCounted (after_serve w (thread_serve w.pool))
unfolding thread_serve signal_if_last
serves-IsCounted w l v = elim (Bool-cases (is_ok (dequeue_now w.pool.queue).0)) [
  | inl e ↦
      let r = dequeue_now-Released w.pool.queue (ground (arith, e)) in
      rw e (record {
        valid = dequeue_now-IsValid w.pool.queue v.valid;
        few = v.few;
        some_allowed = v.some_allowed;
        threads = ground (arith, v.threads);
        drained = served-Drained w.pool.queue e v.drained;
        counted = ground (arith, v.counted, r);
      })
  | inr e ↦
      let f = dequeue_now_fails w.pool.queue e in
      rw (e, f.1)
        (record {
          valid = IsValid-refs w.pool.queue (w.pool.queue.refs - 1) v.valid;
          few = ground (arith, v.few);
          some_allowed = ground (arith, v.some_allowed);
          threads = ground (arith, v.threads);
          drained = v.drained;
          counted = ground (arith, v.counted, v.threads);
        })
]

end_shutdown-IsValid : (q : Queue) → IsValid q → IsValid (end_shutdown q).1
unfolding end_shutdown
end_shutdown-IsValid q v = elim (Bool-cases (is_empty q)) [
  | inl e ↦ rw e (record {
    stored = v.stored;
    large = v.large;
    next_fits = v.next_fits;
    first_fits = v.first_fits;
    minarray = v.minarray;
    trimmed = v.trimmed;
  })
  | inr e ↦ rw e v
]

begin_shutdown-IsValid : (q : Queue) → IsValid q → IsValid (begin_shutdown q)
unfolding begin_shutdown
begin_shutdown-IsValid q v = elim (Bool-cases (is_shutdown q)) [
  | inl e ↦ rw e v
  | inr e ↦ rw e (record {
    stored = v.stored;
    large = v.large;
    next_fits = v.next_fits;
    first_fits = v.first_fits;
    minarray = v.minarray;
    trimmed = v.trimmed;
  })
]

pub Step-IsCounted : {strict : Bool} (w u : System) → Step strict w u → IsCounted w → IsCounted u
unfolding thread_idle thread_cleanup signal_if_last begin_shutdown end_shutdown
Step-IsCounted w u (enters s l) v = record {
  valid = IsValid-refs s.pool.queue (s.pool.queue.refs + 1) v.valid;
  few = v.few;
  some_allowed = v.some_allowed;
  threads = v.threads;
  drained = v.drained;
  counted = omega (arith, v.counted);
}
Step-IsCounted w u (leaves s l) v = record {
  valid = IsValid-refs s.pool.queue (s.pool.queue.refs - 1) v.valid;
  few = v.few;
  some_allowed = v.some_allowed;
  threads = v.threads;
  drained = v.drained;
  counted = omega (arith, v.counted);
}
Step-IsCounted w u (adds s mem created item l c) v = adds-IsCounted s mem created item v
Step-IsCounted w u (starts s l) v = record {
  valid = v.valid;
  few = v.few;
  some_allowed = v.some_allowed;
  threads = omega (arith, v.threads);
  drained = v.drained;
  counted = v.counted;
}
Step-IsCounted w u (serves s l) v = serves-IsCounted s l v
Step-IsCounted w u (ends s l) v = record {
  valid = v.valid;
  few = v.few;
  some_allowed = v.some_allowed;
  threads = omega (arith, v.threads);
  drained = v.drained;
  counted = v.counted;
}
Step-IsCounted w u (exits s l f) v = record {
  valid = IsValid-refs s.pool.queue (s.pool.queue.refs - 1) v.valid;
  few = omega (arith, v.few);
  some_allowed = v.some_allowed;
  threads = omega (arith, v.threads);
  drained = v.drained;
  counted = omega (arith, v.counted, v.threads);
}
Step-IsCounted w u (shuts s l) v = record {
  valid = begin_shutdown-IsValid s.pool.queue v.valid;
  few = v.few;
  some_allowed = v.some_allowed;
  threads = v.threads;
  drained = ground (arith, v.drained);
  counted = ground (arith, v.counted);
}
Step-IsCounted w u (drains s l f) v = record {
  valid = end_shutdown-IsValid s.pool.queue v.valid;
  few = v.few;
  some_allowed = v.some_allowed;
  threads = v.threads;
  drained = ground (arith, v.drained);
  counted = ground (arith, v.counted);
}

-- In every state that a pool reaches, however the steps of its clients and threads interleave,
-- where realloc does not fail as it makes the array smaller, the array of the queue is valid,
-- there are no more threads than are allowed, the threads are those that start, those that are
-- idle and those that run a work function, and the references to the pool are one for each thread,
-- one for each client inside a call, and one more until the shutdown has marked the queue as
-- drained, which it does only to an empty queue, and which then stays empty.
pub Reach-IsCounted : {strict : Bool} (w : System) → Reach strict w → IsCounted w
Reach-IsCounted w (at_start queue_limit max_threads) = pool_create-IsCounted queue_limit max_threads
Reach-IsCounted w (later u w' r st) = Step-IsCounted u w' st (Reach-IsCounted u r)
