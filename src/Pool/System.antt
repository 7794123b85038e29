-- ===== src/Pool/System.antt =====
-- A pool with its clients and its threads as a step relation: a step is the part of a function
-- between two waits, or two holds of the mutex, so that every interleaving is a sequence of steps.
-- A wait may end at any time, as its timeout may.
use nifty.Base.{
  ℕ, ◌+◌, ◌-◌, ◌<◌, ◌≡◌, ◌⊎◌, Bool, true, false, Option, none, some, ℤ, Status, is_ok, Alloc,
}
use nifty.Queue.{is_shutdown}
use nifty.Queue.Api.{begin_shutdown, end_shutdown}
use nifty.Pool.{
  Pool, pool_create, pool_lookup, pool_discard, add_now, thread_cleanup, thread_idle, thread_serve,
}

-- The pool; the clients inside a call, each with a reference; the threads that were created and
-- have not come to the queue yet; and those that run a work function.
pub record System : Type 0 where
  pub pool : Pool
  pub clients : ℕ
  pub starting : ℕ
  pub busy : ℕ

-- One thread more is starting if the pool counts one more.
abbrev pub after_add : System → Pool → System
after_add w p = record w { pool = p; starting = w.starting + (p.num_threads - w.pool.num_threads) }

-- A thread that was idle runs a work function, or ends.
abbrev pub after_serve : System → Option ℕ × Pool → System
after_serve w (none, p) = record w { pool = p }
after_serve w (some item, p) = record w { pool = p; busy = w.busy + 1 }

-- The steps. Where `strict` is true, every thread is created that is asked for, and no work
-- function calls pthread_exit.
pub data Step (strict : Bool) : System → System → Type 0 where
  enters :
      (w : System)
      → 0 < w.pool.queue.refs
      → Step strict w (record w { pool = pool_lookup w.pool; clients = w.clients + 1 })
  leaves :
      (w : System)
      → 0 < w.clients
      → Step strict w (record w { pool = pool_discard w.pool; clients = w.clients - 1 })
  adds :
      (w : System) (mem : Alloc) (created : Status) (item : ℕ)
      → 0 < w.clients
      → (is_ok created ≡ true) ⊎ (strict ≡ false)
      → Step strict w (after_add w (add_now mem created w.pool item).1)
  starts :
      (w : System)
      → 0 < w.starting
      → Step strict w (record w { pool = thread_idle w.pool; starting = w.starting - 1 })
  serves :
      (w : System) → 0 < w.pool.idle_threads → Step strict w (after_serve w (thread_serve w.pool))
  ends :
      (w : System)
      → 0 < w.busy
      → Step strict w (record w { pool = thread_idle w.pool; busy = w.busy - 1 })
  exits :
      (w : System)
      → 0 < w.busy
      → strict ≡ false
      → Step strict w (record w { pool = thread_cleanup w.pool; busy = w.busy - 1 })
  shuts :
      (w : System)
      → 0 < w.clients
      → Step strict w (record w { pool = record w.pool { queue = begin_shutdown w.pool.queue } })
  drains :
      (w : System)
      → 0 < w.clients
      → is_shutdown w.pool.queue ≡ true
      → Step strict w (record w { pool = record w.pool { queue = (end_shutdown w.pool.queue).1 } })

-- What they reach from a new pool, where `realloc` does not fail as it makes the queue's array
-- smaller.
pub data Reach (strict : Bool) : System → Type 0 where
  at_start :
      (queue_limit max_threads : ℤ)
      → Reach strict (record {
        pool = pool_create true queue_limit max_threads;
        clients = 0;
        starting = 0;
        busy = 0;
      })
  later : (w v : System) → Reach strict w → Step strict w v → Reach strict v
