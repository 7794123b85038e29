-- ===== src/Pool/Tests.antt =====
-- The theorems on pools at a pool of one thread.
use nifty.Base.{true, ◌-◌, refl, true, none, arith, inl, ℤ, ok, Alloc, Bool}
use nifty.Queue.{create, enqueue_now}
use nifty.Pool.{pool_create, pool_lookup, spawn, add_now, thread_idle, thread_serve}
use nifty.Pool.System.{
  System, Reach, after_add, after_serve, enters, adds, starts, serves, at_start, later,
}
use nifty.Pool.Counts.{IsCounted, Reach-IsCounted}
use nifty.Pool.Served.{IsServed, Reach-IsServed}

abbrev no_memory : Alloc
no_memory = none

abbrev fresh : System
fresh = record { pool = pool_create true (ℤ.pos 0) (ℤ.pos 1); clients = 0; starting = 0; busy = 0 }

-- A client adds two items, and the one thread takes the first.
abbrev entered : System
entered = record fresh { pool = pool_lookup fresh.pool; clients = 1 }

abbrev added : System
added = after_add entered (add_now no_memory ok entered.pool 7).1

abbrev twice : System
twice = after_add added (add_now no_memory ok added.pool 9).1

abbrev started : System
started = record twice { pool = thread_idle twice.pool; starting = twice.starting - 1 }

abbrev running : System
running = after_serve started (thread_serve started.pool)

module _ (strict : Bool) where
  started-Reach : Reach strict started
  unfolding pool_create create add_now spawn enqueue_now
  started-Reach =
      later twice started
        (later added twice
          (later entered added
            (later fresh entered (at_start (ℤ.pos 0) (ℤ.pos 1)) (enters fresh (omega arith)))
            (adds entered no_memory ok 7 (omega arith) (inl refl)))
          (adds added no_memory ok 9 (omega arith) (inl refl)))
        (starts twice (omega arith))

  running-Reach : Reach strict running
  unfolding thread_idle
  running-Reach = later started running started-Reach (serves started (omega arith))

Reach-IsCounted_example : IsCounted running
Reach-IsCounted_example = Reach-IsCounted running (running-Reach true)

Reach-IsServed_example : IsServed running
Reach-IsServed_example = Reach-IsServed running (running-Reach true)
