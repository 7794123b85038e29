-- ===== src/Pool.antt =====
-- src/nft_pool.c: a pool of threads that serve a queue of work items. The pool is a subclass of
-- the queue, and uses the queue's mutex, condition and reference count. The mutex is held in every
-- function here, from one wait to the next; a function that may wait takes the pool that it finds
-- as its wait ends.
pub mod System
pub mod Counts
pub mod Served
mod Tests
use nifty.Base.{
  ℕ, zero, suc, ◌+◌, ◌-◌, Bool, true, false, not, ◌&&◌, Option, none, some, List, [], ◌∷◌, ltb,
  ◌==◌, if◌then◌else◌, ℤ, nonzero, Status, ok, enomem, eshutdown, is_ok, Alloc,
}
use nifty.Queue.{
  Queue, is_shutdown, at_limit, char_l, enqueue_now, dequeue_now, Outcome, returned, waiting,
  create,
}

-- `struct nft_pool`, and how often its condition was signalled.
pub record Pool : Type 0 where
  pub queue : Queue
  pub num_threads : ℕ
  pub max_threads : ℕ
  pub idle_threads : ℕ
  pub signals : ℕ

-- nft_pool_create, where the allocation succeeds: at most four threads, unless a positive number
-- is given.
pub pool_create : Bool → ℤ → ℤ → Pool
pool_create trims queue_limit max_threads = record {
  queue = create trims queue_limit;
  num_threads = 0;
  max_threads = elim max_threads [ ℤ.pos n ↦ if ltb 0 n then n else 4 | ℤ.negsuc n ↦ 4 ];
  idle_threads = 0;
  signals = 0;
}

abbrev pub pool_lookup : Pool → Pool
pool_lookup p = record p { queue = record p.queue { refs = p.queue.refs + 1 } }

abbrev pub pool_discard : Pool → Pool
pool_discard p = record p { queue = record p.queue { refs = p.queue.refs - 1 } }

-- nft_pool_add_wait, where a thread is needed; `created` is what pthread_create returns. The thread
-- keeps the reference that was made for it, unless it is not created.
pub spawn : Status → Pool → Status × Pool
spawn created p =
    let p' = pool_lookup p in
    if is_ok created
    then (ok, record p' { num_threads = p.num_threads + 1 })
    else (created, pool_discard p')

-- nft_pool_add_wait, from nft_queue_enqueue's last wait up to the release of the mutex.
pub add_now : Alloc → Status → Pool → ℕ → Status × Pool
unfolding spawn
add_now mem created p item =
    let (result, queue) = enqueue_now mem p.queue item char_l in
    let p' = record p { queue = queue } in
    if is_ok result
    then (if (p.idle_threads == 0) && ltb p.num_threads p.max_threads
        then spawn created p'
        else (ok, p'))
    else (result, p')

-- The end of nft_pool_add_wait: the mutex is released, and the reference discarded.
abbrev pub end_add : Status × Pool → Outcome (Status × Pool)
end_add (result, p) = returned (result, pool_discard p)

-- nft_pool_add_wait, of a handle that leads to the pool. `item` is what malloc returns, and `back`
-- the pool that is found where nft_queue_enqueue waits, as its wait ends.
pub pool_add_wait : ℕ → Alloc → Status → Option Pool → Pool → ℤ → Outcome (Status × Pool)
unfolding add_now
pool_add_wait item mem created back p timeout =
    let p' = pool_lookup p in
    if item == 0
    then returned (enomem, pool_discard p')
    else if is_shutdown p.queue
    then returned (eshutdown, pool_discard p')
    else if at_limit p.queue && nonzero timeout
    then (elim back [ none ↦ waiting | some q ↦ end_add (add_now mem created q item) ])
    else end_add (add_now mem created p' item)

-- nft_pool_add
pub pool_add : ℕ → Alloc → Status → Option Pool → Pool → Outcome (Status × Pool)
unfolding pool_add_wait
pool_add item mem created back p = pool_add_wait item mem created back p (ℤ.negsuc 0)

-- `if (pool->num_threads == 0 && SHUTDOWN(pool)) pthread_cond_signal(...)`
pub signal_if_last : Pool → Pool
signal_if_last p = record p {
  signals = if (p.num_threads == 0) && is_shutdown p.queue then p.signals + 1 else p.signals;
}

-- pool_thread_cleanup, after a work function that calls pthread_exit.
pub thread_cleanup : Pool → Pool
unfolding signal_if_last
thread_cleanup p = pool_discard (signal_if_last (record p { num_threads = p.num_threads - 1 }))

-- nft_pool_thread, up to the first call of nft_queue_dequeue, and after each work function.
pub thread_idle : Pool → Pool
thread_idle p = record p { idle_threads = p.idle_threads + 1 }

-- nft_pool_thread, after any wait of nft_queue_dequeue: the item to work on, or the thread ends.
pub thread_serve : Pool → Option ℕ × Pool
unfolding signal_if_last
thread_serve p =
    let (code, item, queue) = dequeue_now p.queue in
    let p' = record p { queue = queue; idle_threads = p.idle_threads - 1 } in
    if is_ok code
    then (some item, p')
    else (none, pool_discard (signal_if_last (record p' { num_threads = p.num_threads - 1 })))

-- One entry of a schedule: a wait of nft_pool_shutdown that ended, and the pool that it found.
pub record PoolWake : Type 0 where
  pub code : Status
  pub found : Pool

-- nft_pool_shutdown, `while (pool->num_threads)`, as either loop waits.
pub threads_loop : List PoolWake → Status → Pool → Outcome (Status × Pool)
threads_loop [] result p = if p.num_threads == 0 then returned (result, p) else waiting
threads_loop (w ∷ ws) result p =
    let again = threads_loop ws w.code w.found in
    if p.num_threads == 0
    then returned (result, p)
    else if is_ok w.code
    then again
    else returned (w.code, w.found)

-- nft_pool_shutdown, of a handle that leads to the pool: `result` is what nft_queue_shutdown
-- returns, and `p` the pool after it.
pub pool_shutdown : List PoolWake → Status → Pool → ℤ → Outcome (Status × Pool)
unfolding threads_loop
pool_shutdown ws result p timeout =
    let waited = if nonzero timeout then threads_loop ws result p else returned (result, p) in
    if is_ok result
    then (elim waited [ waiting ↦ waiting | returned (code, q) ↦ returned (code, pool_discard q) ])
    else returned (result, pool_discard p)
