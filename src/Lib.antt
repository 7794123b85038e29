-- ===== src/Lib.antt =====
-- Nifty: a C library of queues, thread pools, scheduled tasks, vectors and trees, whose objects
-- are reached by handles and counted references.
--
-- The parts and their files:
--   Base        what the parts share: arrays as lists, Boolean tests, the error codes, and `Alloc`,
--               what the allocator returns: nothing, or a block and what was in it.
--   Queue       src/nft_queue.c and include/nft_queue.h. `Queue` is `struct nft_queue`. The file
--               has the macros, queue_grow, queue_shrink, queue_wait, nft_queue_enqueue and
--               nft_queue_dequeue; Queue/Api has the functions that take a handle.
--               Queue/Deque is what a queue promises: a list with a limit. Queue/Items reads the
--               list off the circular array, Queue/Refine and Queue/Run compare the two.
--   Handle      src/nft_handle.c, the variant with a mutex: the table of handles and reference
--               counts, its enlargement, and the allocation of a handle. `find` is what the table
--               promises: a map from handles to objects and counts.
--   Core        src/nft_core.c and the macros of include/nft_core.h: the classes of objects, their
--               creation, and lookups by class. Queue/Api has its own `lookup` and `discard`, which
--               count the references of the one queue that a handle leads to.
--   Timespec    include/nft_gettime.h: differences and sums of times.
--   Task/Heap   src/nft_task.c, the heap of the tasks that wait for their time. `Heap` is
--               `heap_t`, with the field `index` of every task.
--   Task/Scheduler  src/nft_task.c, the rest: `task_create`, `schedule_task`, `cancel_task`,
--               `schedule` and `cancel` are the functions of these names with nft_ or nft_task_
--               before them, and task_thread is `wake`, `check`, `dispatch` and `after_action`.
--               Scheduler/System is the step relation of the thread and its clients.
--   Pool        src/nft_pool.c, on top of Queue: `pool_add_wait`, `pool_shutdown`, and the parts of
--               nft_pool_thread between two waits. Pool/System is the step relation of the threads
--               and the clients of a pool.
--   Vector      src/nft_vector.c, the functions on the structure: the array as a stack, the binary
--               search, insertion, the range of an item and its deletion (Range), vector_sort
--               (Sort), sorted vectors as sets (Sets), with vector_unique, and vector_apply,
--               vector_filter and vector_reduce (Map). The comparator is a parameter, and
--               `IsOrder` is what the functions ask of it.
--   Rbtree      src/nft_rbtree.c and include/nft_rbtree.h: the array of nodes, with the links between
--               them. `left`, `right` and `parent` are places in the array, and place zero is the
--               sentinel. The file has rotate, insert_fixup, insert_node and rbtree_insert, Read
--               the search and the walks, and Validate, Create and Delete the functions of these
--               names. Shape reads a tree off the array, Colour is the red-black condition, and
--               Valid the states of a tree. Memory maps every place to a node; those that are not
--               in use hold anything.
--   Sack        src/nft_sack.c and include/nft_sack.h: the chain of blocks as a list, and what
--               sack_alloc and sack_stralloc hand out of it. Sack/Realloc has the memory, as a
--               function from addresses to bytes, and the functions that copy into it. The supply
--               that the allocators take is the addresses that `malloc` gives, in turn.
--
-- Threads: a call that takes the mutex of a queue runs alone but for its waits, so the steps
-- between two waits are functions. A wait takes an entry of a schedule, `Wake`: the code that
-- pthread_cond_wait returned, and the queue as the other threads left it. A schedule that is used
-- up leaves the thread waiting.
-- In Task/Scheduler and Pool a step is what a thread does while it holds the mutex, and the states
-- that are reached by any sequence of steps are those of all interleavings. A step relation counts
-- beside the state of the code the references that its clients hold.
--
-- Numbers: an `int` that the code keeps from being negative is a natural number. queue_grow's
-- overflow test is written out, and nft_timespec_comp wraps at 2 ^ 64. The loops upheap and
-- downheap take as many rounds as the index, and as there are tasks: the index falls in the one
-- and rises in the other, so they end before. nft_handle_alloc enlarges the table at most as often
-- as the largest size says, since the size doubles each time. The sizes of the table are powers of
-- two, so the hash, a mask in the code, is a remainder here. A reference count has no upper bound,
-- and neither has the capacity of a vector or the size of a heap. The loops of vector_sort take as
-- many rounds as there are items to pass: a stride of 1, 4, 13 and so on is larger than its place in
-- that row. A merge takes as many rounds as both vectors have items.
-- resize_nodes takes an `int`, and the end of a piece of a sack is an unsigned number: both wrap as
-- written, and the theorems say for which sizes they do not.
-- The loops on a red-black tree take as many rounds as there are nodes, since each round moves up or
-- down. Those on a chain of sacks end with the chain, and with the supply where they put a sack behind
-- it.
--
-- The allocator: where the code tests what it returns, both outcomes are modelled. queue_shrink does
-- not test what `realloc` returns as it makes the array smaller: `trims` tells whether it succeeds,
-- the array is lost where it does not, and a queue that is valid is one where it does.
--
-- Not modelled: pthreads and clocks, whose results are parameters; the creation of an object that
-- fails, and what its destruction frees; the attributes of threads; the lists and strings,
-- sack_insert and sack_strcat; the lock of a red-black tree and its functions on handles; and the
-- tests at the end of the source files.
pub mod Base
pub mod Queue
pub mod Handle
pub mod Core
pub mod Timespec
pub mod Task
pub mod Vector
pub mod Pool
pub mod Rbtree
pub mod Sack
