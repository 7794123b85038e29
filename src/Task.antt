-- ===== src/Task.antt =====
-- src/nft_task.c: the task scheduler, and the heap of the tasks that it keeps.
pub mod Heap
pub mod Scheduler
