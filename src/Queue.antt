-- ===== src/Queue.antt =====
-- internal/queue: the interface that the scheduler and the service use, and its implementations in
-- memory and on Redis.
pub mod Interface
pub mod Heap
pub mod InMem
pub mod Redis
