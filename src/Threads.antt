-- ===== src/Threads.antt =====
-- What threads share in master/base.
pub mod BoundedQueue
pub mod Pool
