-- ===== src/Pools.antt =====
-- zl_threadpool/: pools of threads that take tasks from a queue.
pub mod Cpp03
pub mod Simple
