-- ===== src/Concurrency.antt =====
-- lib/concurrency: what threads share.
pub mod Queue
pub mod ThreadPool
