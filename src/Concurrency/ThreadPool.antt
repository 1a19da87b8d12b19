-- ===== src/Concurrency/ThreadPool.antt =====
-- lib/concurrency/include/concurrency/thread-pool.h
use pg_fort.Base.{
  List, [], ℕ, Bool, true, false, ◌||◌, Option, none, some, ltb, ◌==◌, if◌then◌else◌,
}

pub record ThreadPool : Type 0 where
  pub num_threads : ℕ
  pub stopped : Bool

-- The constructor, by `hardware_concurrency`.
unfoldable pub new_thread_pool : ℕ → ℕ → ThreadPool
new_thread_pool num_threads max = record {
  num_threads = if (num_threads == 0) || ltb max num_threads then max else num_threads;
  stopped = false;
}

unfoldable pub stop : ThreadPool → ThreadPool
stop p = record p { stopped = true }

unfoldable pub is_stopped : ThreadPool → Bool
is_stopped p = p.stopped

-- `ThreadPool::Work` behind its `Pop`, which gives a job or none: the jobs that it has run. `none` is
-- the call through the null pointer.
unfoldable pub base_work {ℓ} : {J : Type ℓ} → Option J → Option (List J)
base_work none = none
base_work (some j) = some []
