-- ===== src/Conn/Pool.antt =====
-- lib/conn/pqxx-conn.cpp: the pool of connections to the database. A connection that is handed out
-- comes back by its destructor, which puts a new one into the pool. A connection is a number. The
-- test in `Release` and its push are steps of their own, between which other threads may act.
pub mod Balance
use pg_fort.Base.{
  ℕ, zero, suc, ◌≡◌, ◌+◌, Bool, true, false, List, [], ◌∷◌, ◌++◌, Option, none, some, ltb,
  if◌then◌else◌,
}
use pg_fort.Concurrency.Queue.{push, pop, size, Popped, item, failed, still_waiting, Wakeup}

-- `conns` is the queue; `taken` counts the connections that are handed out, `releasing` the threads
-- that are between the test and the push of `Release`.
pub record ConnPool : Type 0 where
  pub capacity : ℕ
  pub conns : List ℕ
  pub taken : ℕ
  pub releasing : ℕ

-- The loop of the constructor.
unfoldable pub fill : ℕ → List ℕ → List ℕ
unfolding push
fill zero q = q
fill (suc n) q = fill n (push n q)

-- `PqxxConnPool::PqxxConnPool`
unfoldable pub new_pool : ℕ → ConnPool
unfolding fill
new_pool n = record { capacity = n; conns = fill n []; taken = 0; releasing = 0 }

abbrev pub on_popped : ConnPool → Popped ℕ → Option ℕ × ConnPool
on_popped p (item c q) = (some c, record p { conns = q; taken = suc p.taken })
on_popped p (failed q) = (none, record p { conns = q })
on_popped p still_waiting = (none, p)

-- `PqxxConnPool::Acquire`, where the queue has not changed while it waited: a null pointer at the
-- time limit.
unfoldable pub acquire : ConnPool → Option ℕ × ConnPool
unfolding pop
acquire p = on_popped p (pop true [] p.conns)

-- `PqxxConn::~PqxxConn` up to the test in `PqxxConnPool::Release`, of `taken` connections.
unfoldable pub start_release : ℕ → ConnPool → ConnPool
unfolding size
start_release left p =
    if ltb (size p.conns) p.capacity
    then record p { taken = left; releasing = suc p.releasing }
    else record p { taken = left }

-- The rest of `PqxxConnPool::Release`, with a new connection.
unfoldable pub end_release : ℕ → ℕ → ConnPool → ConnPool
unfolding push
end_release c left p = record p { conns = push c p.conns; releasing = left }

-- One step of a thread.
pub data PoolStep : ConnPool → ConnPool → Type 0 where
  acquires : (p : ConnPool) → PoolStep p (acquire p).1
  tests : (p : ConnPool) (n : ℕ) → p.taken ≡ suc n → PoolStep p (start_release n p)
  pushes_back : (p : ConnPool) (n c : ℕ) → p.releasing ≡ suc n → PoolStep p (end_release c n p)

-- The pools that the steps reach from a new one.
pub data PoolReached (n : ℕ) : ConnPool → Type 0 where
  fresh : PoolReached n (new_pool n)
  then_step : {p p' : ConnPool} → PoolReached n p → PoolStep p p' → PoolReached n p'
