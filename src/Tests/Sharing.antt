-- ===== src/Tests/Sharing.antt =====
-- Runs of the queue and of the connection pool.
use pg_fort.Base.{ℕ, ◌≡◌, refl, true, List, [], ◌∷◌, ◌++◌}
use pg_fort.Concurrency.Queue.{Access, pushing, popping, pushes, accesses, push, pop}
use pg_fort.Concurrency.Queue.Order.{accesses-pushes}
use pg_fort.Conn.Pool.{
  ConnPool, new_pool, acquire, start_release, fill, PoolReached, fresh, then_step, acquires, tests,
}
use pg_fort.Conn.Pool.Balance.{Balanced, reached-Balanced}

abbrev some_accesses : List (Access ℕ)
some_accesses = pushing 1 ∷ pushing 2 ∷ popping true ∷ pushing 3 ∷ popping true ∷ []

accesses-pushes_example :
    (accesses some_accesses (7 ∷ [])).0 ++ (accesses some_accesses (7 ∷ [])).1
    ≡ (7 ∷ []) ++ pushes some_accesses
accesses-pushes_example = accesses-pushes some_accesses (7 ∷ [])

abbrev one_taken : ConnPool
one_taken = (acquire (new_pool 2)).1

one_taken-Reached : PoolReached 2 one_taken
one_taken-Reached = then_step fresh (acquires (new_pool 2))

coming_back-Reached : PoolReached 2 (start_release 0 one_taken)
unfolding acquire new_pool fill push pop
coming_back-Reached = then_step one_taken-Reached (tests one_taken 0 refl)

reached-Balanced_example : Balanced 2 (start_release 0 one_taken)
reached-Balanced_example = reached-Balanced 2 (start_release 0 one_taken) coming_back-Reached
