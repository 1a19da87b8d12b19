-- ===== src/Conn/Pool/Balance.antt =====
-- No connection is lost.
use pg_fort.Base.{ℕ, zero, suc, ◌≡◌, ◌+◌, refl, List, [], ◌∷◌, ◌++◌, length, length-append, arith}
use pg_fort.Concurrency.Queue.{push, pop, size}
use pg_fort.Conn.Pool.{
  ConnPool, fill, new_pool, acquire, start_release, end_release, PoolStep, acquires, tests,
  pushes_back, PoolReached, fresh, then_step,
}

abbrev pub Balanced : ℕ → ConnPool → Type 0
Balanced n p = (p.capacity ≡ n) × (length p.conns + p.taken + p.releasing ≡ n)

length-fill : (n : ℕ) (q : List ℕ) → length (fill n q) ≡ n + length q
unfolding fill push
length-fill zero q = omega arith
length-fill (suc n) q = omega (arith, length-fill n (q ++ n ∷ []), length-append q (n ∷ []))

new_pool-Balanced : (n : ℕ) → Balanced n (new_pool n)
unfolding new_pool
new_pool-Balanced n = (refl, omega (arith, length-fill n []))

acquire-Balanced :
    (n capacity taken releasing : ℕ) (q : List ℕ)
    → Balanced n (record { capacity = capacity; conns = q; taken = taken; releasing = releasing })
    → Balanced n
        (acquire
          (record { capacity = capacity; conns = q; taken = taken; releasing = releasing })).1
unfolding acquire pop
acquire-Balanced n capacity taken releasing [] h = h
acquire-Balanced n capacity taken releasing (c ∷ q) h = (h.0, omega (arith, h.1))

step-Balanced : (n : ℕ) (p p' : ConnPool) → PoolStep p p' → Balanced n p → Balanced n p'
unfolding start_release end_release size push
step-Balanced n _ _ (acquires p) h = acquire-Balanced n p.capacity p.taken p.releasing p.conns h
step-Balanced n _ _ (tests p k e) h = ground arith
step-Balanced n _ _ (pushes_back p k c e) h =
    (h.0, omega (arith, length-append p.conns (c ∷ []), h.1, e))

-- At any moment, whatever the threads have done to the pool, the connections in it, those handed
-- out and those about to be put back are as many as it was made with: every connection that comes
-- back passes the test in `Release`, even when other threads act between the test and the push.
pub reached-Balanced : (n : ℕ) (p : ConnPool) → PoolReached n p → Balanced n p
reached-Balanced n _ fresh = new_pool-Balanced n
reached-Balanced n _ (then_step r s) = step-Balanced n _ _ s (reached-Balanced n _ r)
