-- ===== src/Concurrency/Queue.antt =====
-- lib/concurrency/include/concurrency/blocking-queue.h: a queue under a mutex. Each access holds the
-- mutex, so threads see a sequence of accesses. While `Pop` waits it does not hold the mutex: what
-- it sees when it is woken is the queue that the others have left.
pub mod Order
use pg_fort.Base.{ℕ, ◌≡◌, Bool, true, false, List, [], ◌∷◌, ◌++◌, Option, none, some, length}

-- `BlockingQueue::Push`
unfoldable pub push {ℓ} : {A : Type ℓ} → A → List A → List A
push x q = q ++ x ∷ []

-- `BlockingQueue::Size`
unfoldable pub size {ℓ} : {A : Type ℓ} → List A → ℕ
size q = length q

-- How a wait ends: with a notification, or at its time limit.
pub data Wakeup {ℓ} (A : Type ℓ) : Type ℓ where
  notified : List A → Wakeup A
  timed_out : List A → Wakeup A

-- How `Pop` ends: with an item, with false, or it is still waiting.
pub data Popped {ℓ} (A : Type ℓ) : Type ℓ where
  item : A → List A → Popped A
  failed : List A → Popped A
  still_waiting : Popped A

-- `BlockingQueue::Pop`: without a time limit a wait ends by a notification only.
unfoldable pub pop {ℓ} : {A : Type ℓ} → Bool → List (Wakeup A) → List A → Popped A
pop limited ws (x ∷ q) = item x q
pop limited [] [] = still_waiting
pop limited (notified q ∷ ws) [] = pop limited ws q
pop true (timed_out q ∷ ws) [] = failed q
pop false (timed_out q ∷ ws) [] = pop false ws q

-- An access of a thread: a push, or the end of a pop.
pub data Access {ℓ} (A : Type ℓ) : Type ℓ where
  pushing : A → Access A
  popping : Bool → Access A

abbrev pub pushes {ℓ} : {A : Type ℓ} → List (Access A) → List A
pushes [] = []
pushes (pushing x ∷ ops) = x ∷ pushes ops
pushes (popping b ∷ ops) = pushes ops

abbrev pub after_pop {ℓ} : {A : Type ℓ} → List A → Popped A → List A × List A
after_pop q (item x q') = (x ∷ [], q')
after_pop q (failed q') = ([], q')
after_pop q still_waiting = ([], q)

-- What a sequence of accesses takes out, and the queue that it leaves. A pop that finds nothing goes
-- on to wait.
unfoldable pub accesses {ℓ} : {A : Type ℓ} → List (Access A) → List A → List A × List A
unfolding push pop
accesses [] q = ([], q)
accesses (pushing x ∷ ops) q = accesses ops (push x q)
accesses (popping b ∷ ops) q =
    let (out, q') = after_pop q (pop b [] q) in
    let (outs, rest) = accesses ops q' in (out ++ outs, rest)
