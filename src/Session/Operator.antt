-- ===== src/Session/Operator.antt =====
-- lib/session/session-operator.cpp: the workers and the watcher that run the sessions. A session is
-- in the job queue, with a worker, in the epoll set, or deleted. Each step is one access to the
-- queue or the epoll set under its lock; a worker does not touch a session after it has put it
-- back. A session is known by a number, for its address.
pub mod Totals
pub mod Places
pub mod Watched
pub mod Fairness
use pg_fort.Base.{
  ℕ, ◌≡◌, Bool, true, false, List, [], ◌∷◌, ◌++◌, Option, none, some, if◌then◌else◌, ◌+◌, ◌==◌,
  zero, suc,
}

pub record Operator {ℓ} (J : Type ℓ) : Type ℓ where
  pub queue : List (ℕ × J)
  pub running : List (ℕ × J)
  pub watched : List (ℕ × J)
  pub deleted : List (ℕ × J)

unfoldable pub new_operator {ℓ} : {J : Type ℓ} → Operator J
new_operator = record { queue = []; running = []; watched = []; deleted = [] }

-- `ThreadPool::Submit`
unfoldable pub submit {ℓ} : {J : Type ℓ} → ℕ × J → Operator J → Operator J
submit t o = record o { queue = o.queue ++ t ∷ [] }

-- `SessionOperator::AddToWatch`
unfoldable pub add_to_watch {ℓ} : {J : Type ℓ} → ℕ × J → Operator J → Operator J
add_to_watch t o = record o { watched = o.watched ++ t ∷ [] }

abbrev pub everyone {ℓ} : {J : Type ℓ} → Operator J → List (ℕ × J)
everyone o = o.queue ++ (o.running ++ (o.watched ++ o.deleted))

unfoldable pub occurrences {ℓ} : {J : Type ℓ} → ℕ → List (ℕ × J) → ℕ
occurrences i [] = 0
occurrences i ((k, j) ∷ ts) = let rest = occurrences i ts in if k == i then suc rest else rest

-- `W` is what the world answers to a call, `C` what the server knows of a new client.
module _ {ℓ} {C W J : Type ℓ} (start : C → J) (is_terminated is_waiting : J → Bool)
    (call : W → J → Option J) where
  unfoldable pub put_back : ℕ → Option J → Operator J → Option (Operator J)
  unfolding submit add_to_watch
  put_back i none o = none
  put_back i (some j) o = some (if is_waiting j then add_to_watch (i, j) o else submit (i, j) o)

  -- `SessionOperator::Work` behind its `Pop`: `none` is the end of the process.
  unfoldable pub work : W → ℕ × J → Operator J → Option (Operator J)
  unfolding put_back
  work w (i, j) o =
      if is_terminated j
      then some (record o { deleted = (i, j) ∷ o.deleted })
      else put_back i (call w j) o

  -- One step of the server, a worker or the watcher.
  pub data OperatorStep : Operator J → Operator J → Type ℓ where
    -- The server submits the session of a new client.
    accepted :
        (o : Operator J) (i : ℕ) (c : C)
        → occurrences i (everyone o) ≡ 0
        → OperatorStep o (submit (i, start c) o)
    -- A worker pops a session from the queue.
    popped :
        (o : Operator J) (t : ℕ × J) (ts : List (ℕ × J))
        → o.queue ≡ t ∷ ts
        → OperatorStep o (record o { queue = ts; running = t ∷ o.running })
    -- A worker calls its session and puts it back, or deletes it.
    worked :
        (w : W) (o o' : Operator J) (t : ℕ × J) (xs ys : List (ℕ × J))
        → o.running ≡ xs ++ t ∷ ys
        → work w t (record o { running = xs ++ ys }) ≡ some o'
        → OperatorStep o o'
    -- `SessionOperator::Watch` takes a session whose event has come.
    fired :
        (o : Operator J) (t : ℕ × J) (xs ys : List (ℕ × J))
        → o.watched ≡ xs ++ t ∷ ys
        → OperatorStep o (submit t (record o { watched = xs ++ ys }))

  -- The states that the steps reach.
  pub data Reached : Operator J → Type ℓ where
    at_start : Reached new_operator
    next : {o o' : Operator J} → Reached o → OperatorStep o o' → Reached o'
