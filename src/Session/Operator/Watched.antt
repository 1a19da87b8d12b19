-- ===== src/Session/Operator/Watched.antt =====
-- The operator over sessions: what it watches, and for what.
use pg_fort.Base.{
  ℕ, ◌≡◌, refl, Bool, true, false, List, [], ◌∷◌, ◌++◌, Option, none, some, if◌then◌else◌,
}
use mathlib.Core.Path.{subst}
use mathlib.Core.Option.{some-injective}
use pg_fort.StateMachine.{Machine}
use pg_fort.Schema.Tracker.{SchemaTracker}
use pg_fort.Session.{Session, World}
use pg_fort.Session.Actions.{StateId}
use pg_fort.Session.Actions.Run.{
  new_session-MachineOk, step, new_session, MachineOk, OutcomeOk, step-OutcomeOk,
}
use pg_fort.Session.Operator.{
  Operator, new_operator, submit, add_to_watch, put_back, work, OperatorStep, accepted, popped,
  worked, fired, Reached, at_start, next,
}

abbrev pub Running : Type 0
Running = Machine StateId × Session

-- What the server knows of a new client: the two sockets and the tracker.
abbrev pub Client : Type 0
Client = ℕ × (ℕ × Option SchemaTracker)

abbrev pub start_session : Client → Running
start_session c = new_session c.0 c.1.0 c.1.1

-- `StateMachine::IsTerminated` and `Session::IsWaiting`
abbrev pub is_terminated : Running → Bool
is_terminated r = r.0.terminated

abbrev pub is_waiting : Running → Bool
is_waiting r = r.1.context.waiting

abbrev pub ReachedBySessions : Operator Running → Type 0
ReachedBySessions = Reached start_session is_terminated is_waiting step

abbrev pub All {ℓ κ} : {A : Type ℓ} → (A → Type κ) → List A → Type κ
All P [] = Unit
All P (x ∷ xs) = P x × All P xs

module _ {ℓ κ} {A : Type ℓ} (P : A → Type κ) where
  All-append : (xs ys : List A) → All P xs → All P ys → All P (xs ++ ys)
  All-append [] ys h k = k
  All-append (x ∷ xs) ys h k = (h.0, All-append xs ys h.1 k)

  All-middle : (xs : List A) (t : A) (ys : List A) → All P (xs ++ t ∷ ys) → P t × All P (xs ++ ys)
  All-middle [] t ys h = (h.0, h.1)
  All-middle (x ∷ xs) t ys h = let (p, rest) = All-middle xs t ys h.1 in (p, (h.0, rest))

abbrev pub TaskOk : ℕ × Running → Type 0
TaskOk t = MachineOk t.1

-- A session that is watched waits.
abbrev pub WatchedOk : ℕ × Running → Type 0
WatchedOk t = MachineOk t.1 × (t.1.1.context.waiting ≡ true)

abbrev pub OperatorOk : Operator Running → Type 0
OperatorOk o = All TaskOk o.queue × All TaskOk o.running × All WatchedOk o.watched

submit-OperatorOk :
    (t : ℕ × Running) (o : Operator Running) → TaskOk t → OperatorOk o → OperatorOk (submit t o)
unfolding submit
submit-OperatorOk t o p h = (All-append TaskOk o.queue (t ∷ []) h.0 (p, tt), h.1, h.2)

add_to_watch-OperatorOk :
    (t : ℕ × Running) (o : Operator Running)
    → WatchedOk t
    → OperatorOk o
    → OperatorOk (add_to_watch t o)
unfolding add_to_watch
add_to_watch-OperatorOk t o p h = (h.0, h.1, All-append WatchedOk o.watched (t ∷ []) h.2 (p, tt))

placed-OperatorOk :
    (i : ℕ) (j : Running) (b : Bool) (o : Operator Running)
    → MachineOk j
    → is_waiting j ≡ b
    → OperatorOk o
    → OperatorOk (if b then add_to_watch (i, j) o else submit (i, j) o)
placed-OperatorOk i j true o p e h = add_to_watch-OperatorOk (i, j) o (p, e) h
placed-OperatorOk i j false o p e h = submit-OperatorOk (i, j) o p h

put_back-OperatorOk :
    (i : ℕ) (r : Option Running) (o o' : Operator Running)
    → OutcomeOk r
    → OperatorOk o
    → put_back start_session is_terminated is_waiting step i r o ≡ some o'
    → OperatorOk o'
unfolding put_back
put_back-OperatorOk i none o o' p h e = cc
put_back-OperatorOk i (some j) o o' p h e =
    subst OperatorOk (some-injective _ _ e) (placed-OperatorOk i j (is_waiting j) o p refl h)

-- Both ends of a call: the session is deleted, or it is called and put back.
ended-OperatorOk :
    (w : World) (b : Bool) (i : ℕ) (j : Running) (o o' : Operator Running)
    → MachineOk j
    → OperatorOk o
    → (if b
        then some (record o { deleted = (i, j) ∷ o.deleted })
        else put_back start_session is_terminated is_waiting step i (step w j) o)
      ≡ some o'
    → OperatorOk o'
ended-OperatorOk w true i j o o' p h e = subst OperatorOk (some-injective _ _ e) h
ended-OperatorOk w false i j o o' p h e =
    put_back-OperatorOk i (step w j) o o' (step-OutcomeOk w j p) h e

work-OperatorOk :
    (w : World) (t : ℕ × Running) (o o' : Operator Running)
    → TaskOk t
    → OperatorOk o
    → work start_session is_terminated is_waiting step w t o ≡ some o'
    → OperatorOk o'
unfolding work
work-OperatorOk w (i, j) o o' p h e = ended-OperatorOk w (is_terminated j) i j o o' p h e

step-OperatorOk :
    (o o' : Operator Running)
    → OperatorStep start_session is_terminated is_waiting step o o'
    → OperatorOk o
    → OperatorOk o'
step-OperatorOk _ _ (accepted o i c fresh) h =
    submit-OperatorOk (i, start_session c) o (new_session-MachineOk c.0 c.1.0 c.1.1) h
step-OperatorOk _ _ (popped o t ts e) h =
    let q : All TaskOk (t ∷ ts) = subst (All TaskOk) e h.0 in (q.1, (q.0, h.1), h.2)
step-OperatorOk _ _ (worked w o o' t xs ys e ended) h =
    let (p, rest) = All-middle TaskOk xs t ys (subst (All TaskOk) e h.1) in
    work-OperatorOk w t (record o { running = xs ++ ys }) o' p (h.0, rest, h.2) ended
step-OperatorOk _ _ (fired o t xs ys e) h =
    let (p, rest) = All-middle WatchedOk xs t ys (subst (All WatchedOk) e h.2) in
    submit-OperatorOk t (record o { watched = xs ++ ys }) p.0 (h.0, h.1, rest)

-- Whatever the clients, the workers, the sockets and the world do: every session that is queued, run
-- or watched either has a state, and what holds of a session in that state holds of it, or has
-- terminated and waits. Every session that is watched waits, so it is watched for the socket and the
-- direction that its state is about to use, or it has terminated.
pub reached-OperatorOk : (o : Operator Running) → ReachedBySessions o → OperatorOk o
unfolding new_operator
reached-OperatorOk _ at_start = (tt, tt, tt)
reached-OperatorOk _ (next r s) = step-OperatorOk _ _ s (reached-OperatorOk _ r)
