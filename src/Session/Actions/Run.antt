-- ===== src/Session/Actions/Run.antt =====
-- lib/session/session.cpp: the constructor and `operator()`. A session is run one action at a time,
-- with the world's answers to each.
use pg_fort.Base.{ℕ, ◌≡◌, refl, Bool, true, false, List, [], ◌∷◌, Option, none, some, arith}
use pg_fort.StateMachine.{
  Machine, Acted, moved, died, take_action, act_in, after_action, set_initial_state,
}
use pg_fort.Schema.Tracker.{SchemaTracker}
use pg_fort.Session.{Session, World, new_context}
use pg_fort.Session.Actions.{StateId, prepare_to_receive_request, act}
use pg_fort.Session.Actions.Waiting.{StateOk, ActedOk, act-ActedOk}

-- `Session::Session`
unfoldable pub new_session : ℕ → ℕ → Option SchemaTracker → Machine StateId × Session
new_session cl sv st = (
  set_initial_state prepare_to_receive_request,
  record { parameters = []; cl_sock = cl; sv_sock = sv; st = st; context = new_context },
)

-- `Session::operator()`
unfoldable pub step : World → Machine StateId × Session → Option (Machine StateId × Session)
unfolding take_action
step w m = take_action (act w) m

-- The calls of a session, one world each.
unfoldable pub run : List World → Machine StateId × Session → Option (Machine StateId × Session)
run [] m = some m
run (w ∷ ws) m = elim (step w m) [ none ↦ none | some m' ↦ run ws m' ]

-- A session that has terminated has no state, and waits; every other has one, and what holds in it.
abbrev pub MachineOk : Machine StateId × Session → Type 0
MachineOk (m, s) = elim m.current [
  | none ↦ (m.terminated ≡ true) × (s.context.waiting ≡ true)
  | some i ↦ (m.terminated ≡ false) × StateOk i s
]

abbrev pub OutcomeOk : Option (Machine StateId × Session) → Type 0
OutcomeOk none = Unit {0}
OutcomeOk (some m) = MachineOk m

after-OutcomeOk :
    (w : World) (a : Acted StateId Session) → ActedOk a → OutcomeOk (after_action (act w) a)
unfolding after_action
after-OutcomeOk w (moved none s) h = (refl, h)
after-OutcomeOk w (moved (some i) s) h = (refl, h)
after-OutcomeOk w died h = tt

step-current :
    (w : World) (o : Option StateId) (b : Bool) (s : Session)
    → MachineOk (record { current = o; terminated = b }, s)
    → OutcomeOk (step w (record { current = o; terminated = b }, s))
unfolding step act_in
step-current w (some i) true s h = absurd (ground arith)
step-current w (some i) false s h = after-OutcomeOk w (act w i s) (act-ActedOk w i s h.1)
step-current w none true s h = h
step-current w none false s h = absurd (ground arith)

pub step-OutcomeOk :
    (w : World) (m : Machine StateId × Session) → MachineOk m → OutcomeOk (step w m)
step-OutcomeOk w (m, s) h = step-current w m.current m.terminated s h

then-OutcomeOk :
    (k : Machine StateId × Session → Option (Machine StateId × Session))
    → ((m : Machine StateId × Session) → MachineOk m → OutcomeOk (k m))
    → (o : Option (Machine StateId × Session)) → OutcomeOk o
    → OutcomeOk (elim o [ none ↦ none | some m ↦ k m ])
then-OutcomeOk k f none h = tt
then-OutcomeOk k f (some m) h = f m h

run-OutcomeOk :
    (ws : List World) (m : Machine StateId × Session) → MachineOk m → OutcomeOk (run ws m)
unfolding run
run-OutcomeOk [] m h = h
run-OutcomeOk (w ∷ ws) m h =
    then-OutcomeOk (run ws) (run-OutcomeOk ws) (step w m) (step-OutcomeOk w m h)

pub new_session-MachineOk :
    (cl sv : ℕ) (st : Option SchemaTracker) → MachineOk (new_session cl sv st)
unfolding new_session set_initial_state new_context
new_session-MachineOk cl sv st = (refl, refl)

-- A session that is called any number of times, whatever the world answers, and that the process
-- has survived: it has terminated exactly if it has no state, it then waits, and otherwise what
-- holds of a session in its state does: it waits in the four states that use a socket, for that
-- socket and in that direction, and in no other.
pub run-MachineOk :
    (ws : List World) (cl sv : ℕ) (st : Option SchemaTracker)
    → OutcomeOk (run ws (new_session cl sv st))
run-MachineOk ws cl sv st = run-OutcomeOk ws (new_session cl sv st) (new_session-MachineOk cl sv st)
