-- ===== src/Tests/Operator.antt =====
-- A run of the session operator: a client is accepted, its session is called once, and watched.
use pg_fort.Base.{ℕ, ◌≡◌, get_elem?, arith, ◌≤◌, refl, [], ◌∷◌, Option, none, some}
use pg_fort.StateMachine.{act_in, set_initial_state}
use pg_fort.Session.{new_context}
use pg_fort.Session.Actions.{act}
use pg_fort.Session.Actions.Run.{step, new_session}
use pg_fort.Session.Operator.{
  Operator, new_operator, submit, add_to_watch, put_back, work, everyone, occurrences, accepted,
  popped, worked, at_start, next,
}
use pg_fort.Session.Operator.Fairness.{Steps, stay, before, picked, get_elem?-picked}
use pg_fort.Session.Operator.Places.{occurrences-everyone_le}
use pg_fort.Session.Operator.Watched.{
  Running, Client, start_session, is_terminated, is_waiting, ReachedBySessions, OperatorOk,
  reached-OperatorOk,
}
use pg_fort.Tests.Plugins.{quiet}

abbrev client : Client
client = (4, (5, none))

abbrev session : ℕ × Running
session = (7, start_session client)

abbrev queued : Operator Running
queued = record { queue = session ∷ []; running = []; watched = []; deleted = [] }

abbrev called : Operator Running
called = record { queue = []; running = session ∷ []; watched = []; deleted = [] }

abbrev or_new : Option (Operator Running) → Operator Running
or_new none = new_operator
or_new (some o) = o

abbrev waiting : Operator Running
waiting = or_new (work start_session is_terminated is_waiting step quiet session new_operator)

queued-Reached : ReachedBySessions queued
unfolding submit new_operator occurrences
queued-Reached = next at_start (accepted new_operator 7 client refl)

called-Reached : ReachedBySessions called
called-Reached = next queued-Reached (popped queued session [] refl)

waiting-Reached : ReachedBySessions waiting
unfolding work put_back step new_session act add_to_watch new_operator new_context set_initial_state
    act_in
waiting-Reached = next called-Reached (worked quiet called waiting session [] [] refl refl)

occurrences-everyone_le_example : occurrences 7 (everyone waiting) ≤ 1
occurrences-everyone_le_example =
    occurrences-everyone_le start_session is_terminated is_waiting step 7 waiting waiting-Reached

reached-OperatorOk_example : OperatorOk waiting
reached-OperatorOk_example = reached-OperatorOk waiting waiting-Reached

-- A second client comes while the first session is in the queue.
abbrev second : ℕ × Running
second = (8, start_session (6, (9, none)))

abbrev both_queued : Operator Running
both_queued = submit second queued

abbrev first_called : Operator Running
first_called = record { queue = second ∷ []; running = session ∷ []; watched = []; deleted = [] }

abbrev first_waits : Operator Running
first_waits = or_new (
    work start_session is_terminated is_waiting step quiet session
      (record { queue = second ∷ []; running = []; watched = []; deleted = [] }))

abbrev both_called : Operator Running
both_called = record {
  queue = [];
  running = second ∷ [];
  watched = first_waits.watched;
  deleted = [];
}

both_picked : Steps start_session is_terminated is_waiting step both_queued both_called
unfolding submit work put_back step new_session act add_to_watch new_operator new_context
    set_initial_state act_in
both_picked = before (popped both_queued session (second ∷ []) refl) (
    before (worked quiet first_called first_waits session [] [] refl refl)
      (before (popped first_waits second [] refl) (stay both_called)))

get_elem?-picked_example :
    get_elem? (picked start_session is_terminated is_waiting step both_picked) 1 ≡ some second
unfolding submit picked both_picked
get_elem?-picked_example =
    get_elem?-picked start_session is_terminated is_waiting step both_queued both_called
      (session ∷ []) [] second both_picked refl (omega arith)
