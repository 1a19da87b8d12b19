-- ===== src/Session/Actions/Waiting.antt =====
-- When a session waits, and for what: the event loop watches exactly the sessions that wait.
use pg_fort.Base.{ℕ, ◌≡◌, refl, true, false, none, some, arith}
use pg_fort.StateMachine.{Acted, moved, died}
use pg_fort.Session.{Session, World, Ran, Events, epollin, epollout, touch_parameter, reset}
use pg_fort.Session.Plugins.Chain.{
  pre_request_plugins, post_response_plugins, run_pre_request, run_post_response,
}
use pg_fort.Session.Plugins.Wiring.{Keeps, pre_request-Keeps, post_response-Keeps}
use pg_fort.Session.Actions.{
  StateId, initiate, prepare_to_receive_request, receive_request, apply_pre_request_plugins,
  prepare_to_forward_request, forward_request, prepare_to_receive_response, receive_response,
  apply_post_response_plugins, prepare_to_forward_response, forward_response, reset_context,
  on_pre_request, on_post_response, act,
}

abbrev pub Waits : ℕ → Events → Session → Type 0
Waits fd events s =
    (s.context.waiting ≡ true) × (s.context.ev_fd ≡ fd) × (s.context.ev_events ≡ events)

-- What holds of a session that is in a state.
abbrev pub StateOk : StateId → Session → Type 0
StateOk receive_request s = Waits s.cl_sock epollin s
StateOk forward_request s = Waits s.sv_sock epollout s
StateOk receive_response s = Waits s.sv_sock epollin s
StateOk forward_response s = Waits s.cl_sock epollout s
StateOk initiate s = (s.context.waiting ≡ false) × (s.context.initiated ≡ false)
StateOk apply_pre_request_plugins s = (s.context.waiting ≡ false) × (s.context.initiated ≡ true)
StateOk _ s = s.context.waiting ≡ false

abbrev pub ActedOk : Acted StateId Session → Type 0
ActedOk (moved (some i) s) = StateOk i s
ActedOk (moved none s) = s.context.waiting ≡ true
ActedOk died = Unit {0}

pre_request-ActedOk :
    (w : World) (s : Session) (r : Ran)
    → s.context.waiting ≡ false
    → Keeps s r
    → ActedOk (on_pre_request w r)
unfolding on_pre_request
pre_request-ActedOk w s r h k = ground arith

post_response-ActedOk :
    (w : World) (s : Session) (r : Ran)
    → s.context.waiting ≡ false
    → Keeps s r
    → ActedOk (on_post_response w r)
unfolding on_post_response
post_response-ActedOk w s r h k = ground arith

-- After every action that the session survives, a waiting session watches the right socket for the
-- right event: the client's for a request, the server's to pass it on, the server's for the
-- response, the client's to pass that on. In every other state it does not wait, and a session that
-- has ended still waits. Only a session that is not initiated reads a StartupMessage, and only an
-- initiated one has its request examined by the plugins.
pub act-ActedOk : (w : World) (i : StateId) (s : Session) → StateOk i s → ActedOk (act w i s)
unfolding act touch_parameter
act-ActedOk w initiate s h = ground arith
act-ActedOk w prepare_to_receive_request s h = (refl, refl, refl)
act-ActedOk w receive_request s h = ground arith
act-ActedOk w apply_pre_request_plugins s h =
    pre_request-ActedOk w s (run_pre_request pre_request_plugins w s) h.0 (pre_request-Keeps w s)
act-ActedOk w prepare_to_forward_request s h = (refl, refl, refl)
act-ActedOk w forward_request s h = ground arith
act-ActedOk w prepare_to_receive_response s h = (refl, refl, refl)
act-ActedOk w receive_response s h = ground arith
act-ActedOk w apply_post_response_plugins s h =
    post_response-ActedOk w s (run_post_response post_response_plugins w s) h
      (post_response-Keeps w s)
act-ActedOk w prepare_to_forward_response s h = (refl, refl, refl)
act-ActedOk w forward_response s h = ground arith
act-ActedOk w reset_context s h = unfold reset in refl
