-- ===== src/Session/Actions.antt =====
-- lib/session/session.cpp: the states of a session and their actions. An action that the process
-- does not survive has no next state.
pub mod Waiting
pub mod Order
pub mod Guard
pub mod Unexamined
pub mod Refusal
pub mod Untranslatable
pub mod Run
use pg_fort.Base.{
  ℕ, zero, suc, ◌+◌, ◌-◌, ◌≡◌, Bool, true, false, not, ◌&&◌, ◌||◌, List, [], ◌∷◌, Option, none,
  some, Text, codes, ltb, leb, ◌==◌, if◌then◌else◌, length, drop, get_or, Result, ok, throw,
  Exception,
}
use pg_fort.Base.Dict.{Dict, insert}
use pg_fort.Common.{Error, is_error}
use pg_fort.Conn.Buffer.{
  Buffer, Count, count, negative, Reading, returned, overrun, out_of_fuel, recv_from, send_to,
}
use pg_fort.Conn.Message.{set_error}
use pg_fort.StateMachine.{Acted, moved, died}
use pg_fort.Session.{
  rolsuper_query, Session, Context, World, Ran, done, thrown, crashed, Events, epollin, epollout,
  reset, with_context, with_response, parameter, touch_parameter,
}
use pg_fort.Session.Startup.{read_parameters}
use pg_fort.Session.Plugins.Rewrite.{first_byte}
use pg_fort.Session.Plugins.Chain.{
  pre_request_plugins, post_response_plugins, run_pre_request, run_post_response,
}

pub data StateId : Type 0 where
  initiate : StateId
  prepare_to_receive_request : StateId
  receive_request : StateId
  apply_pre_request_plugins : StateId
  prepare_to_forward_request : StateId
  forward_request : StateId
  prepare_to_receive_response : StateId
  receive_response : StateId
  apply_post_response_plugins : StateId
  prepare_to_forward_response : StateId
  forward_response : StateId
  reset_context : StateId

abbrev pub Action : Type 0
Action = World → Session → Acted StateId Session

-- The three assignments of the states that wait for a socket.
unfoldable pub wait_for : ℕ → Events → Session → Session
wait_for fd events s =
    with_context s (record s.context { ev_fd = fd; ev_events = events; waiting = true })

abbrev pub stop_waiting : Session → Session
stop_waiting s = with_context s (record s.context { waiting = false })

abbrev pub with_errno : ℕ → Session → Session
with_errno e s = with_context s (record s.context { errno = e })

-- The query for the user's role in `Initiate`, outside of any handler for exceptions.
unfoldable pub on_user : Session → Result Text → Acted StateId Session
on_user s (throw e) = died
on_user s (ok v) =
    let s' : Session = record s { parameters = insert (codes "rolsuper") v s.parameters } in
    moved (some prepare_to_forward_request)
      (with_context s' (record s'.context { initiated = true }))

unfoldable pub on_parameters : World → Session → Option (Dict Text) → Acted StateId Session
on_parameters w s none = died
on_parameters w s (some d) =
    let s' = touch_parameter (codes "user") (record s { parameters = d }) in
    if w.acquired
    then on_user s' (w.exec_rolsuper (rolsuper_query (parameter (codes "user") s')))
    else died

-- `Session::Initiate`
unfoldable pub act_initiate : Action
unfolding on_parameters on_user
act_initiate w s =
    let t = drop 8 s.context.request.buf in
    if leb s.context.request.data_size 8
    then moved (some prepare_to_forward_request) s
    else on_parameters w s (read_parameters (suc (length t)) t s.parameters)

-- `Session::ReceiveRequest`
unfoldable pub on_request : World → Session → Reading → Acted StateId Session
on_request w s overrun = died
on_request w s out_of_fuel = died
on_request w s (returned (negative m) b sock) =
    moved none (with_errno w.os_errno (with_context s (record s.context { request = b })))
on_request w s (returned (count zero) b sock) =
    moved none (with_errno w.os_errno (with_context s (record s.context { request = b })))
on_request w s (returned (count (suc n)) b sock) =
    moved (some (if s.context.initiated then apply_pre_request_plugins else initiate))
      (with_context s (record s.context { request = b; waiting = false }))

unfoldable pub act_receive_request : Action
unfolding on_request
act_receive_request w s = on_request w s (recv_from s.context.request w.cl_in)

-- `context_.response_.SetError(err)`
unfoldable pub respond : Session → Error → Acted StateId Session
respond s err = elim (set_error err) [
  | none ↦ died
  | some b ↦ moved (some prepare_to_forward_response) (with_response s b)
]

abbrev pub internal_error : Text → Error
internal_error what =
    (codes "S", codes "ERROR") ∷ (codes "C", codes "XX000") ∷ (codes "M", what) ∷ []

unfoldable pub on_pre_request : World → Ran → Acted StateId Session
unfolding respond
on_pre_request w (done s err) =
    if is_error err then respond s err else moved (some prepare_to_forward_request) s
on_pre_request w (thrown s e) = respond s (internal_error (w.what e))
on_pre_request w crashed = died

-- `Session::ApplyPreRequestPlugins`
unfoldable pub act_apply_pre_request_plugins : Action
unfolding on_pre_request
act_apply_pre_request_plugins w s = on_pre_request w (run_pre_request pre_request_plugins w s)

-- `Session::ForwardRequest` and `Session::ForwardResponse`, behind their `send`.
unfoldable pub on_sent : StateId → World → Session → Count → Acted StateId Session
on_sent next w s (negative m) = moved none (with_errno w.os_errno s)
on_sent next w s (count zero) = moved none (with_errno w.os_errno s)
on_sent next w s (count (suc n)) = moved (some next) (stop_waiting s)

unfoldable pub act_forward_request : Action
unfolding on_sent send_to
act_forward_request w s =
    on_sent prepare_to_receive_response w s (send_to s.context.request w.sv_send)

unfoldable pub act_forward_response : Action
unfolding on_sent send_to
act_forward_response w s = on_sent reset_context w s (send_to s.context.response w.cl_send)

-- The test for ReadyForQuery: `none` is a read before the start of the buffer.
unfoldable pub ready_for_query : Bool → Buffer → ℕ → Option Bool
unfolding first_byte
ready_for_query initiated b size =
    let status = get_or b.buf (size - 1) 0 in
    if not initiated || (first_byte b == b'R')
    then some true
    else if ltb size 6
    then none
    else some (
        (get_or b.buf (size - 6) 0 == b'Z')
        && (get_or b.buf (size - 5) 0 == 0)
        && (get_or b.buf (size - 4) 0 == 0)
        && (get_or b.buf (size - 3) 0 == 0)
        && (get_or b.buf (size - 2) 0 == 5)
        && ((status == b'I') || (status == b'T') || (status == b'E')))

unfoldable pub on_ready : Session → Option Bool → Acted StateId Session
on_ready s none = died
on_ready s (some false) = moved (some receive_response) s
on_ready s (some true) = moved (some apply_post_response_plugins) (stop_waiting s)

-- `Session::ReceiveResponse`
unfoldable pub on_response : World → Session → Reading → Acted StateId Session
unfolding on_ready
on_response w s overrun = died
on_response w s out_of_fuel = died
on_response w s (returned (negative m) b sock) =
    moved none (with_errno w.os_errno (with_response s b))
on_response w s (returned (count zero) b sock) =
    moved none (with_errno w.os_errno (with_response s b))
on_response w s (returned (count (suc n)) b sock) =
    on_ready (with_response s b) (ready_for_query s.context.initiated b (suc n))

unfoldable pub act_receive_response : Action
unfolding on_response
act_receive_response w s = on_response w s (recv_from s.context.response w.sv_in)

unfoldable pub on_post_response : World → Ran → Acted StateId Session
unfolding respond
on_post_response w (done s err) = moved (some prepare_to_forward_response) s
on_post_response w (thrown s e) = respond s (internal_error (w.what e))
on_post_response w crashed = died

-- `Session::ApplyPostResponsePlugins`
unfoldable pub act_apply_post_response_plugins : Action
unfolding on_post_response
act_apply_post_response_plugins w s =
    on_post_response w (run_post_response post_response_plugins w s)

-- The action that the constructor binds to each state.
unfoldable pub act : World → StateId → Session → Acted StateId Session
unfolding act_initiate act_receive_request act_apply_pre_request_plugins act_forward_request
    act_receive_response act_apply_post_response_plugins act_forward_response wait_for
act w initiate s = act_initiate w s
act w prepare_to_receive_request s = moved (some receive_request) (wait_for s.cl_sock epollin s)
act w receive_request s = act_receive_request w s
act w apply_pre_request_plugins s = act_apply_pre_request_plugins w s
act w prepare_to_forward_request s = moved (some forward_request) (wait_for s.sv_sock epollout s)
act w forward_request s = act_forward_request w s
act w prepare_to_receive_response s = moved (some receive_response) (wait_for s.sv_sock epollin s)
act w receive_response s = act_receive_response w s
act w apply_post_response_plugins s = act_apply_post_response_plugins w s
act w prepare_to_forward_response s = moved (some forward_response) (wait_for s.cl_sock epollout s)
act w forward_response s = act_forward_response w s
act w reset_context s = moved (some prepare_to_receive_request) (with_context s (reset s.context))
