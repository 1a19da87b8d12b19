-- ===== src/Session/Actions/Order.antt =====
-- Which state follows which: the cycle of a request and its response, with the ways to an error.
use pg_fort.Base.{
  zero, suc, ok, suc, throw, Result, leb, Bool, true, false, Option, none, some, Text,
  if◌then◌else◌,
}
use pg_fort.Conn.Buffer.{negative, Reading, Count, overrun, out_of_fuel, returned, count}
use pg_fort.StateMachine.{Acted, moved, died}
use pg_fort.Session.{
  with_response, Buffer, Dict, Count, Error, Session, World, Ran, done, thrown, crashed,
}
use pg_fort.Session.Actions.{
  set_error, count, returned, Reading, is_error, on_parameters, on_ready, on_user, StateId,
  initiate, prepare_to_receive_request, receive_request, apply_pre_request_plugins,
  prepare_to_forward_request, forward_request, prepare_to_receive_response, receive_response,
  apply_post_response_plugins, prepare_to_forward_response, forward_response, reset_context,
  on_request, on_pre_request, on_sent, on_response, on_post_response, act, respond,
}

-- The transitions of the protocol.
pub data Next : StateId → StateId → Type 0 where
  startup_passed_on : Next initiate prepare_to_forward_request
  wait_for_request : Next prepare_to_receive_request receive_request
  startup_received : Next receive_request initiate
  request_received : Next receive_request apply_pre_request_plugins
  request_accepted : Next apply_pre_request_plugins prepare_to_forward_request
  request_refused : Next apply_pre_request_plugins prepare_to_forward_response
  wait_for_server : Next prepare_to_forward_request forward_request
  request_forwarded : Next forward_request prepare_to_receive_response
  wait_for_response : Next prepare_to_receive_response receive_response
  more_response : Next receive_response receive_response
  response_complete : Next receive_response apply_post_response_plugins
  response_examined : Next apply_post_response_plugins prepare_to_forward_response
  wait_for_client : Next prepare_to_forward_response forward_response
  response_forwarded : Next forward_response reset_context
  reset_done : Next reset_context prepare_to_receive_request

-- What an action may do in a state: only the states that wait for a socket end the session.
pub data Allowed : StateId → Acted StateId Session → Type 0 where
  allowed : {i j : StateId} {t : Session} → Next i j → Allowed i (moved (some j) t)
  request_ended : {t : Session} → Allowed receive_request (moved none t)
  forwarding_ended : {t : Session} → Allowed forward_request (moved none t)
  response_ended : {t : Session} → Allowed receive_response (moved none t)
  answering_ended : {t : Session} → Allowed forward_response (moved none t)
  process_died : {i : StateId} → Allowed i died

either-Allowed :
    (b : Bool) {i : StateId} {x y : Acted StateId Session}
    → Allowed i x
    → Allowed i y
    → Allowed i (if b then x else y)
either-Allowed true p q = p
either-Allowed false p q = q

respond-Allowed :
    {i : StateId} (s : Session) (err : Error)
    → Next i prepare_to_forward_response
    → Allowed i (respond s err)
unfolding respond
respond-Allowed {i = i} s err n = go (set_error err)
  where
    go :
        (o : Option Buffer)
        → Allowed i (elim o [
          | none ↦ died
          | some b ↦ moved (some prepare_to_forward_response) (with_response s b)
        ])
    go none = process_died
    go (some b) = allowed n

on_user-Allowed : (s : Session) (r : Result Text) → Allowed initiate (on_user s r)
unfolding on_user
on_user-Allowed s (throw e) = process_died
on_user-Allowed s (ok v) = allowed startup_passed_on

on_parameters-Allowed :
    (w : World) (s : Session) (o : Option (Dict Text)) → Allowed initiate (on_parameters w s o)
unfolding on_parameters
on_parameters-Allowed w s none = process_died
on_parameters-Allowed w s (some d) = either-Allowed w.acquired (on_user-Allowed _ _) process_died

on_request-Allowed :
    (w : World) (s : Session) (r : Reading) → Allowed receive_request (on_request w s r)
unfolding on_request
on_request-Allowed w s overrun = process_died
on_request-Allowed w s out_of_fuel = process_died
on_request-Allowed w s (returned (negative m) b sock) = request_ended
on_request-Allowed w s (returned (count zero) b sock) = request_ended
on_request-Allowed w s (returned (count (suc n)) b sock) = go s.context.initiated
  where
    go :
        (b' : Bool) {t : Session}
        → Allowed receive_request
            (moved (some (if b' then apply_pre_request_plugins else initiate)) t)
    go true = allowed request_received
    go false = allowed startup_received

on_pre_request-Allowed :
    (w : World) (r : Ran) → Allowed apply_pre_request_plugins (on_pre_request w r)
unfolding on_pre_request
on_pre_request-Allowed w (done s err) =
    either-Allowed (is_error err) (respond-Allowed s err request_refused) (allowed request_accepted)
on_pre_request-Allowed w (thrown s e) = respond-Allowed s _ request_refused
on_pre_request-Allowed w crashed = process_died

on_ready-Allowed : (s : Session) (o : Option Bool) → Allowed receive_response (on_ready s o)
unfolding on_ready
on_ready-Allowed s none = process_died
on_ready-Allowed s (some false) = allowed more_response
on_ready-Allowed s (some true) = allowed response_complete

on_response-Allowed :
    (w : World) (s : Session) (r : Reading) → Allowed receive_response (on_response w s r)
unfolding on_response
on_response-Allowed w s overrun = process_died
on_response-Allowed w s out_of_fuel = process_died
on_response-Allowed w s (returned (negative m) b sock) = response_ended
on_response-Allowed w s (returned (count zero) b sock) = response_ended
on_response-Allowed w s (returned (count (suc n)) b sock) = on_ready-Allowed _ _

on_post_response-Allowed :
    (w : World) (r : Ran) → Allowed apply_post_response_plugins (on_post_response w r)
unfolding on_post_response
on_post_response-Allowed w (done s err) = allowed response_examined
on_post_response-Allowed w (thrown s e) = respond-Allowed s _ response_examined
on_post_response-Allowed w crashed = process_died

on_sent-Allowed :
    {i j : StateId}
    → ((t : Session) → Allowed i (moved (some j) t))
    → ((t : Session) → Allowed i (moved none t))
    → (w : World) (s : Session) (n : Count) → Allowed i (on_sent j w s n)
unfolding on_sent
on_sent-Allowed on off w s (negative m) = off _
on_sent-Allowed on off w s (count zero) = off _
on_sent-Allowed on off w s (count (suc n)) = on _

-- Each action leads along a transition of the protocol, whatever the sockets, the parser and the
-- database answer; a session ends only where it receives or sends, and on the others it goes on or
-- the process dies.
pub act-Allowed : (w : World) (i : StateId) (s : Session) → Allowed i (act w i s)
unfolding act
act-Allowed w initiate s =
    either-Allowed (leb s.context.request.data_size 8) (allowed startup_passed_on)
      (on_parameters-Allowed w s _)
act-Allowed w prepare_to_receive_request s = allowed wait_for_request
act-Allowed w receive_request s = on_request-Allowed w s _
act-Allowed w apply_pre_request_plugins s = on_pre_request-Allowed w _
act-Allowed w prepare_to_forward_request s = allowed wait_for_server
act-Allowed w forward_request s =
    on_sent-Allowed (λ t. allowed request_forwarded) (λ t. forwarding_ended) w s _
act-Allowed w prepare_to_receive_response s = allowed wait_for_response
act-Allowed w receive_response s = on_response-Allowed w s _
act-Allowed w apply_post_response_plugins s = on_post_response-Allowed w _
act-Allowed w prepare_to_forward_response s = allowed wait_for_client
act-Allowed w forward_response s =
    on_sent-Allowed (λ t. allowed response_forwarded) (λ t. answering_ended) w s _
act-Allowed w reset_context s = allowed reset_done
