-- ===== src/Session/Actions/Refusal.antt =====
-- What a client is told when a plugin refuses its request.
use pg_fort.Base.{◌≡◌, ◌+◌, ◌<◌, ◌^◌, refl, true, false, Option, none, some, length, drop}
use pg_fort.Common.{Error, is_error}
use pg_fort.Conn.Buffer.{Buffer, contents}
use pg_fort.Conn.Message.{set_error}
use pg_fort.Conn.Message.Fields.{
  read_fields-set_error, read_fields, field_bytes, sent_fields, ready_for_query_message,
}
use pg_fort.Conn.Message.Mandatory.{sendable, set_error-none_iff}
use pg_fort.StateMachine.{Acted, moved, died}
use pg_fort.Session.{Session, World, done, with_response}
use pg_fort.Session.Plugins.Chain.{pre_request_plugins, run_pre_request}
use pg_fort.Session.Actions.{
  StateId, apply_pre_request_plugins, prepare_to_forward_response, on_pre_request, respond, act,
}

-- A state in which the client is to be told of the error.
abbrev pub Told : Error → Acted StateId Session → Type 0
Told err a =
    (t : Session) × (a ≡ moved (some prepare_to_forward_response) t)
    × (read_fields 9 (drop 5 (contents t.context.response))
        ≡ some (sent_fields err, ready_for_query_message))

respond-Told :
    (s : Session) (err : Error)
    → sendable err ≡ true
    → length (field_bytes (sent_fields err)) + 5 < 2 ^ 32
    → Told err (respond s err)
unfolding respond
respond-Told s err can small = go (set_error err) refl
  where
    go :
        (o : Option Buffer)
        → set_error err ≡ o
        → Told err (elim o [
          | none ↦ died
          | some b ↦ moved (some prepare_to_forward_response) (with_response s b)
        ])
    go none p = let f : sendable err ≡ false = (set_error-none_iff err).0 p in cc
    go (some b) p = (with_response s b, refl, (read_fields-set_error err b p small).0)

-- When a plugin refuses a request by an error that can be sent, of less than 2^32 - 5 bytes, the
-- session goes on to answer the client without the server: the answer reads as the fields of the
-- error, followed by a ReadyForQuery message.
pub refused-Told :
    (w : World) (s t : Session) (err : Error)
    → run_pre_request pre_request_plugins w s ≡ done t err
    → is_error err ≡ true
    → sendable err ≡ true
    → length (field_bytes (sent_fields err)) + 5 < 2 ^ 32
    → Told err (act w apply_pre_request_plugins s)
unfolding act on_pre_request
refused-Told w s t err ran fault can small = rw (ran, fault) (respond-Told t err can small)
